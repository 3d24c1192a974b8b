-- ===== src/Tokens/Words.antt =====
-- The tokens as strings, against the fields between delimiters.
use libixp.Prelude.{
  ℕ, suc, ◌-◌, ◌≤◌, ◌<◌, ◌≡◌, ◌≢◌, refl, sym, ap, ◌∙◌, false, Bool-cases, List, [], ◌∷◌, ◌++◌, map,
  drop, length, length-append, append_assoc, drop-append_length, ◌==◌, if◌then◌else◌, arith, inl,
  inr,
}
use libixp.Ctl.{c_string}
use libixp.Strlcat.Result.{HasNoNul}
use libixp.Tokens.{Tokenized, keep, skip_delims, pass_token, ixp_tokenize}

-- The strings at the pointers, in a string that stands behind `front`.
abbrev pub texts_behind : List ℕ → Tokenized → List (List ℕ)
texts_behind front r = map (λ i. c_string (drop i (front ++ r.str))) r.tokens

abbrev pub texts : Tokenized → List (List ℕ)
texts r = texts_behind [] r

-- The pieces between delimiters: the first, and those that follow.
abbrev pub first_piece : ℕ → List ℕ → List ℕ
first_piece delim [] = []
first_piece delim (c ∷ s) = let rest = first_piece delim s in if c == delim then [] else c ∷ rest

abbrev pub push_nonempty : List ℕ → List (List ℕ) → List (List ℕ)
push_nonempty [] ls = ls
push_nonempty (c ∷ l) ls = (c ∷ l) ∷ ls

-- The pieces after the first delimiter that are not empty.
abbrev pub later_fields : ℕ → List ℕ → List (List ℕ)
later_fields delim [] = []
later_fields delim (c ∷ s) =
    let rest = later_fields delim s in
    if c == delim then push_nonempty (first_piece delim s) rest else rest

abbrev pub fields : ℕ → List ℕ → List (List ℕ)
fields delim s = push_nonempty (first_piece delim s) (later_fields delim s)

nonzero : (c : ℕ) → c ≢ 0 → (c == 0) ≡ false
nonzero c h = ground (arith, h)

-- While another token may follow, a token ends at the first delimiter.
pass_token-first_piece :
    (delim left at : ℕ) (s : List ℕ)
    → HasNoNul s
    → 0 < left
    → c_string ((pass_token delim left at s).str) ≡ first_piece delim s
unfolding pass_token c_string
pass_token-first_piece delim left at [] h pos = refl
pass_token-first_piece delim left at (c ∷ s) h pos = elim (Bool-cases (c == delim)) [
  | inl t ↦ let more : (left == 0) ≡ false = ground (arith, pos) in rw (t, more) refl
  | inr t ↦
      rw (t, nonzero c h.0) (ap (λ l. c ∷ l) (pass_token-first_piece delim left (suc at) s h.1 pos))
]

-- One byte more in front.
texts-keep :
    (front : List ℕ) (c : ℕ) (r : Tokenized)
    → texts_behind (front ++ c ∷ []) r ≡ texts_behind front (keep c r)
texts-keep front c r =
    ap (λ (l : List ℕ). map (λ i. c_string (drop i l)) r.tokens) (append_assoc front (c ∷ []) r.str)

length-snoc : (front : List ℕ) (c at : ℕ) → length front ≡ at → length (front ++ c ∷ []) ≡ suc at
length-snoc front c at h = omega (arith, length-append front (c ∷ []), h)

-- The string at a pointer behind `front`.
drop_front : (front s : List ℕ) (at : ℕ) → length front ≡ at → drop at (front ++ s) ≡ s
drop_front front s at h = rw (← h) (drop-append_length front s)

cons_pair :
    (x y : List ℕ) (xs ys : List (List ℕ))
    → x ≡ y
    → xs ≡ ys
    → ◌≡◌ {A = List (List ℕ)} (x ∷ xs) (y ∷ ys)
cons_pair x y xs ys e f = cc (e, f)

-- The token that begins at `c`, behind `front`.
token-first_piece :
    (delim left at c : ℕ) (front s : List ℕ)
    → HasNoNul (c ∷ s)
    → length front ≡ at
    → 0 < left
    → c_string (drop at (front ++ c ∷ (pass_token delim left (suc at) s).str))
      ≡ c ∷ first_piece delim s
unfolding c_string
token-first_piece delim left at c front s h w pos =
    let str = (pass_token delim left (suc at) s).str in
    ap c_string (drop_front front (c ∷ str) at w)
    ∙ rw (nonzero c h.0) (ap (λ l. c ∷ l) (pass_token-first_piece delim left (suc at) s h.1 pos))

mutual
  unfolding skip_delims

  skip_delims-fields :
      (delim left at : ℕ) (front s : List ℕ)
      → HasNoNul s
      → length front ≡ at
      → length (fields delim s) < left
      → texts_behind front (skip_delims delim left at s) ≡ fields delim s
  skip_delims-fields delim left at front [] h w lt = refl
  skip_delims-fields delim left at front (c ∷ s) h w lt = elim (Bool-cases (c == delim)) [
    | inl t ↦ rw t (
        sym (texts-keep front 0 (skip_delims delim left (suc at) s))
        ∙ skip_delims-fields delim left (suc at) (front ++ 0 ∷ []) s h.1 (length-snoc front 0 at w)
            (rw t at lt))
    | inr t ↦
        let few : suc (length (later_fields delim s)) < left = rw t at lt in
        let r = pass_token delim (left - 1) (suc at) s in
        rw t (
          cons_pair _ _ _ _
            (token-first_piece delim (left - 1) at c front s h w (omega (arith, few)))
            (sym (texts-keep front c r)
              ∙ pass_token-later_fields delim (left - 1) (suc at) (front ++ c ∷ []) s h.1
                  (length-snoc front c at w) (omega (arith, few))))
  ]

  pass_token-later_fields :
      (delim left at : ℕ) (front s : List ℕ)
      → HasNoNul s
      → length front ≡ at
      → length (later_fields delim s) < left
      → texts_behind front (pass_token delim left at s) ≡ later_fields delim s
  pass_token-later_fields delim left at front [] h w lt = refl
  pass_token-later_fields delim left at front (c ∷ s) h w lt = elim (Bool-cases (c == delim)) [
    | inl t ↦
        let few : length (fields delim s) < left = rw t at lt in
        let open_left : (left == 0) ≡ false = ground (arith, few) in
        rw (t, open_left)
          (sym (texts-keep front 0 (skip_delims delim left (suc at) s))
            ∙ skip_delims-fields delim left (suc at) (front ++ 0 ∷ []) s h.1
                (length-snoc front 0 at w) few)
    | inr t ↦ rw t (
        sym (texts-keep front c (pass_token delim left (suc at) s))
        ∙ pass_token-later_fields delim left (suc at) (front ++ c ∷ []) s h.1
            (length-snoc front c at w) (rw t at lt))
  ]

-- If the string has fewer fields between delimiters than there is room for pointers, ixp_tokenize
-- returns a pointer to each field that is not empty, in order, and each is a string of its own.
pub tokenize-fields :
    (reslen delim : ℕ) (str : List ℕ)
    → HasNoNul str
    → length (fields delim str) < reslen
    → texts (ixp_tokenize reslen str delim) ≡ fields delim str
unfolding ixp_tokenize
tokenize-fields reslen delim str h lt =
    let room : (reslen == 0) ≡ false = ground (arith, lt) in
    rw room (skip_delims-fields delim reslen 0 [] str h refl lt)

-- As many tokens at most as there is room for, and no string grows or shrinks.
mutual
  unfolding skip_delims

  length-skip_delims :
      (delim left at : ℕ) (s : List ℕ)
      → 0 < left
      → (length (skip_delims delim left at s).tokens ≤ left)
        × (length (skip_delims delim left at s).str ≡ length s)
  length-skip_delims delim left at [] h = (omega arith, refl)
  length-skip_delims delim left at (c ∷ s) h = ground (
    arith,
    length-skip_delims delim left (suc at) s h,
    length-pass_token delim (left - 1) (suc at) s,
  )

  length-pass_token :
      (delim left at : ℕ) (s : List ℕ)
      → (length (pass_token delim left at s).tokens ≤ left)
        × (length (pass_token delim left at s).str ≡ length s)
  length-pass_token delim left at [] = (omega arith, refl)
  length-pass_token delim left at (c ∷ s) =
      ground
        (arith, length-skip_delims delim left (suc at) s, length-pass_token delim left (suc at) s)

-- ixp_tokenize stores at most `reslen` pointers, and writes within the string.
pub tokenize_bounds :
    (reslen delim : ℕ) (str : List ℕ)
    → (length (ixp_tokenize reslen str delim).tokens ≤ reslen)
      × (length (ixp_tokenize reslen str delim).str ≡ length str)
unfolding ixp_tokenize
tokenize_bounds reslen delim str = ground (arith, length-skip_delims delim reslen 0 str)
