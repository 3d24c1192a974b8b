-- ===== src/Ctl/Lines.antt =====
-- The data of a write as text, and the lines that a control file is given.
use libixp.Prelude.{
  ℕ, zero, suc, ◌-◌, ◌≤◌, ◌≡◌, refl, ap, sym, ◌∙◌, Bool-cases, List, [], ◌∷◌, ◌++◌, Option, some,
  length, take, get_or, le→leb, ◌==◌, ==_iff, if◌then◌else◌, arith, inl, inr, append_assoc,
  append-nil,
}
use libixp.Request.{Req}
use libixp.Ctl.{
  chomped, nul_index, ixp_srv_data2cstring, c_string, call, skip_newlines, take_line, skipped_bytes,
  line_bytes,
}

-- A text without the newline at its end.
abbrev pub chomp : List ℕ → List ℕ
chomp [] = []
chomp (c ∷ []) = if c == b'\n' then [] else c ∷ []
chomp (c ∷ d ∷ s) = c ∷ chomp (d ∷ s)

-- The pieces between newlines, of which there is always one.
abbrev pub begins : ℕ → List (List ℕ) → List (List ℕ)
begins c [] = (c ∷ []) ∷ []
begins c (l ∷ ls) = (c ∷ l) ∷ ls

abbrev pub pieces : List ℕ → List (List ℕ)
pieces [] = [] ∷ []
pieces (c ∷ s) = let rest = pieces s in if c == b'\n' then [] ∷ rest else begins c rest

-- The pieces that are not empty, and the last one in any case.
abbrev pub kept_lines : List (List ℕ) → List (List ℕ)
kept_lines [] = []
kept_lines (l ∷ []) = l ∷ []
kept_lines ([] ∷ l ∷ ls) = kept_lines (l ∷ ls)
kept_lines ((c ∷ k) ∷ l ∷ ls) = (c ∷ k) ∷ kept_lines (l ∷ ls)

abbrev pub text_lines : List ℕ → List (List ℕ)
text_lines [] = []
text_lines (c ∷ s) = kept_lines (pieces (c ∷ s))

-- The calls on a list of lines, in order; the error is the last one that a call returned.
abbrev pub call_all {ℓ κ} :
    {S : Type ℓ} {E : Type κ}
    → (S → List ℕ → S × Option E)
    → List (List ℕ)
    → S × Option E
    → S × Option E
call_all fn [] r = r
call_all fn (l ∷ ls) r = call_all fn ls (call fn l r)

-- What a line begun with `line` becomes when the pieces of the rest follow.
abbrev join_first : List ℕ → List (List ℕ) → List (List ℕ)
join_first line [] = []
join_first line (l ∷ ls) = (line ++ l) ∷ ls

pieces_nonempty : (s : List ℕ) → (l : List ℕ) × (ls : List (List ℕ)) × (pieces s ≡ l ∷ ls)
pieces_nonempty [] = ([], [], refl)
pieces_nonempty (c ∷ s) = elim (Bool-cases (c == b'\n')) [
  | inl t ↦ ([], pieces s, rw t refl)
  | inr t ↦ let (l, ls, e) = pieces_nonempty s in (c ∷ l, ls, rw (t, e) refl)
]

kept_empty : (s : List ℕ) → kept_lines (pieces s) ≡ kept_lines ([] ∷ pieces s)
kept_empty s = let (l, ls, e) = pieces_nonempty s in rw e refl

kept_line :
    (d : ℕ) (k s : List ℕ)
    → (d ∷ k) ∷ kept_lines (pieces s) ≡ kept_lines ((d ∷ (k ++ [])) ∷ pieces s)
kept_line d k s = let (l, ls, e) = pieces_nonempty s in rw (append-nil k, e) refl

begins-join_first : (c : ℕ) (s : List ℕ) → join_first (c ∷ []) (pieces s) ≡ begins c (pieces s)
begins-join_first c s = let (l, ls, e) = pieces_nonempty s in rw e refl

join_first-begins :
    (k : List ℕ) (c : ℕ) (s : List ℕ)
    → join_first (k ++ c ∷ []) (pieces s) ≡ join_first k (begins c (pieces s))
join_first-begins k c s =
    let (l, ls, e) = pieces_nonempty s in rw e (ap (λ x. x ∷ ls) (append_assoc k (c ∷ []) l))

module _ {ℓ κ} {S : Type ℓ} {E : Type κ} (fn : S → List ℕ → S × Option E) where
  mutual
    unfolding skip_newlines take_line

    skip_newlines-call_all :
        (s : List ℕ) (r : S × Option E)
        → skip_newlines fn s r ≡ call_all fn (kept_lines (pieces s)) r
    skip_newlines-call_all [] r = refl
    skip_newlines-call_all (c ∷ s) r = elim (Bool-cases (c == b'\n')) [
      | inl t ↦ rw t (skip_newlines-call_all s r ∙ ap (λ ls. call_all fn ls r) (kept_empty s))
      | inr t ↦ rw t (
          take_line-call_all c [] s r
          ∙ ap (λ ls. call_all fn (kept_lines ls) r) (begins-join_first c s))
    ]

    take_line-call_all :
        (d : ℕ) (k s : List ℕ) (r : S × Option E)
        → take_line fn (d ∷ k) s r ≡ call_all fn (kept_lines (join_first (d ∷ k) (pieces s))) r
    take_line-call_all d k [] r = rw (append-nil k) refl
    take_line-call_all d k (c ∷ s) r = elim (Bool-cases (c == b'\n')) [
      | inl t ↦ rw t (
          skip_newlines-call_all s (call fn (d ∷ k) r)
          ∙ ap (λ ls. call_all fn ls r) (kept_line d k s))
      | inr t ↦ rw t (
          take_line-call_all d (k ++ c ∷ []) s r
          ∙ ap (λ ls. call_all fn (kept_lines ls) r) (join_first-begins (d ∷ k) c s))
    ]

-- The pieces with a newline behind each empty one, and a nul behind the others.
abbrev pub separated : List (List ℕ) → List ℕ
separated [] = []
separated (l ∷ []) = l
separated ([] ∷ l ∷ ls) = b'\n' ∷ separated (l ∷ ls)
separated ((c ∷ k) ∷ l ∷ ls) = (c ∷ k) ++ 0 ∷ separated (l ∷ ls)

separated_empty : (s : List ℕ) → b'\n' ∷ separated (pieces s) ≡ separated ([] ∷ pieces s)
separated_empty s = let (l, ls, e) = pieces_nonempty s in rw e refl

separated_line :
    (d : ℕ) (k s : List ℕ)
    → (d ∷ k) ++ 0 ∷ separated (pieces s) ≡ separated ((d ∷ (k ++ [])) ∷ pieces s)
separated_line d k s = let (l, ls, e) = pieces_nonempty s in rw (append-nil k, e) refl

mutual
  unfolding skipped_bytes line_bytes

  skipped_bytes-separated : (s : List ℕ) → skipped_bytes s ≡ separated (pieces s)
  skipped_bytes-separated [] = refl
  skipped_bytes-separated (c ∷ s) = elim (Bool-cases (c == b'\n')) [
    | inl t ↦
        let here : c ≡ b'\n' = (==_iff c b'\n').0 t in
        rw t (
          ap (λ x. c ∷ x) (skipped_bytes-separated s)
          ∙ ap (λ x. x ∷ separated (pieces s)) here
          ∙ separated_empty s)
    | inr t ↦ rw t (line_bytes-separated c [] s ∙ ap separated (begins-join_first c s))
  ]

  line_bytes-separated :
      (d : ℕ) (k s : List ℕ) → (d ∷ k) ++ line_bytes s ≡ separated (join_first (d ∷ k) (pieces s))
  line_bytes-separated d k [] = refl
  line_bytes-separated d k (c ∷ s) = elim (Bool-cases (c == b'\n')) [
    | inl t ↦ rw t (ap (λ x. (d ∷ k) ++ 0 ∷ x) (skipped_bytes-separated s) ∙ separated_line d k s)
    | inr t ↦ rw t (
        ap (λ x. d ∷ x) (sym (append_assoc k (c ∷ []) (line_bytes s)))
        ∙ line_bytes-separated d (k ++ c ∷ []) s
        ∙ ap separated (join_first-begins (d ∷ k) c s))
  ]

-- The text of a write: its bytes up to the first nul, without a newline at the end of the data.
abbrev pub data_text : List ℕ → List ℕ
data_text p = c_string (chomp p)

chomped-suc :
    (c d n : ℕ) (p : List ℕ) → suc (chomped (d ∷ p) (suc n)) ≡ chomped (c ∷ d ∷ p) (suc (suc n))
unfolding chomped
chomped-suc c d n p =
    let e1 : suc (suc n) - 1 ≡ suc n = omega arith in
    let e2 : suc n - 1 ≡ n = omega arith in
    rw (e1, e2)
      (elim (Bool-cases (get_or (d ∷ p) n 0 == b'\n')) [
        | inl t ↦ rw t (ground arith)
        | inr t ↦ rw t (ground arith)
      ])

take-chomped : (p : List ℕ) → take (chomped p (length p)) p ≡ chomp p
unfolding chomped
take-chomped [] = refl
take-chomped (c ∷ []) = ground arith
take-chomped (c ∷ d ∷ p) =
    rw (← chomped-suc c d (length p) p) (ap (λ l. c ∷ l) (take-chomped (d ∷ p)))

take-nul_index : (p : List ℕ) (i : ℕ) → i ≤ length p → take (nul_index p i) p ≡ c_string (take i p)
unfolding nul_index c_string
take-nul_index p zero h = refl
take-nul_index [] (suc i) h = refl
take-nul_index (c ∷ p) (suc i) h = elim (Bool-cases (c == 0)) [
  | inl t ↦ rw t refl
  | inr t ↦ rw t (ap (λ l. c ∷ l) (take-nul_index p i (omega (arith, h))))
]

chomped_le : (p : List ℕ) (i : ℕ) → chomped p i ≤ i
unfolding chomped
chomped_le p i = ground arith

-- The data of a write, all of it in the allocation, becomes its text up to the first nul, without a
-- newline at the end, and a nul.
pub data2cstring_lem :
    (req : Req)
    → length req.ifcall.payload ≡ req.ifcall.count
    → ixp_srv_data2cstring req
      ≡ some (record req {
        ifcall = record req.ifcall { payload = data_text req.ifcall.payload ++ 0 ∷ [] };
      })
unfolding ixp_srv_data2cstring
data2cstring_lem req h =
    let p = req.ifcall.payload in
    let text : take (nul_index p (chomped p req.ifcall.count)) p ≡ data_text p =
      take-nul_index p (chomped p req.ifcall.count)
        (omega (arith, h, chomped_le p req.ifcall.count))
      ∙ rw⁻¹ h (ap c_string (take-chomped p)) in
    rw (le→leb req.ifcall.count (length p) (omega (arith, h)), text) refl
