-- ===== src/Prelude/Lists.antt =====
-- Lists measured and indexed by native numbers, under the library's names.
use Prim.Native.Nat.{ℕ, zero, suc, ◌+◌, ◌-◌, ◌≤◌, ◌<◌, min}
use mathlib.Core.Path.{◌≡◌, refl, sym, ap, subst}
use mathlib.Core.Logic.{◌≢◌, ◌⊎◌, inl, inr}
use mathlib.Core.List.{List, [], ◌∷◌, ◌++◌}
use mathlib.Core.Option.{Option, none, some}
use native.Mathlib.Omega.{arith}

module _ {ℓ} {A : Type ℓ} where
  abbrev pub length : List A → ℕ
  length [] = 0
  length (x ∷ xs) = suc (length xs)

  abbrev pub get_elem? : List A → ℕ → Option A
  get_elem? [] i = none
  get_elem? (x ∷ xs) zero = some x
  get_elem? (x ∷ xs) (suc i) = get_elem? xs i

  -- A write out of bounds changes nothing.
  abbrev pub set : List A → ℕ → A → List A
  set [] i v = []
  set (x ∷ xs) zero v = v ∷ xs
  set (x ∷ xs) (suc i) v = x ∷ set xs i v

  abbrev pub get_or : List A → ℕ → A → A
  get_or [] i d = d
  get_or (x ∷ xs) zero d = x
  get_or (x ∷ xs) (suc i) d = get_or xs i d

  abbrev pub take : ℕ → List A → List A
  take zero xs = []
  take (suc n) [] = []
  take (suc n) (x ∷ xs) = x ∷ take n xs

  abbrev pub drop : ℕ → List A → List A
  drop zero xs = xs
  drop (suc n) [] = []
  drop (suc n) (x ∷ xs) = drop n xs

  abbrev pub replicate : ℕ → A → List A
  replicate zero a = []
  replicate (suc n) a = a ∷ replicate n a

  abbrev pub concat : List (List A) → List A
  concat [] = []
  concat (x ∷ xs) = x ++ concat xs

  abbrev pub All {κ} : (A → Type κ) → List A → Type κ
  All P [] = Unit {κ}
  All P (x ∷ xs) = P x × All P xs

module _ {ℓ} {A : Type ℓ} where
  pub length-append : (xs ys : List A) → length (xs ++ ys) ≡ length xs + length ys
  length-append [] ys = omega arith
  length-append (x ∷ xs) ys = omega (arith, length-append xs ys)

  pub length-set : (xs : List A) (i : ℕ) (v : A) → length (set xs i v) ≡ length xs
  length-set [] i v = refl
  length-set (x ∷ xs) zero v = refl
  length-set (x ∷ xs) (suc i) v = ap suc (length-set xs i v)

  pub take-append-drop : (n : ℕ) (xs : List A) → take n xs ++ drop n xs ≡ xs
  take-append-drop zero xs = refl
  take-append-drop (suc n) [] = refl
  take-append-drop (suc n) (x ∷ xs) = ap (λ l. x ∷ l) (take-append-drop n xs)

  pub length-take : (n : ℕ) (xs : List A) → length (take n xs) ≡ min n (length xs)
  length-take zero xs = omega arith
  length-take (suc n) [] = omega arith
  length-take (suc n) (x ∷ xs) = omega (arith, length-take n xs)

  pub length-drop : (n : ℕ) (xs : List A) → length (drop n xs) ≡ length xs - n
  length-drop zero xs = omega arith
  length-drop (suc n) [] = omega arith
  length-drop (suc n) (x ∷ xs) = omega (arith, length-drop n xs)

  pub length-replicate : (n : ℕ) (a : A) → length (replicate n a) ≡ n
  length-replicate zero a = refl
  length-replicate (suc n) a = ap suc (length-replicate n a)

  pub take_all : (n : ℕ) (xs : List A) → length xs ≤ n → take n xs ≡ xs
  take_all zero [] h = refl
  take_all zero (x ∷ xs) h = absurd (omega arith)
  take_all (suc n) [] h = refl
  take_all (suc n) (x ∷ xs) h = ap (λ l. x ∷ l) (take_all n xs (omega arith))

  pub take-append_length : (xs ys : List A) → take (length xs) (xs ++ ys) ≡ xs
  take-append_length [] ys = refl
  take-append_length (x ∷ xs) ys = ap (λ l. x ∷ l) (take-append_length xs ys)

  pub drop-append_length : (xs ys : List A) → drop (length xs) (xs ++ ys) ≡ ys
  drop-append_length [] ys = refl
  drop-append_length (x ∷ xs) ys = drop-append_length xs ys

  -- `n` is a variable with an equation, since a sum does not compute.
  pub drop-drop : (m n k : ℕ) (xs : List A) → k ≡ m + n → drop n (drop m xs) ≡ drop k xs
  drop-drop zero n k xs e = let e' : n ≡ k = omega arith in ap (λ j. drop j xs) e'
  drop-drop (suc m) zero zero [] e = refl
  drop-drop (suc m) zero (suc k) [] e = refl
  drop-drop (suc m) (suc n) zero [] e = refl
  drop-drop (suc m) (suc n) (suc k) [] e = refl
  drop-drop (suc m) n zero (x ∷ xs) e = absurd (omega arith)
  drop-drop (suc m) n (suc k) (x ∷ xs) e = drop-drop m n k xs (omega arith)

module _ {ℓ} {A : Type ℓ} where
  -- What stands behind position `p`, of a prefix that is known.
  pub drop-take :
      (p k : ℕ) (xs front back : List A)
      → take k xs ≡ front ++ back
      → length front ≡ p
      → drop p xs ≡ back ++ drop k xs
  drop-take zero k xs [] back e h = subst (λ l. xs ≡ l ++ drop k xs) e (sym (take-append-drop k xs))
  drop-take zero k xs (a ∷ front) back e h = absurd (omega arith)
  drop-take (suc p) k xs [] back e h = absurd (omega arith)
  drop-take (suc p) zero xs (a ∷ front) back e h = cc
  drop-take (suc p) (suc k) [] (a ∷ front) back e h = cc
  drop-take (suc p) (suc k) (x ∷ xs) (a ∷ front) back e h =
      drop-take p k xs front back (ap (drop 1) e) (omega arith)

module _ {ℓ} {A : Type ℓ} where
  -- A read after a write: the written element, or what was there.
  pub get_or-set :
      (xs : List A) (i j : ℕ) (v d : A)
      → ((i ≡ j) × (get_or (set xs i v) j d ≡ v)) ⊎ (get_or (set xs i v) j d ≡ get_or xs j d)
  get_or-set [] i j v d = inr refl
  get_or-set (x ∷ xs) zero zero v d = inl (refl, refl)
  get_or-set (x ∷ xs) zero (suc j) v d = inr refl
  get_or-set (x ∷ xs) (suc i) zero v d = inr refl
  get_or-set (x ∷ xs) (suc i) (suc j) v d = elim (get_or-set xs i j v d) [
    | inl (e, h) ↦ inl (ap suc e, h)
    | inr h ↦ inr h
  ]

  pub get_or-set_self :
      (xs : List A) (i : ℕ) (v d : A) → i < length xs → get_or (set xs i v) i d ≡ v
  get_or-set_self [] i v d h = absurd (omega arith)
  get_or-set_self (x ∷ xs) zero v d h = refl
  get_or-set_self (x ∷ xs) (suc i) v d h = get_or-set_self xs i v d (omega arith)

  pub get_or-set_ne :
      (xs : List A) (i j : ℕ) (v d : A) → i ≢ j → get_or (set xs i v) j d ≡ get_or xs j d
  get_or-set_ne xs i j v d h = elim (get_or-set xs i j v d) [
    | inl (e, _) ↦ absurd (h e)
    | inr e ↦ e
  ]

  pub get_or-replicate : (n i : ℕ) (a : A) → get_or (replicate n a) i a ≡ a
  get_or-replicate zero i a = refl
  get_or-replicate (suc n) zero a = refl
  get_or-replicate (suc n) (suc i) a = get_or-replicate n i a

take-nil {ℓ} : {A : Type ℓ} (r : ℕ) → take {A = A} r [] ≡ []
take-nil zero = refl
take-nil (suc r) = refl

-- `k` is where the second stretch ends.
pub take-take-drop {ℓ} :
    {A : Type ℓ} (p r k : ℕ) (xs : List A) → k ≡ p + r → take p xs ++ take r (drop p xs) ≡ take k xs
take-take-drop zero r k xs e = let same : r ≡ k = omega (arith, e) in ap (λ n. take n xs) same
take-take-drop (suc p) r zero xs e = absurd (omega (arith, e))
take-take-drop (suc p) r (suc k) [] e = take-nil r
take-take-drop (suc p) r (suc k) (x ∷ xs) e =
    ap (λ l. x ∷ l) (take-take-drop p r k xs (omega (arith, e)))
