-- ===== src/Prelude/Splice.antt =====
-- Overwriting a stretch of a list in place, as memcpy does.
use Prim.Native.Nat.{ℕ, zero, suc, ◌+◌, ◌≤◌}
use mathlib.Core.Path.{◌≡◌, refl, ap}
use mathlib.Core.List.{List, [], ◌∷◌, ◌++◌}
use native.Mathlib.Omega.{arith}
use libixp.Prelude.Lists.{length, take, drop}

module _ {ℓ} {A : Type ℓ} where
  -- What would lie past the end of the list is dropped.
  abbrev pub overwrite : ℕ → List A → List A → List A
  overwrite p bs [] = []
  overwrite (suc p) bs (x ∷ xs) = x ∷ overwrite p bs xs
  overwrite zero [] (x ∷ xs) = x ∷ xs
  overwrite zero (b ∷ bs) (x ∷ xs) = b ∷ overwrite zero bs xs

module _ {ℓ} {A : Type ℓ} where
  pub length-overwrite : (p : ℕ) (bs xs : List A) → length (overwrite p bs xs) ≡ length xs
  length-overwrite p bs [] = refl
  length-overwrite (suc p) bs (x ∷ xs) = ap suc (length-overwrite p bs xs)
  length-overwrite zero [] (x ∷ xs) = refl
  length-overwrite zero (b ∷ bs) (x ∷ xs) = ap suc (length-overwrite zero bs xs)

  -- `k` is where the written stretch ends.
  pub take-overwrite :
      (p k : ℕ) (bs xs : List A)
      → k ≡ p + length bs
      → k ≤ length xs
      → take k (overwrite p bs xs) ≡ take p xs ++ bs
  take-overwrite zero zero [] [] e h = refl
  take-overwrite zero zero (b ∷ bs) [] e h = absurd (omega arith)
  take-overwrite (suc p) zero bs [] e h = absurd (omega arith)
  take-overwrite p (suc k) bs [] e h = absurd (omega arith)
  take-overwrite (suc p) zero bs (x ∷ xs) e h = absurd (omega arith)
  take-overwrite (suc p) (suc k) bs (x ∷ xs) e h =
      ap (λ l. x ∷ l) (take-overwrite p k bs xs (omega arith) (omega arith))
  take-overwrite zero zero [] (x ∷ xs) e h = refl
  take-overwrite zero (suc k) [] (x ∷ xs) e h = absurd (omega arith)
  take-overwrite zero zero (b ∷ bs) (x ∷ xs) e h = absurd (omega arith)
  take-overwrite zero (suc k) (b ∷ bs) (x ∷ xs) e h =
      ap (λ l. b ∷ l) (take-overwrite zero k bs xs (omega arith) (omega arith))

  -- A write at the front leaves what lies behind it.
  pub take-overwrite_front :
      (k : ℕ) (bs old new xs : List A)
      → length old ≡ length bs
      → length bs ≤ k
      → take k xs ≡ old ++ new
      → take k (overwrite zero bs xs) ≡ bs ++ new
  take-overwrite_front k [] [] new [] l h e = e
  take-overwrite_front k [] [] new (x ∷ xs) l h e = e
  take-overwrite_front k [] (o ∷ old) new xs l h e = absurd (omega arith)
  take-overwrite_front k (b ∷ bs) [] new xs l h e = absurd (omega arith)
  take-overwrite_front zero (b ∷ bs) (o ∷ old) new xs l h e = absurd (omega arith)
  take-overwrite_front (suc k) (b ∷ bs) (o ∷ old) new [] l h e = cc
  take-overwrite_front (suc k) (b ∷ bs) (o ∷ old) new (x ∷ xs) l h e =
      ap (λ l. b ∷ l)
        (take-overwrite_front k bs old new xs (omega arith) (omega arith) (ap (drop 1) e))
