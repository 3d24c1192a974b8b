-- ===== src/Directory/Entries.antt =====
-- What a read of a directory should give: whole entries, by themselves and independent of the code.
use libixp.Prelude.{
  ℕ, ◌+◌, ◌-◌, ◌≤◌, List, [], ◌∷◌, concat, length, length-append, leb, if◌then◌else◌, Bool-cases,
  leb→le, inl, inr, arith,
}

-- The entries that begin at `asked` or behind it; the first one begins at `offset`.
abbrev pub from : ℕ → ℕ → List (List ℕ) → List (List ℕ)
from asked offset [] = []
from asked offset (e ∷ es) =
    let rest = from asked (offset + length e) es in if leb asked offset then e ∷ es else rest

-- The first ones that are at most `size` together.
abbrev pub fit : ℕ → List (List ℕ) → List (List ℕ)
fit size [] = []
fit size (e ∷ es) =
    let rest = fit (size - length e) es in if leb (length e) size then e ∷ rest else []

pub length-fit : (size : ℕ) (es : List (List ℕ)) → length (concat (fit size es)) ≤ size
length-fit size [] = omega arith
length-fit size (e ∷ es) = elim (Bool-cases (leb (length e) size)) [
  | inl t ↦ rw t (
      omega (
        arith,
        length-append e (concat (fit (size - length e) es)),
        length-fit (size - length e) es,
        leb→le (length e) size t,
      ))
  | inr t ↦ rw t (omega arith)
]
