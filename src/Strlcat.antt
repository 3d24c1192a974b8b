-- ===== src/Strlcat.antt =====
-- lib/libixp/util.c: ixp_strlcat.
pub mod Result
mod Tests
use libixp.Prelude.{
  ℕ, suc, ◌+◌, ◌-◌, ◌^◌, Bool, true, false, List, [], ◌∷◌, Option, none, some, ltb, ◌==◌,
  if◌then◌else◌,
}
use libixp.Wire.Convert.{strlen}

-- The counter `n`, which may go below 0, is `size - used`. `none` is an access past the buffer. What
-- is written from `d` on, and the result.
abbrev pub written : ℕ → Option (ℕ × List ℕ) → Option (ℕ × List ℕ)
written c none = none
written c (some (r, bs)) = some (r, c ∷ bs)

-- `if(len > 0) *d = 0`, and the result
unfoldable pub terminate : Bool → ℕ → List ℕ → Option (ℕ × List ℕ)
terminate false used buf = some (used - 1, buf)
terminate true used [] = none
terminate true used (b ∷ bs) = some (used - 1, 0 ∷ bs)

-- The loop that copies, the one that counts the rest, and the end; `room` is `len > 0`.
unfoldable pub append_at : Bool → ℕ → ℕ → List ℕ → List ℕ → Option (ℕ × List ℕ)
unfolding terminate
append_at room size used buf [] = terminate room used buf
append_at room size used [] (c ∷ s) =
    if c == 0
    then terminate room used []
    else if ltb used size
    then none
    else terminate room (used + 1 + strlen (c ∷ s)) []
append_at room size used (b ∷ bs) (c ∷ s) =
    let rest = append_at room size (used + 1) bs s in
    if c == 0
    then terminate room used (b ∷ bs)
    else if ltb used size
    then written c rest
    else terminate room (used + 1 + strlen (c ∷ s)) (b ∷ bs)

-- The loop that looks for the end of `dst`, and what follows it.
unfoldable pub append_from : ℕ → ℕ → List ℕ → List ℕ → Option (ℕ × List ℕ)
append_from size used [] src =
    if ltb used size then none else append_at false size (used + 1) [] src
append_from size used (b ∷ bs) src =
    let rest = append_from size (used + 1) bs src in
    if ltb used size
    then if b == 0
      then append_at (ltb (used + 1) size) size (used + 1) (b ∷ bs) src
      else written b rest
    else append_at false size (used + 1) (b ∷ bs) src

-- `n = size`: a size of 2 ^ 31 or more is an `int` below 0, with which the loops stop at once, as with 0.
abbrev pub room_of : ℕ → ℕ
room_of size = if ltb size (2 ^ 31) then size else 0

unfoldable pub ixp_strlcat : List ℕ → List ℕ → ℕ → Option (ℕ × List ℕ)
ixp_strlcat dst src size = append_from (room_of size) 0 dst src
