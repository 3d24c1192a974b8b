-- ===== src/Strlcat/Tests.antt =====
-- "ab" and "cde" in buffers with room for both, and for five bytes only.
use libixp.Prelude.{◌+◌, ◌≡◌, refl, [], ◌∷◌, ◌++◌, some, ltb, if◌then◌else◌, arith}
use libixp.Wire.Convert.{strlen}
use libixp.Strlcat.{terminate, append_at, append_from, ixp_strlcat}
use libixp.Strlcat.Result.{over, strlcat_lem}

fits :
    ixp_strlcat (97 ∷ 98 ∷ 0 ∷ 1 ∷ 1 ∷ 1 ∷ 1 ∷ []) (99 ∷ 100 ∷ 101 ∷ []) 7
    ≡ some (5, 97 ∷ 98 ∷ 99 ∷ 100 ∷ 101 ∷ 0 ∷ 1 ∷ [])
unfolding ixp_strlcat append_from append_at terminate
fits = refl

-- The result is 6, where the two strings have 5 bytes.
cut_off :
    ixp_strlcat (97 ∷ 98 ∷ 0 ∷ 1 ∷ 1 ∷ []) (99 ∷ 100 ∷ 101 ∷ []) 5
    ≡ some (6, 97 ∷ 98 ∷ 99 ∷ 100 ∷ 0 ∷ [])
unfolding ixp_strlcat append_from append_at terminate strlen
cut_off = refl

strlcat_lem_example :
    ixp_strlcat ((97 ∷ 98 ∷ []) ++ 0 ∷ 1 ∷ 1 ∷ []) (99 ∷ 100 ∷ 101 ∷ []) (2 + 1 + 2)
    ≡ some (
      2 + 3 + (if ltb 2 3 then 1 else 0),
      (97 ∷ 98 ∷ []) ++ over 2 (99 ∷ 100 ∷ 101 ∷ []) (1 ∷ 1 ∷ []),
    )
strlcat_lem_example =
    strlcat_lem (97 ∷ 98 ∷ []) (99 ∷ 100 ∷ 101 ∷ []) (1 ∷ 1 ∷ []) 2
      (ground arith, (ground arith, tt)) (ground arith, (ground arith, (ground arith, tt)))
      (omega arith) (omega arith) (omega arith)

-- With a size that is no `int`, nothing is appended.
too_large : ixp_strlcat (97 ∷ 0 ∷ 1 ∷ []) (98 ∷ []) 4294967295 ≡ some (2, 97 ∷ 0 ∷ 1 ∷ [])
unfolding ixp_strlcat append_from append_at terminate strlen
too_large = refl
