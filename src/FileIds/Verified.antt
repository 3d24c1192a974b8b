-- ===== src/FileIds/Verified.antt =====
-- ixp_srv_verifyfile of lib/libixp/srv_util.c.
use libixp.Prelude.{
  ℕ, suc, zero, ◌<◌, refl, ◌∙◌, List, [], ◌∷◌, Option, none, some, Bool, true, false, arith, length,
  occurrences,
}
use libixp.FileIds.{Pool, FileId, file_at}
use libixp.FileIds.Counts.{Chain, Kept, IsPool}
use libixp.FileIds.Released.{freefile-IsPool}
use libixp.FileIds.Walking.{Lookup, same_file, verify_in, then_verify, ixp_srv_verifyfile}
use libixp.FileIds.Walks.{IsLookup, IsFound}

abbrev pub IsVerified : Pool → List ℕ → Option (Bool × Pool) → Type 0
IsVerified s owned none = ⊥
IsVerified s owned (some (b, t)) = IsPool t owned × Kept owned s t

same_file-IsPool :
    (f : FileId) (s : Pool) (owned : List ℕ) (r : Option ℕ × Pool)
    → IsFound s owned r
    → IsPool (same_file f r).1 owned × Kept owned s (same_file f r).1
unfolding same_file
same_file-IsPool f s owned (none, t) h = h
same_file-IsPool f s owned (some x, t) (h, z, n, k) =
    let (h', k') = freefile-IsPool t x owned h in (h', λ y lt. k' y lt ∙ k y lt)

module _ (lookup : Lookup) (law : IsLookup lookup) (owned : List ℕ) where
  then_verify-IsVerified :
      (s : Pool) (parent : ℕ) (f : FileId) (r : Option (Bool × Pool))
      → 0 < occurrences parent owned
      → IsVerified s owned r
      → IsVerified s owned (then_verify lookup parent f r)
  unfolding verify_in
  then_verify-IsVerified s parent f none lt h = h
  then_verify-IsVerified s parent f (some (false, t)) lt h = h
  then_verify-IsVerified s parent f (some (true, t)) lt (h, k) =
      let (h', k') = same_file-IsPool f t owned _ (law t owned parent f.name h lt) in
      (h', λ y g. k' y g ∙ k y g)

  -- If lookup keeps the counts right, and there are references to a file id and to each one behind it,
  -- in a list for which the fuel is enough, verifyfile returns, with no reference more or less, and no
  -- list changed.
  pub verifyfile-IsVerified :
      (ps : List ℕ) (fuel x : ℕ) (s : Pool)
      → IsPool s owned
      → Chain s (file_at s x).next ps
      → ((y : ℕ) → 0 < occurrences y ps → 0 < occurrences y owned)
      → length ps < fuel
      → IsVerified s owned (ixp_srv_verifyfile fuel lookup s x)
  unfolding ixp_srv_verifyfile
  verifyfile-IsVerified ps zero x s h c i le = absurd (omega (arith, le))
  verifyfile-IsVerified [] (suc fuel) x s h c i le = rw (IsVerified, c) (h, λ y g. refl)
  verifyfile-IsVerified (p ∷ ps) (suc fuel) x s h (e, c) i le =
      rw (IsVerified, e)
        (then_verify-IsVerified s p (file_at s x) _ (i p (ground arith)) (
          verifyfile-IsVerified ps fuel p s h c (λ y lt. i y (ground (arith, lt)))
            (omega (arith, le))))
