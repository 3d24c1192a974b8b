-- ===== src/FileIds/Ends.antt =====
-- ixp_srv_walkandclone of lib/libixp/srv_util.c: the references when it answers.
use libixp.Prelude.{
  ℕ, ◌<◌, ◌≡◌, refl, List, ◌∷◌, ◌++◌, Option, none, some, true, false, arith, length, ◌==◌, ◌⊎◌,
}
use libixp.Request.{Req, other}
use libixp.FileIds.{Pool, file_at, free_all}
use libixp.FileIds.Counts.{Chain, Kept, IsPool}
use libixp.FileIds.Released.{free_all-IsPool, linked-Chain}
use libixp.FileIds.Walking.{Cloned, not_found, free_linked}

-- How a walk ends, with the file `old` of the request's fid and its list `parents`; `others` are the
-- other references. It fails and all is as before; or the fid has the new file and list in place of
-- the old ones; or the new fid has them, and the fid keeps its own.
abbrev pub IsEnd : Req → Pool → ℕ → List ℕ → List ℕ → Option Cloned → Type 0
IsEnd r s old parents others none = ⊥
IsEnd r s old parents others (some c) =
    ((c.error ≡ some (other not_found))
      × (c.fid_file ≡ old)
      × (c.newfid_file ≡ none)
      × IsPool c.pool (old ∷ parents ++ others)
      × Kept (old ∷ parents ++ others) s c.pool)
    ⊎ ((c.error ≡ none)
        × ((r.ifcall.fid == r.ifcall.newfid) ≡ true)
        × (c.newfid_file ≡ none)
        × ((ps : List ℕ) × Chain c.pool (file_at c.pool c.fid_file).next ps
            × IsPool c.pool (c.fid_file ∷ ps ++ others)))
    ⊎ ((c.error ≡ none)
        × ((r.ifcall.fid == r.ifcall.newfid) ≡ false)
        × (c.fid_file ≡ old)
        × ((f : ℕ) × (c.newfid_file ≡ some f)
            × ((ps : List ℕ) × Chain c.pool (file_at c.pool f).next ps
                × IsPool c.pool ((f ∷ ps) ++ (old ∷ parents ++ others))
                × Kept (old ∷ parents ++ others) s c.pool)))

pub free_linked-Chain :
    (fuel x : ℕ) (s : Pool) (xs owned : List ℕ)
    → Chain s (file_at s x).next xs
    → length xs < fuel
    → IsPool s ((x ∷ xs) ++ owned)
    → (t : Pool) × (free_linked fuel x s ≡ some t) × IsPool t owned × Kept owned s t
unfolding free_linked
free_linked-Chain fuel x s xs owned c le h =
    let (k, kept) = free_all-IsPool (x ∷ xs) s owned h in
    (
      free_all (x ∷ xs) s,
      rw (free_linked, linked-Chain (x ∷ xs) s (some x) fuel (refl, c) (omega (arith, le))) refl,
      k,
      kept,
    )
