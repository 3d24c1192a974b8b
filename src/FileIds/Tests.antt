-- ===== src/FileIds/Tests.antt =====
-- Tests of the file ids (lib/libixp/srv_util.c), and examples for their theorems.
use libixp.Prelude.{
  ℕ, ◌≡◌, refl, List, [], ◌∷◌, Option, none, some, arith, length, inl, if◌then◌else◌,
}
use libixp.Samples.{zeroed, zero_req}
use libixp.Request.{Req, same_string}
use libixp.FileIds.{FileId, Pool, file_at, store_file, ixp_srv_getfile, ixp_srv_clonefiles}
use libixp.FileIds.Counts.{IsPool, Holding-store_file}
use libixp.FileIds.Released.{not_free}
use libixp.FileIds.Got.{getfile-IsGot}
use libixp.FileIds.Cloned.{IsClone, clonefiles-IsClone}
use libixp.FileIds.Walking.{
  Lookup, Cloned, ixp_srv_walkandclone, walk_step, store_qid, dot, dot_dot,
}

abbrev empty : Pool
empty = record { files = []; free_fileid = none }

empty-IsPool : IsPool empty []
unfolding file_at
empty-IsPool = record {
  free = [];
  chained = refl;
  counts = λ x. refl;
  used = λ x lt. refl;
  unused = λ x lt e. absurd (omega (arith, lt));
  range = λ x le. refl;
  bounded = λ x. omega arith;
}

abbrev pool_of : Option (ℕ × Pool) → Pool
pool_of none = empty
pool_of (some (x, s)) = s

-- The pool after the first getfile, which gives the last file id of the chunk.
abbrev got : Pool
got = pool_of (ixp_srv_getfile empty)

got-IsPool : IsPool got (14 ∷ [])
unfolding ixp_srv_getfile
got-IsPool = (getfile-IsGot empty [] empty-IsPool).0

abbrev root : FileId
root = record (file_at got 14) { name = some (b'/' ∷ []) }

-- The same pool, and a name in that file id.
abbrev one : Pool
one = store_file 14 root got

one-IsPool : IsPool one (14 ∷ [])
unfolding ixp_srv_getfile file_at
one-IsPool =
    Holding-store_file got (14 ∷ []) [] got-IsPool 14 root (14 ∷ []) [] (omega arith)
      (not_free got (14 ∷ []) got-IsPool 14 (omega arith)) refl (omega arith) (λ y ne. (refl, refl))
      (inl (omega arith, refl))

abbrev found : Pool → Option (ℕ × Pool) → Option ℕ × Pool
found s none = (none, s)
found s (some (x, t)) = (some x, t)

abbrev name_a : List ℕ
name_a = b'a' ∷ []

-- There is a file "a" in every directory, and no other.
abbrev look : Lookup
look s f none = (none, s)
look s f (some name) = if same_string name name_a then found s (ixp_srv_getfile s) else (none, s)

abbrev walk_req : ℕ → List (List ℕ) → Req
walk_req newfid names = record zero_req {
  ifcall = record zeroed { fid = 1; newfid = newfid; nwname = length names; wname = names };
}

clonefiles-IsClone_example : IsClone one (14 ∷ []) [] (ixp_srv_clonefiles 0 14 one)
unfolding ixp_srv_getfile store_file file_at
clonefiles-IsClone_example =
    clonefiles-IsClone one 14 [] (14 ∷ []) 0 (b'/' ∷ []) one-IsPool (omega arith) refl
      (λ y lt. absurd (omega (arith, lt))) (λ y. ground arith) (omega arith) refl

-- The counts of the file ids 14, 13, 12 and 11 after a walk.
abbrev counts_of : Option Cloned → List ℕ
counts_of none = []
counts_of (some c) =
    (file_at c.pool 14).nref
    ∷ (file_at c.pool 13).nref
    ∷ (file_at c.pool 12).nref
    ∷ (file_at c.pool 11).nref
    ∷ []

-- Everything is found.
abbrev finds : Lookup
finds s f name = found s (ixp_srv_getfile s)

walk_up :
    counts_of (ixp_srv_walkandclone 9 look 14 (walk_req 2 (name_a ∷ dot_dot ∷ [])) one)
    ≡ 1 ∷ 1 ∷ 0 ∷ 0 ∷ []
unfolding ixp_srv_walkandclone ixp_srv_getfile same_string walk_step store_qid
walk_up = refl

walk_to_none :
    counts_of (ixp_srv_walkandclone 9 look 14 (walk_req 2 (name_a ∷ dot ∷ [])) one)
    ≡ 1 ∷ 0 ∷ 0 ∷ 0 ∷ []
unfolding ixp_srv_walkandclone ixp_srv_getfile same_string walk_step store_qid
walk_to_none = refl

-- The file id that is found for "." keeps its reference, and is in no list.
walk_to_dot :
    counts_of (ixp_srv_walkandclone 9 finds 14 (walk_req 1 (dot ∷ [])) one) ≡ 0 ∷ 1 ∷ 1 ∷ 0 ∷ []
unfolding ixp_srv_walkandclone ixp_srv_getfile same_string walk_step store_qid
walk_to_dot = refl
