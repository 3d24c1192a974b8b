-- ===== src/Directory/Tests.antt =====
-- Tests of ixp_srv_readdir (lib/libixp/srv_util.c), and examples for its theorems.
use libixp.Prelude.{ℕ, ◌≡◌, refl, [], ◌∷◌, Option, none, some, arith, inl}
use libixp.Samples.{zeroed, zero_req, zero_stat}
use libixp.Wire.Types.{Stat}
use libixp.Wire.Format.{le_bytes, IsStat}
use libixp.Request.{Req}
use libixp.Wire.Msg.{ixp_message}
use libixp.Wire.Convert.{ixp_sizeof_stat, strlen}
use libixp.FileIds.Walking.{free_linked}
use libixp.FileIds.{linked, Pool, FileId, file_at, store_file, ixp_srv_getfile}
use libixp.FileIds.Counts.{IsPool, Holding-store_file, owned-file}
use libixp.FileIds.Released.{not_free}
use libixp.FileIds.Got.{getfile-IsGot}
use libixp.Directory.{stats_of, read_list, ixp_srv_readdir}
use libixp.Directory.Listing.{IsListed, readdir-IsListed}

abbrev no_files : Pool
no_files = record { files = []; free_fileid = none }

no_files-IsPool : IsPool no_files []
unfolding file_at
no_files-IsPool = record {
  free = [];
  chained = refl;
  counts = λ x. refl;
  used = λ x lt. refl;
  unused = λ x lt e. absurd (omega (arith, lt));
  range = λ x le. refl;
  bounded = λ x. omega arith;
}

abbrev got : Option (ℕ × Pool) → Pool
got none = no_files
got (some (x, s)) = s

-- Two file ids, 14 and 13.
abbrev two_files : Pool
two_files = got (ixp_srv_getfile (got (ixp_srv_getfile no_files)))

-- "." with one entry behind it.
abbrev linked_files : Pool
linked_files = store_file 13 (record (file_at two_files 13) { next = some 14 }) two_files

two_files-IsPool : IsPool two_files (13 ∷ 14 ∷ [])
unfolding ixp_srv_getfile
two_files-IsPool =
    let one = getfile-IsGot no_files [] no_files-IsPool in
    (getfile-IsGot (got (ixp_srv_getfile no_files)) (14 ∷ []) one.0).0

linked_files-IsPool : IsPool linked_files (13 ∷ 14 ∷ [])
unfolding ixp_srv_getfile
linked_files-IsPool =
    let h = two_files-IsPool in
    let owned = 13 ∷ 14 ∷ [] in
    Holding-store_file two_files owned [] h 13 _ owned []
      (owned-file two_files owned [] h 13 (omega arith))
      (not_free two_files owned h 13 (omega arith)) refl (omega arith) (λ y ne. (refl, refl))
      (inl (omega arith, refl))

abbrev list : Pool → ℕ → Option ℕ × Pool
list s dir = (some 13, linked_files)

abbrev dostat : FileId → Stat
dostat f = record zero_stat { name = b'f' ∷ []; length = 5 }

abbrev read_req : ℕ → ℕ → Req
read_req offset count = record zero_req {
  ifcall = record zeroed { offset = offset; count = count };
}

dostat-IsStat : (f : FileId) → IsStat (dostat f)
unfolding le_bytes
dostat-IsStat f = omega arith

readdir-IsListed_example :
    IsListed
      (stats_of dostat linked_files (14 ∷ []))
      (read_req 0 60)
      100
      []
      (ixp_srv_readdir 2 list dostat 7 100 (read_req 0 60) no_files)
unfolding ixp_srv_getfile store_file le_bytes
readdir-IsListed_example =
    readdir-IsListed 2 list dostat 7 100 (read_req 0 60) no_files linked_files 13 (14 ∷ []) [] refl
      (refl, refl) linked_files-IsPool (omega arith) (dostat-IsStat (file_at linked_files 14), tt)
      (omega arith) (omega arith)

abbrev count_of : Option (Req × Pool) → ℕ
count_of none = 0
count_of (some (r, s)) = r.ofcall.count

-- No part of an entry is answered.
read_too_short : count_of (ixp_srv_readdir 2 list dostat 7 100 (read_req 0 49) no_files) ≡ 0
unfolding ixp_srv_readdir ixp_srv_getfile linked free_linked ixp_sizeof_stat ixp_message read_list
    strlen
read_too_short = refl
