-- ===== src/FileIds.antt =====
-- lib/libixp/srv_util.c: the pool of file ids and their reference counts.
pub mod Walking
pub mod Counts
pub mod Got
pub mod Released
pub mod Cloned
pub mod Walks
pub mod Ends
pub mod Verified
mod Tests
use libixp.Prelude.{
  ℕ, zero, suc, ◌+◌, ◌-◌, ◌%◌, ◌^◌, Bool, true, false, List, [], ◌∷◌, ◌++◌, Option, none, some,
  get_or, set, length, replicate, ◌==◌, if◌then◌else◌,
}

-- IxpFileId with the members of its `tab`; `p` is an address that only the service follows, and a
-- `name` that is nil or freed is `none`.
pub record FileId : Type 0 where
  pub next : Option ℕ
  pub p : ℕ
  pub pending : Bool
  pub id : ℕ
  pub index : ℕ
  pub name : Option (List ℕ)
  pub qtype : ℕ
  pub type : ℕ
  pub perm : ℕ
  pub flags : ℕ
  pub nref : ℕ
  pub volatil : Bool

-- The file ids of all chunks, a pointer being an index, and the head of the free list.
pub record Pool : Type 0 where
  pub files : List FileId
  pub free_fileid : Option ℕ

abbrev pub zero_file : FileId
zero_file = record {
  next = none;
  p = 0;
  pending = false;
  id = 0;
  index = 0;
  name = none;
  qtype = 0;
  type = 0;
  perm = 0;
  flags = 0;
  nref = 0;
  volatil = false;
}

unfoldable pub file_at : Pool → ℕ → FileId
file_at s x = get_or s.files x zero_file

unfoldable pub store_file : ℕ → FileId → Pool → Pool
store_file x f s = record s { files = set s.files x f }

-- `fileid->next = free_fileid; free_fileid = fileid`
unfoldable pub push_free : ℕ → Pool → Pool
unfolding store_file file_at
push_free x s =
    let s' = store_file x (record (file_at s x) { next = s.free_fileid }) s in
    record s' { free_fileid = some x }

-- The loop over a new chunk, from the file id at `x` on.
unfoldable pub push_chunk : ℕ → ℕ → Pool → Pool
unfolding push_free
push_chunk zero x s = s
push_chunk (suc n) x s = push_chunk n (suc x) (push_free x s)

-- POOL_CHUNK is 15.
unfoldable pub add_chunk : Pool → Pool
unfolding push_chunk
add_chunk s =
    push_chunk 15 (length s.files) (record s { files = s.files ++ replicate 15 zero_file })

-- From `file = free_fileid` on; nil cannot be met there.
unfoldable pub take_free : Pool → Option ℕ → Option (ℕ × Pool)
unfolding store_file file_at
take_free s none = none
take_free s (some x) =
    let f = record (file_at s x) {
      p = 0;
      volatil = false;
      nref = 1;
      next = none;
      pending = false;
    } in
    let s' = store_file x f s in some (x, record s' { free_fileid = (file_at s x).next })

abbrev pub with_chunk : Pool → Option ℕ → Pool
with_chunk s none = add_chunk s
with_chunk s (some x) = s

abbrev pub take_from : Pool → Option (ℕ × Pool)
take_from s = take_free s s.free_fileid

unfoldable pub ixp_srv_getfile : Pool → Option (ℕ × Pool)
unfolding add_chunk take_free
ixp_srv_getfile s = take_from (with_chunk s s.free_fileid)

unfoldable pub ixp_srv_freefilepool : Pool → Pool
ixp_srv_freefilepool s = record { files = []; free_fileid = none }

-- `nref` is a `uint`.
unfoldable pub ixp_srv_freefile : ℕ → Pool → Pool
unfolding store_file file_at push_free
ixp_srv_freefile x s =
    let n = ((file_at s x).nref + 2 ^ 32 - 1) % 2 ^ 32 in
    let f = file_at s x in
    if n == 0
    then push_free x (store_file x (record f { nref = n; name = none }) s)
    else store_file x (record f { nref = n }) s

abbrev pub linked_on : ℕ → Option (List ℕ) → Option (List ℕ)
linked_on x none = none
linked_on x (some xs) = some (x ∷ xs)

-- The file ids that a pointer and the `next` members lead through; `none` is a list of more than `fuel`.
-- The loops over such a list read a `next` before they change the file id, and change no other.
unfoldable pub linked : ℕ → Pool → Option ℕ → Option (List ℕ)
unfolding file_at
linked fuel s none = some []
linked zero s (some x) = none
linked (suc fuel) s (some x) = linked_on x (linked fuel s (file_at s x).next)

-- `fileid->nref++; assert(fileid->nref)`; `none` is a failed assertion.
unfoldable pub ref_all : List ℕ → Pool → Option Pool
unfolding store_file file_at
ref_all [] s = some s
ref_all (x ∷ xs) s =
    let n = ((file_at s x).nref + 1) % 2 ^ 32 in
    let rest = ref_all xs (store_file x (record (file_at s x) { nref = n }) s) in
    if n == 0 then none else rest

unfoldable pub free_all : List ℕ → Pool → Pool
unfolding ixp_srv_freefile
free_all [] s = s
free_all (x ∷ xs) s = free_all xs (ixp_srv_freefile x s)

abbrev pub with_file : ℕ → Option Pool → Option (ℕ × Pool)
with_file r none = none
with_file r (some s) = some (r, s)

abbrev pub ref_list : Option (List ℕ) → Pool → Option Pool
ref_list none s = none
ref_list (some xs) s = ref_all xs s

-- ixp_srv_clonefiles from the memcpy on; the copy of a name that is nil or freed is a fault.
unfoldable pub clone_named : ℕ → ℕ → ℕ → Pool → Option (List ℕ) → Option (ℕ × Pool)
unfolding store_file file_at ref_all linked
clone_named fuel x r s none = none
clone_named fuel x r s (some name) =
    let s' = store_file r (record (file_at s x) { nref = 1; name = some name }) s in
    with_file r (ref_list (linked fuel s' (file_at s x).next) s')

-- By what getfile gives.
unfoldable pub clone_to : ℕ → ℕ → Option (ℕ × Pool) → Option (ℕ × Pool)
unfolding clone_named file_at
clone_to fuel x none = none
clone_to fuel x (some (r, s)) = clone_named fuel x r s (file_at s x).name

unfoldable pub ixp_srv_clonefiles : ℕ → ℕ → Pool → Option (ℕ × Pool)
unfolding clone_to ixp_srv_getfile
ixp_srv_clonefiles fuel x s = clone_to fuel x (ixp_srv_getfile s)
