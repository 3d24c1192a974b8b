-- ===== src/FileIds/Walking.antt =====
-- lib/libixp/srv_util.c: ixp_srv_verifyfile and ixp_srv_walkandclone. The service's lookup is a
-- parameter: the file id or nil, and the pool, from a directory's file id and a name, or nil.
use libixp.Prelude.{
  ℕ, zero, suc, ◌*◌, ◌%◌, ◌^◌, bit_or, Bool, true, false, not, ◌||◌, List, [], ◌∷◌, Option, none,
  some, get_or, set, take, ◌==◌, if◌then◌else◌,
}
use libixp.Request.{Req, Error, other, no_qid, same_string}
use libixp.FileIds.{
  Pool, FileId, file_at, store_file, ixp_srv_freefile, ixp_srv_clonefiles, linked, free_all,
}

abbrev pub Lookup : Type 0
Lookup = Pool → ℕ → Option (List ℕ) → Option ℕ × Pool

-- "..", "." and "file not found"
abbrev pub dot_dot : List ℕ
dot_dot = b'.' ∷ b'.' ∷ []

abbrev pub dot : List ℕ
dot = b'.' ∷ []

abbrev pub not_found : List ℕ
not_found =
    b'f' ∷ b'i' ∷ b'l' ∷ b'e' ∷ b' ' ∷ b'n' ∷ b'o' ∷ b't' ∷ b' ' ∷ b'f' ∷ b'o' ∷ b'u' ∷ b'n' ∷ b'd'
    ∷ []

-- What ixp_srv_verifyfile does with the file that lookup finds under the name.
unfoldable pub same_file : FileId → Option ℕ × Pool → Bool × Pool
unfolding file_at ixp_srv_freefile
same_file f (none, s) = (false, s)
same_file f (some t, s) =
    (not (file_at s t).volatil || ((file_at s t).p == f.p), ixp_srv_freefile t s)

-- The test of the parent, and the lookup if it holds.
unfoldable pub verify_in : Lookup → ℕ → FileId → Bool × Pool → Bool × Pool
unfolding same_file
verify_in lookup parent f (false, s) = (false, s)
verify_in lookup parent f (true, s) = same_file f (lookup s parent f.name)

abbrev pub then_verify : Lookup → ℕ → FileId → Option (Bool × Pool) → Option (Bool × Pool)
then_verify lookup parent f none = none
then_verify lookup parent f (some r) = some (verify_in lookup parent f r)

-- On fuel, the depth of the file.
unfoldable pub ixp_srv_verifyfile : ℕ → Lookup → Pool → ℕ → Option (Bool × Pool)
ixp_srv_verifyfile zero lookup s x = none
ixp_srv_verifyfile (suc fuel) lookup s x = elim (file_at s x).next [
  | none ↦ some (true, s)
  | some parent ↦ then_verify lookup parent (file_at s x) (ixp_srv_verifyfile fuel lookup s parent)
]

-- QID(t, i); `t` and `i` are `uint`.
unfoldable pub qid_path : ℕ → ℕ → ℕ
qid_path t i = bit_or (t % 2 ^ 8 * 2 ^ 32) (i % 2 ^ 32)

-- The stores to wqid[i]; the version stays.
unfoldable pub store_qid : ℕ → FileId → Req → Req
unfolding qid_path
store_qid i f r = record r {
  ofcall = record r.ofcall {
    wqid =
        set r.ofcall.wqid i
          (record (get_or r.ofcall.wqid i no_qid) { type = f.qtype; path = qid_path f.type f.id });
  };
}

-- A step up.
unfoldable pub up_to : ℕ → Pool → Option ℕ → ℕ × Pool
unfolding ixp_srv_freefile
up_to file s none = (file, s)
up_to file s (some parent) = (parent, ixp_srv_freefile file s)

-- `assert(!tfile->next)`
abbrev pub unless_next : Option ℕ → Option (Option ℕ × Pool) → Option (Option ℕ × Pool)
unless_next none r = r
unless_next (some u) r = none

-- A step down to the file that lookup finds, or nil; the outer `none` is a failed assertion.
unfoldable pub down_to : List ℕ → ℕ → Option ℕ × Pool → Option (Option ℕ × Pool)
unfolding file_at store_file
down_to name file (none, s) = some (none, s)
down_to name file (some t, s) = unless_next (file_at s t).next (
    if same_string name dot
    then some (some file, s)
    else some (some t, store_file t (record (file_at s t) { next = some file }) s))

unfoldable pub walk_step : Lookup → List ℕ → ℕ → Pool → Option (Option ℕ × Pool)
unfolding up_to down_to file_at
walk_step lookup name file s =
    if same_string name dot_dot
    then some (some (up_to file s (file_at s file).next).0, (up_to file s (file_at s file).next).1)
    else down_to name file (lookup s file (some name))

-- The file where the loop ends, whether it went through all names, the request and the pool.
pub record WalkState : Type 0 where
  pub file : ℕ
  pub whole : Bool
  pub req : Req
  pub pool : Pool

-- The loop of ixp_srv_walkandclone, from the name `i` on.
unfoldable pub walk_loop : Lookup → ℕ → List (List ℕ) → ℕ → Req → Pool → Option WalkState
walk_loop lookup i [] file r s = some (record { file = file; whole = true; req = r; pool = s })
walk_loop lookup i (name ∷ names) file r s = elim (walk_step lookup name file s) [
  | none ↦ none
  | some (none, s') ↦ some (record { file = file; whole = false; req = r; pool = s' })
  | some (some f, s') ↦ walk_loop lookup (suc i) names f (store_qid i (file_at s' f) r) s'
]

-- The answer, the file of the request's fid, that of its new fid if one is stored, and the pool.
pub record Cloned : Type 0 where
  pub error : Option Error
  pub req : Req
  pub fid_file : ℕ
  pub newfid_file : Option ℕ
  pub pool : Pool

unfoldable pub free_linked : ℕ → ℕ → Pool → Option Pool
unfolding linked free_all
free_linked fuel x s = elim (linked fuel s (some x)) [
  | none ↦ none
  | some xs ↦ some (free_all xs s)
]

abbrev pub cloned : Option Error → Req → ℕ → Option ℕ → Option Pool → Option Cloned
cloned e r f n none = none
cloned e r f n (some s) =
    some (record { error = e; req = r; fid_file = f; newfid_file = n; pool = s })

abbrev pub with_nwqid : Req → Req
with_nwqid r = record r { ofcall = record r.ofcall { nwqid = r.ifcall.nwname } }

-- What follows the loop; `old` is the file of the request's fid.
unfoldable pub end_walk : ℕ → ℕ → WalkState → Option Cloned
unfolding free_linked
end_walk fuel old w =
    if w.whole
    then (if w.req.ifcall.fid == w.req.ifcall.newfid
        then cloned none (with_nwqid w.req) w.file none (free_linked fuel old w.pool)
        else cloned none (with_nwqid w.req) old (some w.file) (some w.pool))
    else cloned (some (other not_found)) w.req old none (free_linked fuel w.file w.pool)

abbrev pub end_walked : ℕ → ℕ → Option WalkState → Option Cloned
end_walked fuel old none = none
end_walked fuel old (some w) = end_walk fuel old w

abbrev pub walk_from : Lookup → Req → Option (ℕ × Pool) → Option WalkState
walk_from lookup r none = none
walk_from lookup r (some (file, s)) =
    walk_loop lookup 0 (take r.ifcall.nwname r.ifcall.wname) file r s

-- `old` is the file of the request's fid; the Fcall has nwname names.
unfoldable pub ixp_srv_walkandclone : ℕ → Lookup → ℕ → Req → Pool → Option Cloned
unfolding end_walk walk_loop ixp_srv_clonefiles
ixp_srv_walkandclone fuel lookup old r s =
    end_walked fuel old (walk_from lookup r (ixp_srv_clonefiles fuel old s))
