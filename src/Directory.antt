-- ===== src/Directory.antt =====
-- lib/libixp/srv_util.c: ixp_srv_readdir. The service's lookup of a directory's list and its dostat are
-- parameters.
pub mod Entries
pub mod Listing
mod Tests
use libixp.Prelude.{
  ℕ, zero, suc, ◌+◌, ◌-◌, ◌%◌, ◌^◌, List, [], ◌∷◌, map, Option, none, some, replicate, leb, ltb,
  if◌then◌else◌,
}
use libixp.Wire.Types.{Stat, Fcall}
use libixp.Wire.Msg.{Msg, Mode, msg_pack, ixp_message}
use libixp.Wire.Convert.{ixp_sizeof_stat, ixp_pstat}
use libixp.Request.{Req}
use libixp.FileIds.{Pool, FileId, file_at, linked}
use libixp.FileIds.Walking.{free_linked}

-- The rest of the loop after an entry is packed.
abbrev pub after_stat : Option (Stat × Msg) → (Msg → Option Msg) → Option Msg
after_stat none k = none
after_stat (some (st, m)) k = k m

-- The loop over the entries after ".", with the offset of the next one and the size that is left.
unfoldable pub pack_entries : List Stat → ℕ → ℕ → ℕ → Msg → Option Msg
pack_entries [] asked offset size m = some m
pack_entries (st ∷ sts) asked offset size m =
    let n = ixp_sizeof_stat st in
    let rest = pack_entries sts asked ((offset + n) % 2 ^ 64) in
    if leb asked offset
    then (if ltb size n then some m else after_stat (ixp_pstat st m) (rest (size - n)))
    else rest size m

-- The smaller of the request's count and the fid's iounit.
abbrev pub size_of : ℕ → ℕ → ℕ
size_of count iounit = if ltb iounit count then iounit else count

-- The answer, and the pool without the references to the list.
abbrev pub answer_dir : Req → Option Msg → Option Pool → Option (Req × Pool)
answer_dir r none s = none
answer_dir r (some m) none = none
answer_dir r (some m) (some s) =
    some (record r { ofcall = record r.ofcall { count = m.pos; payload = m.buf } }, s)

abbrev pub stats_of : (FileId → Stat) → Pool → List ℕ → List Stat
stats_of dostat s xs = map (λ x. dostat (file_at s x)) xs

unfoldable pub read_list :
    (FileId → Stat) → Req → ℕ → ℕ → Pool → ℕ → Option (List ℕ) → Option (Req × Pool)
unfolding pack_entries
read_list dostat r size fuel s file none = none
read_list dostat r size fuel s file (some xs) =
    answer_dir r
      (pack_entries (stats_of dostat s xs) r.ifcall.offset 0 size
        (ixp_message (replicate size 0) size msg_pack))
      (free_linked fuel file s)

-- What lookup gives; nil is followed, which is a fault.
abbrev pub read_found : (FileId → Stat) → Req → ℕ → ℕ → Option ℕ × Pool → Option (Req × Pool)
read_found dostat r size fuel (none, s) = none
read_found dostat r size fuel (some file, s) =
    read_list dostat r size fuel s file (linked fuel s (file_at s file).next)

-- `list` is the lookup with a nil name, `dir` the file of the request's fid and `iounit` the fid's.
unfoldable pub ixp_srv_readdir :
    ℕ → (Pool → ℕ → Option ℕ × Pool) → (FileId → Stat) → ℕ → ℕ → Req → Pool → Option (Req × Pool)
ixp_srv_readdir fuel list dostat dir iounit r s =
    read_found dostat r (size_of r.ifcall.count iounit) fuel (list s dir)
