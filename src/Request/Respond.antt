-- ===== src/Request/Respond.antt =====
-- ixp_respond of lib/libixp/request.c. A request is a pointer into `reqs`; `none` is an access to a
-- freed fid or request, a nil one, or a failed assertion.
use Prim.Native.Char.{code}
use Prim.Native.String.{String}
use libixp.Prelude.{
  ℕ, ◌+◌, ◌-◌, ◌%◌, ◌^◌, Bool, true, false, not, ◌&&◌, ◌||◌, List, [], ◌∷◌, Option, none, some,
  get_elem?, get_or, set, ◌==◌, ltb, if◌then◌else◌,
}
use libixp.Wire.Types.{
  Qid, FType, t_version, t_auth, t_attach, t_open, t_create, t_walk, t_write, t_remove, t_clunk,
  t_wstat, t_read, t_stat,
}
use libixp.Buffers.{erealloc}
use libixp.Request.{
  Fid, Req, Conn, Error, eduptag, enofile, eintr, other, edupfid, enofunc, eopen, enoread, enofid,
  enotag, enotdir, eisdir, walk_open, write_unopened, wstat_type, wstat_dev, wstat_qid, wstat_muid,
  wstat_dmdir, destroyfid,
}

abbrev codes : String → List ℕ
codes String.[] = []
codes (String.◌∷◌ c s) = code c ∷ codes s

abbrev pub text : Error → List ℕ
text eduptag = codes "tag in use"
text enofile = codes "file does not exist"
text eintr = codes "interrupted"
text (other s) = s
text edupfid = codes "fid in use"
text enofunc = codes "function not implemented"
text eopen = codes "fid is already open"
text enoread = codes "file not open for reading"
text enofid = codes "fid does not exist"
text enotag = codes "tag does not exist"
text enotdir = codes "not a directory"
text eisdir = codes "cannot perform operation on a directory"
text walk_open = codes "cannot walk from an open fid"
text write_unopened = codes "write on fid not opened for writing"
text wstat_type = codes "wstat of type"
text wstat_dev = codes "wstat of dev"
text wstat_qid = codes "wstat of qid"
text wstat_muid = codes "wstat of muid"
text wstat_dmdir = codes "wstat on DMDIR bit"

-- The request, the error and the connection between the parts of ixp_respond.
abbrev pub Stage : Type 0
Stage = Option (Req × Option Error × Conn)

abbrev pub stage : Req → Option Error → Option Conn → Stage
stage r e none = none
stage r e (some c) = some (r, e, c)

abbrev pub drop_result : Option (ℕ × Conn) → Option Conn
drop_result none = none
drop_result (some (n, c)) = some c

-- destroyfid(p9conn, f->fid), by what the pointer `f` points to.
unfoldable pub destroy_live : Conn → Option Fid → Option Conn
destroy_live c none = none
destroy_live c (some f) = drop_result (destroyfid c f.fid)

-- `if(f) destroyfid(p9conn, f->fid)`
unfoldable pub destroy_if : Option ℕ → Conn → Option Conn
unfolding destroy_live
destroy_if none c = some c
destroy_if (some p) c = destroy_live c (get_or c.fids p none)

-- Stores through a pointer to a fid.
unfoldable pub store_live : ℕ → (Fid → Fid) → Conn → Option Fid → Option Conn
store_live p g c none = none
store_live p g c (some f) = some (record c { fids = set c.fids p (some (g f)) })

unfoldable pub store_fid : Option ℕ → (Fid → Fid) → Conn → Option Conn
unfolding store_live
store_fid none g c = none
store_fid (some p) g c = store_live p g c (get_or c.fids p none)

-- TVersion; IXP_MAX_MSG is 8192, and `junk` what realloc adds.
unfoldable pub settle_version : ℕ → Req → Conn → Stage
settle_version junk r c =
    let n = if ltb r.ofcall.msize 8192 then r.ofcall.msize else 8192 in
    some (
      record r { ofcall = record r.ofcall { msize = n } },
      none,
      record c { rsize = n; wmsg = record c.wmsg { buf = erealloc junk c.wmsg.buf n; size = n } },
    )

-- TOpen and TCreate without an error; IOHDRSZ is 24, and `iounit` a `uint`.
unfoldable pub settle_open : Req → Conn → Stage
unfolding store_fid
settle_open r c =
    let n = (c.rsize + 2 ^ 32 - 24) % 2 ^ 32 in
    stage (record r { ofcall = record r.ofcall { iounit = n } }) none
      (store_fid r.fid (λ f. record f { iounit = n; omode = r.ifcall.mode; qid = r.ofcall.qid }) c)

abbrev pub is_error : Option Error → Bool
is_error none = false
is_error (some e) = true

-- The first branch of TWalk.
unfoldable pub walk_short : Req → Option Error → Conn → Stage
unfolding destroy_if
walk_short r e c =
    stage r (if not (is_error e) && (r.ofcall.nwqid == 0) then some enofile else e)
      (if not (r.ifcall.fid == r.ifcall.newfid) then destroy_if r.newfid c else some c)

-- The qid that the new fid gets.
unfoldable pub fid_qid : Option Fid → Option Qid
fid_qid none = none
fid_qid (some f) = some f.qid

abbrev pub pointed : Conn → Option ℕ → Option Fid
pointed c none = none
pointed c (some p) = get_or c.fids p none

unfoldable pub walked_qid : Req → Conn → Option Qid
unfolding fid_qid
walked_qid r c =
    if r.ofcall.nwqid == 0
    then fid_qid (pointed c r.fid)
    else get_elem? r.ofcall.wqid (r.ofcall.nwqid - 1)

unfoldable pub walk_to : Req → Conn → Option Qid → Stage
unfolding store_fid
walk_to r c none = none
walk_to r c (some q) = stage r none (store_fid r.newfid (λ f. record f { qid = q }) c)

unfoldable pub settle_walk : Req → Option Error → Conn → Stage
unfolding walk_short walk_to walked_qid
settle_walk r e c =
    if is_error e || ltb r.ofcall.nwqid r.ifcall.nwname
    then walk_short r e c
    else walk_to r c (walked_qid r c)

-- The first switch but for TFlush; what it frees of the request's texts is left out.
unfoldable pub settle : ℕ → FType → Req → Option Error → Conn → Stage
unfolding settle_version settle_open settle_walk destroy_if
settle junk t_version r (some e) c = none
settle junk t_version r none c = settle_version junk r c
settle junk t_auth r e c = some (r, e, c)
settle junk t_attach r none c = some (r, none, c)
settle junk t_attach r (some e) c = stage r (some e) (destroy_if r.fid c)
settle junk t_open r none c = settle_open r c
settle junk t_open r (some e) c = some (r, some e, c)
settle junk t_create r none c = settle_open r c
settle junk t_create r (some e) c = some (r, some e, c)
settle junk t_walk r e c = settle_walk r e c
settle junk t_write r e c = some (r, e, c)
settle junk t_remove r e c = stage r e (destroy_if r.fid c)
settle junk t_clunk r e c = stage r e (destroy_if r.fid c)
settle junk t_wstat r e c = some (r, e, c)
settle junk t_read r e c = some (r, e, c)
settle junk t_stat r e c = some (r, e, c)
settle junk _ r none c = none
settle junk _ r (some e) c = some (r, some e, c)
