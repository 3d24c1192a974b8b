-- ===== src/Request/Handle.antt =====
-- handlereq of lib/libixp/request.c, an arm of its switch at a time.
use libixp.Prelude.{
  ℕ, ◌-◌, ◌/◌, ◌^◌, bit_and, bit_or, Bool, not, ◌&&◌, ◌||◌, List, [], ◌∷◌, Option, none, some,
  get_or, ◌==◌, ltb, if◌then◌else◌,
}
use libixp.Map.{ixp_mapget}
use libixp.Wire.Types.{
  Stat, FType, ftype, t_version, t_attach, t_clunk, t_flush, t_create, t_open, t_read, t_remove,
  t_stat, t_walk, t_write, t_wstat,
}
use libixp.Request.{
  Fid, Conn, Req, Call, Result, respond, createfid, same_string, nonempty, is_dir, refuse_if,
  call_or, with_fid, deref, edupfid, enofunc, eopen, enoread, enotag, enotdir, eisdir, walk_open,
  write_unopened, wstat_type, wstat_dev, wstat_qid, wstat_muid, wstat_dmdir, call, srv_attach,
  srv_clunk, srv_flush, srv_create, srv_open, srv_read, srv_remove, srv_stat, srv_walk, srv_write,
  srv_wstat,
}

-- "9P", "9P2000" and "unknown"
abbrev pub version_9p : List ℕ
version_9p = b'9' ∷ b'P' ∷ []

abbrev pub version_9p2000 : List ℕ
version_9p2000 = b'9' ∷ b'P' ∷ b'2' ∷ b'0' ∷ b'0' ∷ b'0' ∷ []

abbrev pub version_unknown : List ℕ
version_unknown = b'u' ∷ b'n' ∷ b'k' ∷ b'n' ∷ b'o' ∷ b'w' ∷ b'n' ∷ []

unfoldable pub answer_version : List ℕ → List ℕ
answer_version v =
    if same_string v version_9p
    then version_9p
    else if same_string v version_9p2000
    then version_9p2000
    else version_unknown

unfoldable pub handle_version : Req → Conn → Result
handle_version r c =
    let o = record r.ofcall { version = answer_version r.ifcall.version; msize = r.ifcall.msize } in
    some (respond none, record r { ofcall = o }, c)

-- TAttach, by what createfid returns
unfoldable pub attached : Req → Option (Option ℕ × Conn) → Result
attached r none = none
attached r (some (none, c)) = some (respond (some edupfid), record r { fid = none }, c)
attached r (some (some p, c)) = some (call srv_attach, record r { fid = some p }, c)

unfoldable pub handle_flush : (Call → Bool) → Req → Conn → Option ℕ → Result
handle_flush has r c none = some (respond (some enotag), record r { oldreq = none }, c)
handle_flush has r c (some q) =
    call_or has (some enofunc) srv_flush (record r { oldreq = some q }) c

unfoldable pub handle_create : (Call → Bool) → Req → Conn → Fid → Result
handle_create has r c f =
    refuse_if (not (f.omode == 255)) eopen r c
      (refuse_if (not (is_dir f)) enotdir r c (call_or has (some enofunc) srv_create r c))

unfoldable pub handle_open : (Call → Bool) → Req → Conn → Fid → Result
handle_open has r c f =
    refuse_if (is_dir f && not (bit_or r.ifcall.mode 64 == 64)) eisdir r c (
      call_or has (some enofunc) srv_open (record r { ofcall = record r.ofcall { qid = f.qid } }) c)

unfoldable pub handle_read : (Call → Bool) → Req → Conn → Fid → Result
handle_read has r c f =
    refuse_if ((f.omode == 255) || (f.omode == 1)) enoread r c
      (call_or has (some enofunc) srv_read r c)

-- The end of TWalk, once newfid is there.
unfoldable pub walked : (Call → Bool) → Req → Option (Option ℕ × Conn) → Result
walked has r none = none
walked has r (some (none, c)) = some (respond (some edupfid), record r { newfid = none }, c)
walked has r (some (some p, c)) =
    call_or has (some enofunc) srv_walk (record r { newfid = some p }) c

unfoldable pub handle_walk : (Call → Bool) → Req → Conn → ℕ → Fid → Result
handle_walk has r c p f = refuse_if (not (f.omode == 255)) walk_open r c (
    refuse_if (ltb 0 r.ifcall.nwname && not (is_dir f)) enotdir r c (
      if not (r.ifcall.fid == r.ifcall.newfid)
      then walked has r (createfid r.ifcall.newfid c)
      else walked has r (some (some p, c))))

unfoldable pub handle_write : (Call → Bool) → Req → Conn → Fid → Result
handle_write has r c f =
    refuse_if (not (bit_and f.omode 3 == 1) && not (bit_and f.omode 3 == 2)) write_unopened r c
      (call_or has (some enofunc) srv_write r c)

-- The change of the bit DMDIR that a wstat asks for; `(uint32_t)~0` leaves the mode.
abbrev pub changes_dir : Stat → Fid → Bool
changes_dir s f =
    not (s.mode == 2 ^ 32 - 1) && not (bit_and s.mode (2 ^ 31) / 2 ^ 24 == bit_and f.qid.type 128)

unfoldable pub handle_wstat : (Call → Bool) → Req → Conn → Fid → Result
handle_wstat has r c f =
    let s = r.ifcall.twstat in
    refuse_if (not (s.type == 2 ^ 16 - 1)) wstat_type r c (
      refuse_if (not (s.dev == 2 ^ 32 - 1)) wstat_dev r c (
        refuse_if
          (not (s.qid.type == 2 ^ 8 - 1)
            || not (s.qid.version == 2 ^ 32 - 1)
            || not (s.qid.path == 2 ^ 64 - 1))
          wstat_qid r c
          (refuse_if (nonempty s.muid) wstat_muid r c (
            refuse_if (changes_dir s f) wstat_dmdir r c
              (call_or has (some enofunc) srv_wstat r c)))))

-- An arm that looks up the fid of the request, and one that also reads its members.
unfoldable pub on_pointer : Req → Conn → (ℕ → Req → Result) → Result
on_pointer r c rest = with_fid (ixp_mapget c.fidmap r.ifcall.fid) r c rest

unfoldable pub on_fid : Req → Conn → (ℕ → Req → Fid → Result) → Result
unfolding on_pointer
on_fid r c rest = on_pointer r c λ p r'. deref (get_or c.fids p none) (rest p r')

unfoldable pub dispatch : (Call → Bool) → FType → Req → Conn → Result
dispatch has t_version r c = handle_version r c
dispatch has t_attach r c = attached r (createfid r.ifcall.fid c)
dispatch has t_clunk r c = on_pointer r c λ p r'. call_or has none srv_clunk r' c
dispatch has t_flush r c = handle_flush has r c (ixp_mapget c.tagmap r.ifcall.oldtag)
dispatch has t_create r c = on_fid r c λ p r' f. handle_create has r' c f
dispatch has t_open r c = on_fid r c λ p r' f. handle_open has r' c f
dispatch has t_read r c = on_fid r c λ p r' f. handle_read has r' c f
dispatch has t_remove r c = on_pointer r c λ p r'. call_or has (some enofunc) srv_remove r' c
dispatch has t_stat r c = on_pointer r c λ p r'. call_or has (some enofunc) srv_stat r' c
dispatch has t_walk r c = on_fid r c λ p r' f. handle_walk has r' c p f
dispatch has t_write r c = on_fid r c λ p r' f. handle_write has r' c f
dispatch has t_wstat r c = on_fid r c λ p r' f. handle_wstat has r' c f
dispatch has _ r c = some (respond (some enofunc), r, c)

unfoldable pub handlereq : (Call → Bool) → Req → Conn → Result
handlereq has r c = dispatch has (ftype r.ifcall.type) r c
