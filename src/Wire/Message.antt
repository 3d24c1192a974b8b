-- ===== src/Wire/Message.antt =====
-- lib/libixp/message.c: a whole 9P message is packed, unpacked or released.
pub mod Bytes
use libixp.Prelude.{
  ℕ, ◌+◌, ◌-◌, ◌%◌, ◌^◌, List, [], Option, none, some, ◌||◌, leb, ltb, ◌==◌, if◌then◌else◌,
}
use libixp.Wire.Types.{
  Qid, Stat, Fcall, FType, t_version, r_version, t_auth, r_auth, t_attach, r_attach, t_error,
  r_error, t_flush, r_flush, t_walk, r_walk, t_open, r_open, t_create, r_create, t_read, r_read,
  t_write, r_write, t_clunk, r_clunk, t_remove, r_remove, t_stat, r_stat, t_wstat, r_wstat, unknown,
  ftype,
}
use libixp.Wire.Msg.{Mode, msg_pack, msg_unpack, Msg, M, pure, ◌>>=◌, ◌>>◌}
use libixp.Wire.Convert.{
  s_dword, ixp_pu8, ixp_pu16, ixp_pu32, ixp_pu64, ixp_pdata, ixp_pstring, ixp_pstrings, ixp_pqid,
  ixp_pqids, ixp_pstat,
}

-- IXP_MAX_WELEM, the length of both arrays
abbrev pub ixp_max_welem : ℕ
ixp_max_welem = 16

-- The arms of the switch of ixp_pfcall that several labels share.
unfoldable pub pversion : Fcall → M Fcall
pversion f = do
  msize ← ixp_pu32 f.msize
  version ← ixp_pstring f.version
  pure (record f { msize = msize; version = version })

unfoldable pub popened : Fcall → M Fcall
popened f = do
  qid ← ixp_pqid f.qid
  iounit ← ixp_pu32 f.iounit
  pure (record f { qid = qid; iounit = iounit })

unfoldable pub pfid : Fcall → M Fcall
pfid f = do fid ← ixp_pu32 f.fid; pure (record f { fid = fid })

-- The switch of ixp_pfcall. `size` is the uninitialised local of the TWStat arm.
unfoldable pub pfcall_arm : ℕ → FType → Fcall → M Fcall
unfolding pversion popened pfid
pfcall_arm size t_version f = pversion f
pfcall_arm size r_version f = pversion f
pfcall_arm size t_auth f = do
  afid ← ixp_pu32 f.afid
  uname ← ixp_pstring f.uname
  aname ← ixp_pstring f.aname
  pure (record f { afid = afid; uname = uname; aname = aname })
pfcall_arm size r_auth f = do aqid ← ixp_pqid f.aqid; pure (record f { aqid = aqid })
pfcall_arm size r_attach f = do qid ← ixp_pqid f.qid; pure (record f { qid = qid })
pfcall_arm size t_attach f = do
  fid ← ixp_pu32 f.fid
  afid ← ixp_pu32 f.afid
  uname ← ixp_pstring f.uname
  aname ← ixp_pstring f.aname
  pure (record f { fid = fid; afid = afid; uname = uname; aname = aname })
pfcall_arm size r_error f = do ename ← ixp_pstring f.ename; pure (record f { ename = ename })
pfcall_arm size t_flush f = do oldtag ← ixp_pu16 f.oldtag; pure (record f { oldtag = oldtag })
pfcall_arm size t_walk f = do
  fid ← ixp_pu32 f.fid
  newfid ← ixp_pu32 f.newfid
  names ← ixp_pstrings f.nwname f.wname ixp_max_welem
  pure (record f { fid = fid; newfid = newfid; nwname = names.0; wname = names.1 })
pfcall_arm size r_walk f = do
  qids ← ixp_pqids f.nwqid f.wqid ixp_max_welem
  pure (record f { nwqid = qids.0; wqid = qids.1 })
pfcall_arm size t_open f = do
  fid ← ixp_pu32 f.fid
  mode ← ixp_pu8 f.mode
  pure (record f { fid = fid; mode = mode })
pfcall_arm size r_open f = popened f
pfcall_arm size r_create f = popened f
pfcall_arm size t_create f = do
  fid ← ixp_pu32 f.fid
  name ← ixp_pstring f.name
  perm ← ixp_pu32 f.perm
  mode ← ixp_pu8 f.mode
  pure (record f { fid = fid; name = name; perm = perm; mode = mode })
pfcall_arm size t_read f = do
  fid ← ixp_pu32 f.fid
  offset ← ixp_pu64 f.offset
  count ← ixp_pu32 f.count
  pure (record f { fid = fid; offset = offset; count = count })
pfcall_arm size r_read f = do
  count ← ixp_pu32 f.count
  payload ← ixp_pdata f.payload count
  pure (record f { count = count; payload = payload })
pfcall_arm size t_write f = do
  fid ← ixp_pu32 f.fid
  offset ← ixp_pu64 f.offset
  count ← ixp_pu32 f.count
  payload ← ixp_pdata f.payload count
  pure (record f { fid = fid; offset = offset; count = count; payload = payload })
pfcall_arm size r_write f = do count ← ixp_pu32 f.count; pure (record f { count = count })
pfcall_arm size t_clunk f = pfid f
pfcall_arm size t_remove f = pfid f
pfcall_arm size t_stat f = pfid f
pfcall_arm size r_stat f = do
  nstat ← ixp_pu16 f.nstat
  stat ← ixp_pdata f.stat nstat
  pure (record f { nstat = nstat; stat = stat })
pfcall_arm size t_wstat f = do
  fid ← ixp_pu32 f.fid
  _ ← ixp_pu16 size
  twstat ← ixp_pstat f.twstat
  pure (record f { fid = fid; twstat = twstat })
pfcall_arm size _ f = pure f

unfoldable pub ixp_pfcall : ℕ → Fcall → M Fcall
ixp_pfcall size f = do
  type ← ixp_pu8 f.type
  tag ← ixp_pu16 f.tag
  pfcall_arm size (ftype type) (record f { type = type; tag = tag })

-- The result, the message and the Fcall after a call of ixp_fcall2msg or ixp_msg2fcall.
pub record Coded : Type 0 where
  pub result : ℕ
  pub msg : Msg
  pub fcall : Fcall

-- What ixp_fcall2msg does once the body is packed.
unfoldable pub finish : Fcall → M ℕ
finish f m =
    if ltb m.end m.pos
    then some (0, m)
    else let size = m.pos % 2 ^ 32 in
      (ixp_pu32 size >>= λ _ m'. some (size, record m' { pos = 0 }))
        (record m { end = m.pos; pos = 0 })

-- The body of ixp_fcall2msg from the call of ixp_pfcall on.
unfoldable pub pack_all : ℕ → Fcall → M Coded
pack_all size f = do
  f' ← ixp_pfcall size f
  n ← finish f'
  λ m. some (record { result = n; msg = m; fcall = f' }, m)

unfoldable pub ixp_fcall2msg : ℕ → Msg → Fcall → Option Coded
ixp_fcall2msg size m f =
    if ltb m.size 4
    then some (record { result = 0; msg = m; fcall = f })
    else elim (pack_all size f (record m { end = m.size; pos = 4; mode = msg_pack })) [
      | none ↦ none
      | some (r, m') ↦ some r
    ]

unfoldable pub ixp_msg2fcall : ℕ → Msg → Fcall → Option Coded
ixp_msg2fcall size m f =
    if ltb m.size 4 || ltb m.end 4
    then some (record { result = 0; msg = m; fcall = f })
    else elim (ixp_pfcall size f (record m { pos = 4; mode = msg_unpack })) [
      | none ↦ none
      | some (f', m') ↦ some (record {
        result = if ltb m'.end m'.pos then 0 else m'.pos % 2 ^ 32;
        msg = m';
        fcall = f';
      })
    ]
