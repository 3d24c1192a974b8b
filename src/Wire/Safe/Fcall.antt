-- ===== src/Wire/Safe/Fcall.antt =====
-- ixp_pfcall and ixp_msg2fcall (lib/libixp/message.c) on any bytes.
use libixp.Prelude.{
  ℕ, ◌%◌, ◌^◌, ◌≤◌, ◌<◌, ◌≡◌, refl, ◌⊎◌, inl, inr, some, arith, length, le_or_lt, ge→ltb, lt→ltb,
}
use libixp.Wire.Types.{
  Fcall, FType, t_version, r_version, t_auth, r_auth, t_attach, r_attach, r_error, t_flush, t_walk,
  r_walk, t_open, r_open, t_create, r_create, t_read, r_read, t_write, r_write, t_clunk, t_remove,
  t_stat, r_stat, t_wstat, ftype,
}
use libixp.Wire.Msg.{Msg, msg_unpack, IsValid}
use libixp.Wire.Message.{Coded, pfcall_arm, ixp_pfcall, ixp_msg2fcall}
use libixp.Wire.Message.Bytes.{HasArrays}
use libixp.Wire.Safe.{Safe, Safe-pure, Safe-bind}
use libixp.Wire.Safe.Convert.{
  Safe-pu8, Safe-pu16, Safe-pu32, Safe-pu64, Safe-pdata, Safe-pstring, Safe-pqid, Safe-pqids,
  Safe-pstat,
}
use libixp.Wire.Safe.Strings.{Safe-pstrings}

Safe-pfcall_arm : (junk : ℕ) (t : FType) (f : Fcall) → HasArrays f → Safe (pfcall_arm junk t f)
unfolding pfcall_arm
Safe-pfcall_arm junk t_version f arr =
    Safe-bind _ _ (Safe-pu32 f.msize) λ _. Safe-bind _ _ (Safe-pstring f.version) λ _. Safe-pure _
Safe-pfcall_arm junk r_version f arr =
    Safe-bind _ _ (Safe-pu32 f.msize) λ _. Safe-bind _ _ (Safe-pstring f.version) λ _. Safe-pure _
Safe-pfcall_arm junk t_auth f arr = Safe-bind _ _ (Safe-pu32 f.afid) λ _.
    Safe-bind _ _ (Safe-pstring f.uname) λ _. Safe-bind _ _ (Safe-pstring f.aname) λ _. Safe-pure _
Safe-pfcall_arm junk r_auth f arr = Safe-bind _ _ (Safe-pqid f.aqid) λ _. Safe-pure _
Safe-pfcall_arm junk r_attach f arr = Safe-bind _ _ (Safe-pqid f.qid) λ _. Safe-pure _
Safe-pfcall_arm junk t_attach f arr = Safe-bind _ _ (Safe-pu32 f.fid) λ _.
    Safe-bind _ _ (Safe-pu32 f.afid) λ _.
      Safe-bind _ _ (Safe-pstring f.uname)
        λ _. Safe-bind _ _ (Safe-pstring f.aname) λ _. Safe-pure _
Safe-pfcall_arm junk r_error f arr = Safe-bind _ _ (Safe-pstring f.ename) λ _. Safe-pure _
Safe-pfcall_arm junk t_flush f arr = Safe-bind _ _ (Safe-pu16 f.oldtag) λ _. Safe-pure _
Safe-pfcall_arm junk t_walk f arr = Safe-bind _ _ (Safe-pu32 f.fid) λ _.
    Safe-bind _ _ (Safe-pu32 f.newfid)
      λ _. Safe-bind _ _ (Safe-pstrings f.nwname f.wname arr.names) λ _. Safe-pure _
Safe-pfcall_arm junk r_walk f arr =
    Safe-bind _ _ (Safe-pqids f.nwqid 16 f.wqid (omega (arith, arr.qids))) λ _. Safe-pure _
Safe-pfcall_arm junk t_open f arr =
    Safe-bind _ _ (Safe-pu32 f.fid) λ _. Safe-bind _ _ (Safe-pu8 f.mode) λ _. Safe-pure _
Safe-pfcall_arm junk r_open f arr =
    Safe-bind _ _ (Safe-pqid f.qid) λ _. Safe-bind _ _ (Safe-pu32 f.iounit) λ _. Safe-pure _
Safe-pfcall_arm junk r_create f arr =
    Safe-bind _ _ (Safe-pqid f.qid) λ _. Safe-bind _ _ (Safe-pu32 f.iounit) λ _. Safe-pure _
Safe-pfcall_arm junk t_create f arr = Safe-bind _ _ (Safe-pu32 f.fid) λ _.
    Safe-bind _ _ (Safe-pstring f.name)
      λ _. Safe-bind _ _ (Safe-pu32 f.perm) λ _. Safe-bind _ _ (Safe-pu8 f.mode) λ _. Safe-pure _
Safe-pfcall_arm junk t_read f arr =
    Safe-bind _ _ (Safe-pu32 f.fid) λ _.
      Safe-bind _ _ (Safe-pu64 f.offset) λ _. Safe-bind _ _ (Safe-pu32 f.count) λ _. Safe-pure _
Safe-pfcall_arm junk r_read f arr =
    Safe-bind _ _ (Safe-pu32 f.count) λ n. Safe-bind _ _ (Safe-pdata f.payload n) λ _. Safe-pure _
Safe-pfcall_arm junk t_write f arr = Safe-bind _ _ (Safe-pu32 f.fid) λ _.
    Safe-bind _ _ (Safe-pu64 f.offset) λ _.
      Safe-bind _ _ (Safe-pu32 f.count) λ n. Safe-bind _ _ (Safe-pdata f.payload n) λ _. Safe-pure _
Safe-pfcall_arm junk r_write f arr = Safe-bind _ _ (Safe-pu32 f.count) λ _. Safe-pure _
Safe-pfcall_arm junk t_clunk f arr = Safe-bind _ _ (Safe-pu32 f.fid) λ _. Safe-pure _
Safe-pfcall_arm junk t_remove f arr = Safe-bind _ _ (Safe-pu32 f.fid) λ _. Safe-pure _
Safe-pfcall_arm junk t_stat f arr = Safe-bind _ _ (Safe-pu32 f.fid) λ _. Safe-pure _
Safe-pfcall_arm junk r_stat f arr =
    Safe-bind _ _ (Safe-pu16 f.nstat) λ n. Safe-bind _ _ (Safe-pdata f.stat n) λ _. Safe-pure _
Safe-pfcall_arm junk t_wstat f arr =
    Safe-bind _ _ (Safe-pu32 f.fid)
      λ _. Safe-bind _ _ (Safe-pu16 junk) λ _. Safe-bind _ _ (Safe-pstat f.twstat) λ _. Safe-pure _
Safe-pfcall_arm junk _ f arr = Safe-pure f

Safe-pfcall : (junk : ℕ) (f : Fcall) → HasArrays f → Safe (ixp_pfcall junk f)
unfolding ixp_pfcall
Safe-pfcall junk f arr = Safe-bind _ _ (Safe-pu8 f.type) λ type.
    Safe-bind _ _ (Safe-pu16 f.tag) λ tag.
      Safe-pfcall_arm junk (ftype type) (record f { type = type; tag = tag })
        (record { names = arr.names; qids = arr.qids })

-- Whatever bytes are in the buffer, ixp_msg2fcall returns without an access outside the buffer, the
-- allocation of the strings or the arrays. It writes nothing to the buffer. The result is 0, or it
-- is the number of bytes that were read, of which none lies past the end.
pub msg2fcall_safe :
    (junk : ℕ) (m : Msg) (g : Fcall)
    → length m.buf ≡ m.size
    → m.size < 2 ^ 32
    → m.end ≤ m.size
    → HasArrays g
    → (d : Coded) × (ixp_msg2fcall junk m g ≡ some d)
      × (d.msg.buf ≡ m.buf)
      × ((d.result ≡ 0) ⊎ ((d.result ≡ d.msg.pos) × (d.msg.pos ≤ m.end)))
unfolding ixp_msg2fcall
msg2fcall_safe junk m g width fits bounded arr = elim (le_or_lt 4 m.size) [
  | inr tiny ↦
      (record { result = 0; msg = m; fcall = g }, rw (lt→ltb m.size 4 tiny), refl, inl refl)
  | inl sized ↦ elim (le_or_lt 4 m.end) [
    | inr cut ↦ (
      record { result = 0; msg = m; fcall = g },
      rw (ge→ltb m.size 4 sized, lt→ltb m.end 4 cut),
      refl,
      inl refl,
    )
    | inl header ↦
        let m0 : Msg = record m { pos = 4; mode = msg_unpack } in
        let v0 : IsValid m0 = record {
          width = width;
          fits = fits;
          bounded = bounded;
          near = omega arith;
        } in
        let (f, r, run, same) = (Safe-pfcall junk g arr).at m0 refl v0 in
        elim (le_or_lt r.pos r.end) [
          | inl within ↦ (
            record { result = r.pos % 2 ^ 32; msg = r; fcall = f },
            rw (ge→ltb m.size 4 sized, ge→ltb m.end 4 header, run, ge→ltb r.end r.pos within),
            same.buf,
            inr (omega (arith, same.valid.fits, same.valid.bounded), omega (arith, same.end)),
          )
          | inr past ↦ (
            record { result = 0; msg = r; fcall = f },
            rw (ge→ltb m.size 4 sized, ge→ltb m.end 4 header, run, lt→ltb r.end r.pos past),
            same.buf,
            inl refl,
          )
        ]
  ]
]
