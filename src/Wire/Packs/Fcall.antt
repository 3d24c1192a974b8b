-- ===== src/Wire/Packs/Fcall.antt =====
-- ixp_pfcall (lib/libixp/message.c) when packing.
use libixp.Prelude.{ℕ, ◌^◌, ◌<◌, arith}
use libixp.Wire.Types.{
  Fcall, FType, t_version, r_version, t_auth, r_auth, t_attach, r_attach, r_error, t_flush, t_walk,
  r_walk, t_open, r_open, t_create, r_create, t_read, r_read, t_write, r_write, t_clunk, t_remove,
  t_stat, r_stat, t_wstat, ftype,
}
use libixp.Wire.Message.{pfcall_arm, ixp_pfcall}
use libixp.Wire.Message.Bytes.{body_bytes, fcall_bytes, IsBody, IsFcall}
use libixp.Wire.Packs.{Packs, Packs-pure, Packs-bind}
use libixp.Wire.Packs.Convert.{
  Packs-pu8, Packs-pu16, Packs-pu32, Packs-pu64, Packs-pdata, Packs-pstring, Packs-pqid,
}
use libixp.Wire.Packs.Entry.{Packs-pstat}
use libixp.Wire.Packs.Arrays.{Packs-pstrings, Packs-pqids}

pub Packs-pfcall_arm :
    (size : ℕ) (t : FType) (f : Fcall)
    → size < 2 ^ 16
    → IsBody t f
    → Packs (pfcall_arm size t f) (body_bytes size t f) f
unfolding pfcall_arm
Packs-pfcall_arm size t_version f hs h =
    (Packs-bind _ _ (Packs-pu32 f.msize)
      (Packs-bind _ _ (Packs-pstring f.version h.1) (Packs-pure f)))
Packs-pfcall_arm size r_version f hs h =
    (Packs-bind _ _ (Packs-pu32 f.msize)
      (Packs-bind _ _ (Packs-pstring f.version h.1) (Packs-pure f)))
Packs-pfcall_arm size t_auth f hs h =
    (Packs-bind _ _ (Packs-pu32 f.afid) (
      Packs-bind _ _ (Packs-pstring f.uname h.1)
        (Packs-bind _ _ (Packs-pstring f.aname h.2) (Packs-pure f))))
Packs-pfcall_arm size r_auth f hs h = (Packs-bind _ _ (Packs-pqid f.aqid h) (Packs-pure f))
Packs-pfcall_arm size r_attach f hs h = (Packs-bind _ _ (Packs-pqid f.qid h) (Packs-pure f))
Packs-pfcall_arm size t_attach f hs h =
    (Packs-bind _ _ (Packs-pu32 f.fid) (
      Packs-bind _ _ (Packs-pu32 f.afid) (
        Packs-bind _ _ (Packs-pstring f.uname h.2)
          (Packs-bind _ _ (Packs-pstring f.aname h.3) (Packs-pure f)))))
Packs-pfcall_arm size r_error f hs h = (Packs-bind _ _ (Packs-pstring f.ename h) (Packs-pure f))
Packs-pfcall_arm size t_flush f hs h = (Packs-bind _ _ (Packs-pu16 f.oldtag h) (Packs-pure f))
Packs-pfcall_arm size t_walk f hs h =
    (Packs-bind _ _ (Packs-pu32 f.fid) (
      Packs-bind _ _ (Packs-pu32 f.newfid) (
        Packs-bind _ _
          (Packs-pstrings f.nwname 16 f.wname (omega (arith, h.2, h.3)) h.2 (omega (arith, h.2))
            h.4)
          (Packs-pure f))))
Packs-pfcall_arm size r_walk f hs h =
    (Packs-bind _ _
      (Packs-pqids f.nwqid 16 f.wqid (omega (arith, h.0, h.1)) h.0 (omega (arith, h.0)) h.2)
      (Packs-pure f))
Packs-pfcall_arm size t_open f hs h =
    (Packs-bind _ _ (Packs-pu32 f.fid) (Packs-bind _ _ (Packs-pu8 f.mode h.1) (Packs-pure f)))
Packs-pfcall_arm size r_open f hs h =
    (Packs-bind _ _ (Packs-pqid f.qid h.0) (Packs-bind _ _ (Packs-pu32 f.iounit) (Packs-pure f)))
Packs-pfcall_arm size r_create f hs h =
    (Packs-bind _ _ (Packs-pqid f.qid h.0) (Packs-bind _ _ (Packs-pu32 f.iounit) (Packs-pure f)))
Packs-pfcall_arm size t_create f hs h =
    (Packs-bind _ _ (Packs-pu32 f.fid) (
      Packs-bind _ _ (Packs-pstring f.name h.1) (
        Packs-bind _ _ (Packs-pu32 f.perm) (Packs-bind _ _ (Packs-pu8 f.mode h.3) (Packs-pure f)))))
Packs-pfcall_arm size t_read f hs h =
    (Packs-bind _ _ (Packs-pu32 f.fid) (
      Packs-bind _ _ (Packs-pu64 f.offset h.1)
        (Packs-bind _ _ (Packs-pu32 f.count) (Packs-pure f))))
Packs-pfcall_arm size r_read f hs h =
    (Packs-bind _ _ (Packs-pu32 f.count)
      (Packs-bind _ _ (Packs-pdata f.payload f.count h.1) (Packs-pure f)))
Packs-pfcall_arm size t_write f hs h =
    (Packs-bind _ _ (Packs-pu32 f.fid) (
      Packs-bind _ _ (Packs-pu64 f.offset h.1) (
        Packs-bind _ _ (Packs-pu32 f.count)
          (Packs-bind _ _ (Packs-pdata f.payload f.count h.3) (Packs-pure f)))))
Packs-pfcall_arm size r_write f hs h = (Packs-bind _ _ (Packs-pu32 f.count) (Packs-pure f))
Packs-pfcall_arm size t_clunk f hs h = (Packs-bind _ _ (Packs-pu32 f.fid) (Packs-pure f))
Packs-pfcall_arm size t_remove f hs h = (Packs-bind _ _ (Packs-pu32 f.fid) (Packs-pure f))
Packs-pfcall_arm size t_stat f hs h = (Packs-bind _ _ (Packs-pu32 f.fid) (Packs-pure f))
Packs-pfcall_arm size r_stat f hs h =
    (Packs-bind _ _ (Packs-pu16 f.nstat h.0)
      (Packs-bind _ _ (Packs-pdata f.stat f.nstat h.1) (Packs-pure f)))
Packs-pfcall_arm size t_wstat f hs h =
    (Packs-bind _ _ (Packs-pu32 f.fid) (
      Packs-bind _ _ (Packs-pu16 size hs)
        (Packs-bind _ _ (Packs-pstat f.twstat h.1) (Packs-pure f))))
Packs-pfcall_arm size _ f hs h = Packs-pure f

pub Packs-pfcall :
    (size : ℕ) (f : Fcall)
    → size < 2 ^ 16
    → IsFcall f
    → Packs (ixp_pfcall size f) (fcall_bytes size f) f
unfolding ixp_pfcall
Packs-pfcall size f hs h =
    Packs-bind _ _ (Packs-pu8 f.type h.type)
      (Packs-bind _ _ (Packs-pu16 f.tag h.tag) (Packs-pfcall_arm size (ftype f.type) f hs h.body))
