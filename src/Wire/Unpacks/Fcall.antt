-- ===== src/Wire/Unpacks/Fcall.antt =====
-- ixp_pfcall (lib/libixp/message.c) on the bytes of a message.
use mathlib.Core.Path.{subst}
use libixp.Prelude.{ℕ, zero, suc, ◌*◌, ◌^◌, ◌≤◌, ◌<◌, ◌≡◌, List, [], ◌∷◌, arith, length, All}
use libixp.Wire.Types.{
  Fcall, FType, t_version, r_version, t_auth, r_auth, t_attach, r_attach, r_error, t_flush, t_walk,
  r_walk, t_open, r_open, t_create, r_create, t_read, r_read, t_write, r_write, t_clunk, t_remove,
  t_stat, r_stat, t_wstat, ftype,
}
use libixp.Wire.Convert.{ixp_pdata}
use libixp.Wire.Format.{IsString}
use libixp.Wire.Message.{pfcall_arm, ixp_pfcall}
use libixp.Wire.Message.Bytes.{
  body_bytes, fcall_bytes, overlay_body, overlay, IsBody, IsFcall, HasArrays,
}
use libixp.Wire.Unpacks.{Unpacks, Unpacks-pure, Unpacks-bind}
use libixp.Wire.Unpacks.Convert.{
  Unpacks-pu8, Unpacks-pu16, Unpacks-pu32, Unpacks-pu64, Unpacks-pdata, Unpacks-pstring,
  Unpacks-pqid, Unpacks-pstat,
}
use libixp.Wire.Unpacks.Arrays.{total, AreShort, Unpacks-pstrings, Unpacks-pqids}

AreShort-of : (ss : List (List ℕ)) → All IsString ss → AreShort ss
AreShort-of [] h = tt
AreShort-of (s ∷ ss) (hs, h) = (hs.short, AreShort-of ss h)

total-le : (n : ℕ) (ss : List (List ℕ)) → AreShort ss → total n ss ≤ n * 2 ^ 16
total-le zero ss h = omega arith
total-le (suc n) [] h = omega arith
total-le (suc n) (s ∷ ss) (hs, h) = omega (arith, total-le n ss h)

-- The data of a message, whose count has been read.
Unpacks-counted : (old bs : List ℕ) (n : ℕ) → length bs ≡ n → Unpacks (ixp_pdata old n) bs bs
Unpacks-counted old bs n e = subst (λ k. Unpacks (ixp_pdata old k) bs bs) e (Unpacks-pdata old bs)

-- `g` is what the Fcall held before: its arrays have room for the elements that are read.
pub Unpacks-pfcall_arm :
    (size junk : ℕ) (t : FType) (f g : Fcall)
    → size < 2 ^ 16
    → IsBody t f
    → HasArrays g
    → Unpacks (pfcall_arm junk t g) (body_bytes size t f) (overlay_body t f g)
unfolding pfcall_arm
Unpacks-pfcall_arm size junk t_version f g hs h arr =
    (Unpacks-bind _ _ (Unpacks-pu32 g.msize f.msize h.0)
      (Unpacks-bind _ _ (Unpacks-pstring g.version f.version h.1.short) (Unpacks-pure _)))
Unpacks-pfcall_arm size junk r_version f g hs h arr =
    (Unpacks-bind _ _ (Unpacks-pu32 g.msize f.msize h.0)
      (Unpacks-bind _ _ (Unpacks-pstring g.version f.version h.1.short) (Unpacks-pure _)))
Unpacks-pfcall_arm size junk t_auth f g hs h arr =
    (Unpacks-bind _ _ (Unpacks-pu32 g.afid f.afid h.0) (
      Unpacks-bind _ _ (Unpacks-pstring g.uname f.uname h.1.short)
        (Unpacks-bind _ _ (Unpacks-pstring g.aname f.aname h.2.short) (Unpacks-pure _))))
Unpacks-pfcall_arm size junk r_auth f g hs h arr =
    (Unpacks-bind _ _ (Unpacks-pqid g.aqid f.aqid h) (Unpacks-pure _))
Unpacks-pfcall_arm size junk r_attach f g hs h arr =
    (Unpacks-bind _ _ (Unpacks-pqid g.qid f.qid h) (Unpacks-pure _))
Unpacks-pfcall_arm size junk t_attach f g hs h arr =
    (Unpacks-bind _ _ (Unpacks-pu32 g.fid f.fid h.0) (
      Unpacks-bind _ _ (Unpacks-pu32 g.afid f.afid h.1) (
        Unpacks-bind _ _ (Unpacks-pstring g.uname f.uname h.2.short)
          (Unpacks-bind _ _ (Unpacks-pstring g.aname f.aname h.3.short) (Unpacks-pure _)))))
Unpacks-pfcall_arm size junk r_error f g hs h arr =
    (Unpacks-bind _ _ (Unpacks-pstring g.ename f.ename h.short) (Unpacks-pure _))
Unpacks-pfcall_arm size junk t_flush f g hs h arr =
    (Unpacks-bind _ _ (Unpacks-pu16 g.oldtag f.oldtag h) (Unpacks-pure _))
Unpacks-pfcall_arm size junk t_walk f g hs h arr =
    (Unpacks-bind _ _ (Unpacks-pu32 g.fid f.fid h.0) (
      Unpacks-bind _ _ (Unpacks-pu32 g.newfid f.newfid h.1) (
        Unpacks-bind _ _
          (Unpacks-pstrings g.nwname f.nwname 16 g.wname f.wname (omega (arith, h.3))
            (omega (arith, arr.names)) h.2 h.2 (AreShort-of f.wname h.4)
            (omega (arith, h.2, total-le f.nwname f.wname (AreShort-of f.wname h.4))))
          (Unpacks-pure _))))
Unpacks-pfcall_arm size junk r_walk f g hs h arr =
    (Unpacks-bind _ _
      (Unpacks-pqids g.nwqid f.nwqid 16 g.wqid f.wqid (omega (arith, h.1)) (omega (arith, arr.qids))
        h.0 (omega (arith, h.0)) h.2)
      (Unpacks-pure _))
Unpacks-pfcall_arm size junk t_open f g hs h arr =
    (Unpacks-bind _ _ (Unpacks-pu32 g.fid f.fid h.0)
      (Unpacks-bind _ _ (Unpacks-pu8 g.mode f.mode h.1) (Unpacks-pure _)))
Unpacks-pfcall_arm size junk r_open f g hs h arr =
    (Unpacks-bind _ _ (Unpacks-pqid g.qid f.qid h.0)
      (Unpacks-bind _ _ (Unpacks-pu32 g.iounit f.iounit h.1) (Unpacks-pure _)))
Unpacks-pfcall_arm size junk r_create f g hs h arr =
    (Unpacks-bind _ _ (Unpacks-pqid g.qid f.qid h.0)
      (Unpacks-bind _ _ (Unpacks-pu32 g.iounit f.iounit h.1) (Unpacks-pure _)))
Unpacks-pfcall_arm size junk t_create f g hs h arr =
    (Unpacks-bind _ _ (Unpacks-pu32 g.fid f.fid h.0) (
      Unpacks-bind _ _ (Unpacks-pstring g.name f.name h.1.short) (
        Unpacks-bind _ _ (Unpacks-pu32 g.perm f.perm h.2)
          (Unpacks-bind _ _ (Unpacks-pu8 g.mode f.mode h.3) (Unpacks-pure _)))))
Unpacks-pfcall_arm size junk t_read f g hs h arr =
    (Unpacks-bind _ _ (Unpacks-pu32 g.fid f.fid h.0) (
      Unpacks-bind _ _ (Unpacks-pu64 g.offset f.offset h.1)
        (Unpacks-bind _ _ (Unpacks-pu32 g.count f.count h.2) (Unpacks-pure _))))
Unpacks-pfcall_arm size junk r_read f g hs h arr =
    (Unpacks-bind _ _ (Unpacks-pu32 g.count f.count h.0)
      (Unpacks-bind _ _ (Unpacks-counted g.payload f.payload f.count h.1) (Unpacks-pure _)))
Unpacks-pfcall_arm size junk t_write f g hs h arr =
    (Unpacks-bind _ _ (Unpacks-pu32 g.fid f.fid h.0) (
      Unpacks-bind _ _ (Unpacks-pu64 g.offset f.offset h.1) (
        Unpacks-bind _ _ (Unpacks-pu32 g.count f.count h.2)
          (Unpacks-bind _ _ (Unpacks-counted g.payload f.payload f.count h.3) (Unpacks-pure _)))))
Unpacks-pfcall_arm size junk r_write f g hs h arr =
    (Unpacks-bind _ _ (Unpacks-pu32 g.count f.count h) (Unpacks-pure _))
Unpacks-pfcall_arm size junk t_clunk f g hs h arr =
    (Unpacks-bind _ _ (Unpacks-pu32 g.fid f.fid h) (Unpacks-pure _))
Unpacks-pfcall_arm size junk t_remove f g hs h arr =
    (Unpacks-bind _ _ (Unpacks-pu32 g.fid f.fid h) (Unpacks-pure _))
Unpacks-pfcall_arm size junk t_stat f g hs h arr =
    (Unpacks-bind _ _ (Unpacks-pu32 g.fid f.fid h) (Unpacks-pure _))
Unpacks-pfcall_arm size junk r_stat f g hs h arr =
    (Unpacks-bind _ _ (Unpacks-pu16 g.nstat f.nstat h.0)
      (Unpacks-bind _ _ (Unpacks-counted g.stat f.stat f.nstat h.1) (Unpacks-pure _)))
Unpacks-pfcall_arm size junk t_wstat f g hs h arr =
    (Unpacks-bind _ _ (Unpacks-pu32 g.fid f.fid h.0) (
      Unpacks-bind _ _ (Unpacks-pu16 junk size hs)
        (Unpacks-bind _ _ (Unpacks-pstat g.twstat f.twstat h.1) (Unpacks-pure _))))
Unpacks-pfcall_arm size junk _ f g hs h arr = Unpacks-pure g

pub Unpacks-pfcall :
    (size junk : ℕ) (f g : Fcall)
    → size < 2 ^ 16
    → IsFcall f
    → HasArrays g
    → Unpacks (ixp_pfcall junk g) (fcall_bytes size f) (overlay f g)
unfolding ixp_pfcall
Unpacks-pfcall size junk f g hs h arr = Unpacks-bind _ _ (Unpacks-pu8 g.type f.type h.type) (
    Unpacks-bind _ _ (Unpacks-pu16 g.tag f.tag h.tag) (
      Unpacks-pfcall_arm size junk (ftype f.type) f (record g { type = f.type; tag = f.tag }) hs
        h.body (record { names = arr.names; qids = arr.qids })))
