-- ===== src/Request/Settled.antt =====
-- The first switch of ixp_respond (lib/libixp/request.c) where it destroys a fid.
use libixp.Prelude.{
  ℕ, ◌<◌, ◌≡◌, refl, ◌||◌, Option, none, some, get_or, ◌==◌, ltb, if◌then◌else◌, Bool-cases, inl,
  inr,
}
use libixp.Wire.Types.{FType, t_attach, t_walk, t_remove, t_clunk}
use libixp.Request.{Fid, Req, Conn, Error}
use libixp.Request.Fids.{IsConn}
use libixp.Request.Destroy.{Destroyed, destroyfid-Destroyed}
use libixp.Request.Respond.{
  Stage, stage, is_error, destroy_live, destroy_if, walk_short, settle_walk, settle,
}

-- The fid that does not outlive the answer: that of a clunk, a remove or a failed attach, and the new
-- one of a walk that fails or stops short.
abbrev pub doomed : FType → Req → Option Error → Option ℕ
doomed t_attach r (some e) = r.fid
doomed t_walk r e =
    if is_error e || ltb r.ofcall.nwqid r.ifcall.nwname
    then if r.ifcall.fid == r.ifcall.newfid then none else r.newfid
    else none
doomed t_remove r e = r.fid
doomed t_clunk r e = r.fid
doomed _ r e = none

-- The stage keeps the request, and the fid is destroyed.
abbrev pub Dooms : ℕ → Req → Conn → Stage → Type 0
Dooms fid r c s =
    (e : Option Error) × (res : ℕ) × (c' : Conn) × (s ≡ some (r, e, c')) × Destroyed fid c res c'

module _ (junk : ℕ) (r : Req) (c : Conn) (h : IsConn c) (lt : 1 < c.ref) (p : ℕ) (f : Fid)
    (live : get_or c.fids p none ≡ some f) where
  pub staged :
      (e : Option Error) (o : Option ℕ)
      → o ≡ some p
      → (res : ℕ) × (c' : Conn) × (stage r e (destroy_if o c) ≡ some (r, e, c'))
        × Destroyed f.fid c res c'
  unfolding destroy_if destroy_live
  staged e o eq =
      let (res, c', d, des) = destroyfid-Destroyed c h f.fid lt in
      (res, c', rw (eq, live, d) refl, des)

  stage-Dooms :
      (e : Option Error) (o : Option ℕ) → o ≡ some p → Dooms f.fid r c (stage r e (destroy_if o c))
  stage-Dooms e o eq = let (res, c', d, des) = staged e o eq in (e, res, c', d, des)

  walk-Dooms : (e : Option Error) → doomed t_walk r e ≡ some p → Dooms f.fid r c (settle_walk r e c)
  unfolding settle_walk walk_short
  walk-Dooms e eq =
      let short = is_error e || ltb r.ofcall.nwqid r.ifcall.nwname in
      elim (Bool-cases short) [
        | inl s ↦ elim (Bool-cases (r.ifcall.fid == r.ifcall.newfid)) [
          | inl n ↦ absurd (cc (eq, s, n))
          | inr n ↦ rw (s, n) (stage-Dooms _ r.newfid (cc (eq, s, n)))
        ]
        | inr s ↦ absurd (cc (eq, s))
      ]

  -- On a connection whose map of fids is well formed, with a reference beside the fid's, the first
  -- switch of ixp_respond destroys the fid of a clunk, a remove or a failed attach, and the new fid of
  -- a walk to another number that fails or stops short: its number, and no other, is free again,
  -- the fid is freed with its reference, and the request and the rest of the connection stay, the
  -- connection well formed.
  pub settle-Dooms :
      (t : FType) (e : Option Error) → doomed t r e ≡ some p → Dooms f.fid r c (settle junk t r e c)
  unfolding settle
  settle-Dooms t_attach none eq = absurd (cc eq)
  settle-Dooms t_attach (some x) eq = stage-Dooms (some x) r.fid eq
  settle-Dooms t_remove e eq = stage-Dooms e r.fid eq
  settle-Dooms t_clunk e eq = stage-Dooms e r.fid eq
  settle-Dooms t_walk e eq = walk-Dooms e eq
  settle-Dooms _ e eq = absurd (cc eq)
