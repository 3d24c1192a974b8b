-- ===== src/Request/Answer/Clunk.antt =====
-- The answer to a clunk (lib/libixp/request.c).
use libixp.Prelude.{
  ℕ, suc, ◌+◌, ◌<◌, ◌≡◌, refl, ap, ◌∙◌, ◌++◌, Option, none, some, get_or, set, ◌==◌, if◌then◌else◌,
  arith,
}
use libixp.Map.Refine.{view, IsMap}
use libixp.Wire.Types.{Fcall, ftype}
use libixp.Wire.RoundTrip.{message_bytes}
use libixp.Request.{Fid, Req, Conn, Error}
use libixp.Request.Fids.{IsConn}
use libixp.Request.Destroy.{Destroyed}
use libixp.Request.Respond.{settle}
use libixp.Request.Settled.{staged}
use libixp.Request.Answer.{answered, ixp_respond}
use libixp.Request.Answer.Deliver.{CanSend, Delivered, respond-Delivered}

CanSend-same :
    (size : ℕ) (f : Fcall) (c m : Conn)
    → m.has_conn ≡ c.has_conn
    → m.wmsg ≡ c.wmsg
    → m.writes ≡ c.writes
    → CanSend size f c
    → CanSend size f m
CanSend-same size f c m conn wmsg writes can = record {
  connected = conn ∙ can.connected;
  small = can.small;
  buffer = rw wmsg can.buffer;
  packable = can.packable;
  room = rw wmsg can.room;
  no_failure = rw writes can.no_failure;
  enough = rw writes can.enough;
}

subst_tags : (c m : Conn) → m.tagmap ≡ c.tagmap → IsMap c.tagmap → IsMap m.tagmap
subst_tags c m e ok = rw e ok

-- What is left of the connection: the answer is written, the tag and the fid's number are free again,
-- the request and the fid are freed, and their references dropped.
pub record Clunked (tag fid p q : ℕ) (f : Fcall) (size : ℕ) (c c' : Conn) : Type 0 where
  pub sent : c'.sent ≡ c.sent ++ message_bytes size f
  pub tags : (j : ℕ) → view c'.tagmap j ≡ (if tag == j then none else view c.tagmap j)
  pub views : (j : ℕ) → view c'.fidmap j ≡ (if fid == j then none else view c.fidmap j)
  pub fid_freed : get_or c'.fids p none ≡ none
  pub req_freed : c'.reqs ≡ set c.reqs q none
  pub refs : c'.ref + 2 ≡ c.ref

-- The two ends of the fid are put together.
clunked :
    (fid tag p q : ℕ) (f : Fcall) (size : ℕ) (c mid c' : Conn) (res : ℕ)
    → view c.fidmap fid ≡ some (some p)
    → Destroyed fid c res mid
    → Delivered tag q (message_bytes size f) mid c'
    → Clunked tag fid p q f size c c'
clunked fid tag p q f size c mid c' res here des del =
    let one : res ≡ 1 = des.result ∙ rw here refl in
    record {
      sent = del.sent ∙ ap (λ (x : Conn). x.sent ++ message_bytes size f) des.rest;
      tags =
          λ j. del.tags j ∙ ap (λ (x : Conn). if tag == j then none else view x.tagmap j) des.rest;
      views = λ j. ap (λ x. view x j) del.fidmap ∙ des.views j;
      fid_freed = ap (λ l. get_or l p none) del.fids ∙ des.freed p here;
      req_freed = del.reqs ∙ ap (λ (x : Conn). set x.reqs q none) des.rest;
      refs = omega (arith, del.ref, des.refs, one);
    }

module _ (junk : ℕ) (hangup : Conn → Option Conn) (size fuel q p : ℕ) (e : Option Error) (c : Conn)
    (r : Req) (f : Fid) where
  -- An answer to a clunk that fits the connection's buffer and of which no write fails, with
  -- the request and the fid there and a reference beside theirs: ixp_respond returns. The answer's bytes
  -- are written, the tag and the number of the fid, and no other, are free again, the request and the
  -- fid are freed and two references dropped. It is so with an error, too.
  pub respond-Clunked :
      IsConn c
      → IsMap c.tagmap
      → get_or c.reqs q none ≡ some r
      → r.ifcall.type ≡ 120
      → r.fid ≡ some p
      → get_or c.fids p none ≡ some f
      → view c.fidmap f.fid ≡ some (some p)
      → 2 < c.ref
      → CanSend size (answered r e).ofcall c
      → (c' : Conn) × (ixp_respond junk hangup size (suc fuel) q e c ≡ some c')
        × Clunked r.ifcall.tag f.fid p q (answered r e).ofcall size c c'
  unfolding settle ftype
  respond-Clunked h ok req type fid live here lt can =
      let (res, mid, d, des) = staged junk r c h (omega (arith, lt)) p f live e r.fid fid in
      let one : res ≡ 1 = des.result ∙ rw here refl in
      let (c', sends, del) =
        respond-Delivered junk hangup size fuel q e c r r e mid req (ap (λ t. t == 108) type)
          (ap (λ t. settle junk (ftype t) r e c) type ∙ d)
          (subst_tags c mid (ap (λ (x : Conn). x.tagmap) des.rest) ok)
          (ap (λ (x : Conn). get_or x.reqs q none) des.rest ∙ req)
          (omega (arith, lt, des.refs, one))
          (CanSend-same size (answered r e).ofcall c mid (ap (λ (x : Conn). x.has_conn) des.rest)
            (ap (λ (x : Conn). x.wmsg) des.rest) (ap (λ (x : Conn). x.writes) des.rest) can) in
      (
        c',
        sends,
        clunked f.fid r.ifcall.tag p q (answered r e).ofcall size c mid c' res here des del,
      )
