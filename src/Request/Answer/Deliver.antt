-- ===== src/Request/Answer/Deliver.antt =====
-- What ixp_respond (lib/libixp/request.c) sends and releases.
use libixp.Prelude.{
  ℕ, suc, ◌+◌, ◌-◌, ◌^◌, ◌≤◌, ◌<◌, ◌≡◌, refl, sym, ap, ◌∙◌, true, false, List, ◌++◌, Option, none,
  some, get_or, set, ◌==◌, if◌then◌else◌, arith, length, take, lt→ltb, ==_iff, Bool-cases, inl, inr,
}
use libixp.Map.{ixp_maprm}
use libixp.Map.Refine.{view, IsMap, maprm_lem}
use libixp.Wire.Types.{Fcall, ftype}
use libixp.Wire.Message.{Coded, ixp_fcall2msg}
use libixp.Wire.Message.Bytes.{IsFcall}
use libixp.Wire.RoundTrip.{IsBuffer, message_bytes, length-message_bytes, Holds, fcall2msg-Holds}
use libixp.Transport.Send.{settled, NoFailure, sendmsg_all}
use libixp.Request.{Req, Conn, Error, decref_p9conn}
use libixp.Request.Respond.{settle}
use libixp.Request.Answer.{
  answered, head_writes, tail_writes, sent_all, send_packed, transmit, free_live, release, deliver,
  respond_to, ixp_respond,
}

-- The answer fits the buffer of the connection, and no write fails.
pub record CanSend (size : ℕ) (f : Fcall) (c : Conn) : Type 0 where
  pub connected : c.has_conn ≡ true
  pub small : size < 2 ^ 16
  pub buffer : IsBuffer c.wmsg
  pub packable : IsFcall f
  pub room : length (message_bytes size f) ≤ c.wmsg.size
  pub no_failure : NoFailure (head_writes c.writes)
  pub enough : length (message_bytes size f) ≤ settled (head_writes c.writes)

-- The bytes that are written, and no other change but to the buffer and the descriptor.
pub record Transmitted (bs : List ℕ) (c c' : Conn) : Type 0 where
  pub sent : c'.sent ≡ c.sent ++ bs
  pub writes : c'.writes ≡ tail_writes c.writes
  pub tagmap : c'.tagmap ≡ c.tagmap
  pub reqs : c'.reqs ≡ c.reqs
  pub ref : c'.ref ≡ c.ref
  pub fidmap : c'.fidmap ≡ c.fidmap
  pub fids : c'.fids ≡ c.fids

module _ (hangup : Conn → Option Conn) (size : ℕ) (f : Fcall) (c : Conn)
    (can : CanSend size f c) where
  packed_sent :
      (d : Coded)
      → Holds (message_bytes size f) d
      → (c' : Conn) × (send_packed hangup c (some d) ≡ some c')
        × Transmitted (message_bytes size f) c c'
  unfolding send_packed sent_all
  packed_sent d h =
      let bs = message_bytes size f in
      let n = length-message_bytes size f in
      let some_bytes : (d.result == 0) ≡ false = elim (Bool-cases (d.result == 0)) [
        | inl t ↦ absurd (omega (arith, (==_iff d.result 0).0 t, h.result, n))
        | inr t ↦ t
      ] in
      let (s, e, r, b) =
        sendmsg_all (head_writes c.writes) d.msg can.no_failure
          (omega (arith, h.end, can.enough)) in
      let same : (s.result == d.result) ≡ true =
        (==_iff s.result d.result).1 (r ∙ h.end ∙ sym h.result) in
      (
        record c { wmsg = s.msg; writes = tail_writes c.writes; sent = c.sent ++ s.bytes },
        rw (some_bytes, e, same) refl,
        record {
          sent = ap (λ l. c.sent ++ l) (b ∙ ap (λ k. take k d.msg.buf) h.end ∙ h.bytes);
          writes = refl;
          tagmap = refl;
          reqs = refl;
          ref = refl;
          fidmap = refl;
          fids = refl;
        },
      )

  transmit-Transmitted :
      (c' : Conn) × (transmit hangup size f c ≡ some c') × Transmitted (message_bytes size f) c c'
  unfolding transmit
  transmit-Transmitted =
      let (d, e, holds, same) =
        fcall2msg-Holds size c.wmsg f can.small can.buffer can.packable can.room in
      let (c', sends, t) = packed_sent d holds in
      (
        c',
        ap (λ b. if b then send_packed hangup c (ixp_fcall2msg size c.wmsg f) else some c)
              can.connected
            ∙ ap (send_packed hangup c) e
            ∙ sends,
        t,
      )

-- The request is freed with its reference, its tag is free again, and the answer is written.
pub record Delivered (tag q : ℕ) (bs : List ℕ) (c c' : Conn) : Type 0 where
  pub sent : c'.sent ≡ c.sent ++ bs
  pub writes : c'.writes ≡ tail_writes c.writes
  pub tags_ok : IsMap c'.tagmap
  pub tags : (j : ℕ) → view c'.tagmap j ≡ (if tag == j then none else view c.tagmap j)
  pub reqs : c'.reqs ≡ set c.reqs q none
  pub ref : c'.ref + 1 ≡ c.ref
  pub fidmap : c'.fidmap ≡ c.fidmap
  pub fids : c'.fids ≡ c.fids

release-some :
    (q : ℕ) (c : Conn) (r : Req)
    → get_or c.reqs q none ≡ some r
    → 1 < c.ref
    → release q (some c) ≡ some (record c { reqs = set c.reqs q none; ref = c.ref - 1 })
unfolding release free_live decref_p9conn
release-some q c r live lt = rw (live, lt→ltb 0 (c.ref - 1) (omega (arith, lt))) refl

module _ (junk : ℕ) (hangup : Conn → Option Conn) (size fuel q : ℕ) (e : Option Error) (c : Conn)
    (r : Req) (settled_r : Req) (settled_e : Option Error) (mid : Conn) where
  -- An answer to a request other than a flush, whose case of the first switch ends with a request, an
  -- error or none and a connection, that fits the buffer of the connection and of which no write
  -- fails, with the request still there and a reference beside its own: ixp_respond returns. The
  -- answer's bytes are written, the tag and no other is free again, the request is freed, one
  -- reference is dropped, and the fids are those that the first switch left.
  pub respond-Delivered :
      get_or c.reqs q none ≡ some r
      → (r.ifcall.type == 108) ≡ false
      → settle junk (ftype r.ifcall.type) r e c ≡ some (settled_r, settled_e, mid)
      → IsMap mid.tagmap
      → get_or mid.reqs q none ≡ some r
      → 1 < mid.ref
      → CanSend size (answered settled_r settled_e).ofcall mid
      → (c' : Conn) × (ixp_respond junk hangup size (suc fuel) q e c ≡ some c')
        × Delivered settled_r.ifcall.tag q
            (message_bytes size (answered settled_r settled_e).ofcall)
            mid
            c'
  unfolding ixp_respond respond_to deliver
  respond-Delivered live other settles tags_ok live' lt can =
      let f = (answered settled_r settled_e).ofcall in
      let rm = ixp_maprm mid.tagmap settled_r.ifcall.tag in
      let lem = maprm_lem mid.tagmap tags_ok settled_r.ifcall.tag in
      let m : Conn = record mid { tagmap = rm.1 } in
      let can' : CanSend size f m = record {
        connected = can.connected;
        small = can.small;
        buffer = can.buffer;
        packable = can.packable;
        room = can.room;
        no_failure = can.no_failure;
        enough = can.enough;
      } in
      let (c', sends, t) = transmit-Transmitted hangup size f m can' in
      let still : get_or c'.reqs q none ≡ some r = ap (λ l. get_or l q none) t.reqs ∙ live' in
      (
        record c' { reqs = set c'.reqs q none; ref = c'.ref - 1 },
        rw (live, other, settles, sends) (release-some q c' r still (omega (arith, lt, t.ref))),
        record {
          sent = t.sent;
          writes = t.writes;
          tags_ok = rw t.tagmap lem.0;
          tags = λ j. ap (λ x. view x j) t.tagmap ∙ lem.2 j;
          reqs = ap (λ l. set l q none) t.reqs;
          ref = omega (arith, lt, t.ref);
          fidmap = t.fidmap;
          fids = t.fids;
        },
      )
