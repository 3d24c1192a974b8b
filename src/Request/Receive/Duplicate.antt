-- ===== src/Request/Receive/Duplicate.antt =====
-- A request whose tag is in use (handlefcall in lib/libixp/request.c).
use libixp.Prelude.{
  ℕ, suc, ◌+◌, ◌<◌, ◌≡◌, ◌≢◌, refl, ap, ◌∙◌, Bool, Bool-cases, inl, inr, true, false, List, [], ◌∷◌,
  ◌++◌, Option, none, some, get_or, set, length, ◌==◌, ==_iff, if◌then◌else◌, arith,
}
use libixp.Map.{IxpMap, ixp_mapinsert}
use libixp.Map.Refine.{view, IsMap, mapinsert_lem}
use libixp.Wire.Types.{Fcall, FType, ftype, t_version, t_walk}
use libixp.Wire.Msg.{Msg}
use libixp.Wire.Message.{Coded, ixp_msg2fcall}
use libixp.Wire.RoundTrip.{message_bytes}
use libixp.Samples.{zeroed, zero_req}
use libixp.Request.{Req, Conn, Error, eduptag}
use libixp.Request.Respond.{settle, settle_walk, walk_short, destroy_if}
use libixp.Request.Answer.{answered, ixp_respond}
use libixp.Request.Answer.Deliver.{CanSend, respond-Delivered}
use libixp.Request.Receive.{Service, begin, accept, decoded, handlefcall, cleanupconn}

-- The request that is made for a message, and the connection with it.
abbrev pub req_of : Fcall → Req
req_of f = record zero_req { ifcall = f }

abbrev pub with_req : Fcall → Conn → Conn
with_req f c = record c { ref = c.ref + 1; reqs = c.reqs ++ some (req_of f) ∷ []; has_conn = true }

begin-false :
    (s : Service) (q : ℕ) (c : Conn) (x : Bool × IxpMap ℕ)
    → x.0 ≡ false
    → begin s q c x
      ≡ ixp_respond s.junk
          (cleanupconn s)
          s.size
          s.depth
          q
          (some eduptag)
          (record c { tagmap = x.1 })
unfolding begin
begin-false s q c (true, m) h = absurd (cc h)
begin-false s q c (false, m) h = refl

last_req : (xs : List (Option Req)) (r : Req) → get_or (xs ++ some r ∷ []) (length xs) none ≡ some r
last_req [] r = refl
last_req (x ∷ xs) r = last_req xs r

set-last :
    (xs : List (Option Req)) (r : Req) → set (xs ++ some r ∷ []) (length xs) none ≡ xs ++ none ∷ []
set-last [] r = refl
set-last (x ∷ xs) r = ap (λ l. x ∷ l) (set-last xs r)

-- An error is answered to a request without fids as it is.
settle_fresh :
    (junk : ℕ) (t : FType) (f : Fcall) (e : Error) (c : Conn)
    → t ≢ t_version
    → settle junk t (req_of f) (some e) c ≡ some (req_of f, some e, c)
unfolding settle settle_walk walk_short destroy_if
settle_fresh junk t_version f e c ne = absurd (ne refl)
settle_fresh junk t_walk f e c ne = elim (Bool-cases (f.fid == f.newfid)) [
  | inl t ↦ rw t refl
  | inr t ↦ rw t refl
]
settle_fresh junk _ f e c ne = refl

-- The connection after the refusal: its tag is free, though the first request still waits.
pub record Refused (f : Fcall) (bs : List ℕ) (c c' : Conn) : Type 0 where
  pub sent : c'.sent ≡ c.sent ++ bs
  pub tags : (j : ℕ) → view c'.tagmap j ≡ (if f.tag == j then none else view c.tagmap j)
  pub reqs : c'.reqs ≡ c.reqs ++ none ∷ []
  pub ref : c'.ref ≡ c.ref
  pub fids : c'.fids ≡ c.fids

-- The answer: an RError with the request's tag and the text `tag in use`.
abbrev pub refusal : Fcall → Fcall
refusal f = record zeroed {
  type = 107;
  tag = f.tag;
  ename = b't' ∷ b'a' ∷ b'g' ∷ b' ' ∷ b'i' ∷ b'n' ∷ b' ' ∷ b'u' ∷ b's' ∷ b'e' ∷ [];
}

-- TVersion is 100.
not_version : (f : Fcall) → ftype f.type ≢ t_version → (f.type == 100) ≡ false
unfolding ftype
not_version f ne = elim (Bool-cases (f.type == 100)) [
  | inl t ↦ absurd (ne (ap ftype ((==_iff f.type 100).0 t)))
  | inr t ↦ t
]

module _ (s : Service) (f : Fcall) (c : Conn) (ok : IsMap c.tagmap) (q : Option ℕ)
    (used : view c.tagmap f.tag ≡ some q) where
  refused : (ixp_mapinsert c.tagmap f.tag (some (length c.reqs)) false).0 ≡ false
  refused =
      let (_, res, _) = mapinsert_lem c.tagmap ok f.tag (some (length c.reqs)) false in
      res ∙ rw used refl

  abbrev after_insert : Conn
  after_insert = record (with_req f c) {
    tagmap = (ixp_mapinsert c.tagmap f.tag (some (length c.reqs)) false).1;
  }

  -- The entry that is removed hides whatever stood there.
  tag_free :
      (j : ℕ) (x : Option (Option ℕ))
      → view after_insert.tagmap j ≡ (if f.tag == j then x else view c.tagmap j)
      → (if f.tag == j then none else view after_insert.tagmap j)
        ≡ (if f.tag == j then none else view c.tagmap j)
  tag_free j x e = elim (Bool-cases (f.tag == j)) [ inl t ↦ rw t refl | inr t ↦ rw t (cc (e, t)) ]

  accept-Refused :
      (depth : ℕ)
      → s.depth ≡ suc depth
      → (f.type == 108) ≡ false
      → ftype f.type ≢ t_version
      → 0 < c.ref
      → CanSend s.size (refusal f) (with_req f c)
      → (c' : Conn) × (accept s f c ≡ some c') × Refused f (message_bytes s.size (refusal f)) c c'
  unfolding accept answered
  accept-Refused depth deep other nv lt can =
      let (map_ok, _, views) = mapinsert_lem c.tagmap ok f.tag (some (length c.reqs)) false in
      let can' : CanSend s.size (refusal f) after_insert = record {
        connected = refl;
        small = can.small;
        buffer = can.buffer;
        packable = can.packable;
        room = can.room;
        no_failure = can.no_failure;
        enough = can.enough;
      } in
      let live = last_req c.reqs (req_of f) in
      let (c', sends, del) =
        respond-Delivered s.junk (cleanupconn s) s.size depth (length c.reqs) (some eduptag)
          after_insert (req_of f) (req_of f) (some eduptag) after_insert live other
          (settle_fresh s.junk (ftype f.type) f eduptag after_insert nv) map_ok live
          (omega (arith, lt)) can' in
      (
        c',
        begin-false s (length c.reqs) (with_req f c)
              (ixp_mapinsert c.tagmap f.tag (some (length c.reqs)) false) refused
            ∙ ap
                (λ d.
                  ixp_respond s.junk (cleanupconn s) s.size d (length c.reqs) (some eduptag)
                    after_insert)
                deep
            ∙ sends,
        record {
          sent = del.sent;
          tags = λ j. del.tags j ∙ tag_free j _ (views j);
          reqs = del.reqs ∙ set-last c.reqs (req_of f);
          ref = omega (arith, del.ref);
          fids = del.fids;
        },
      )

-- A message that decodes to a request other than a version or a flush whose tag is in use, on a
-- connection with a reference: handlefcall answers it with an RError with its tag and the text `tag in
-- use`, if the answer fits the buffer and no write fails, and frees the new request. The entry that it
-- removes from the map of tags is the first request's.
pub handlefcall-Refused :
    (s : Service) (m : Msg) (d : Coded) (c : Conn) (q : Option ℕ) (depth : ℕ)
    → ixp_msg2fcall s.size m zeroed ≡ some d
    → d.result ≢ 0
    → IsMap c.tagmap
    → view c.tagmap d.fcall.tag ≡ some q
    → s.depth ≡ suc depth
    → (d.fcall.type == 108) ≡ false
    → ftype d.fcall.type ≢ t_version
    → 0 < c.ref
    → CanSend s.size (refusal d.fcall) (with_req d.fcall c)
    → (c' : Conn) × (handlefcall s (some m) c ≡ some c')
      × Refused d.fcall (message_bytes s.size (refusal d.fcall)) c c'
unfolding handlefcall decoded
handlefcall-Refused s m d c q depth dec some_bytes ok used deep other nv lt can =
    let (c', runs, ref) = accept-Refused s d.fcall c ok q used depth deep other nv lt can in
    let read : (d.result == 0) ≡ false = ground (arith, some_bytes) in
    (c', ap (decoded s c) dec ∙ rw (decoded, read, not_version d.fcall nv) runs, ref)
