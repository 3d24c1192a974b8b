-- ===== src/Request/Answer.antt =====
-- ixp_respond of lib/libixp/request.c from its TFlush case on. The hook ixp_printfcall and the locks
-- are left out; `none` is also a descriptor whose results have run out.
pub mod Deliver
mod Clunk
mod Flush
mod Tests
use libixp.Prelude.{
  ℕ, zero, suc, ◌+◌, ◌%◌, List, [], ◌∷◌, ◌++◌, Option, none, some, get_or, set, ◌==◌, if◌then◌else◌,
}
use libixp.Map.{ixp_mapget, ixp_maprm}
use libixp.Wire.Types.{Fcall, ftype}
use libixp.Wire.Message.{Coded, ixp_fcall2msg}
use libixp.Transport.{Write, Sent, ixp_sendmsg}
use libixp.Request.{Req, Conn, Error, eintr, decref_p9conn}
use libixp.Request.Respond.{Stage, settle, text}

-- The tag and the type of the answer; RError is 107.
unfoldable pub answered : Req → Option Error → Req
answered r none = record r {
  ofcall = record r.ofcall { tag = r.ifcall.tag; type = (r.ifcall.type + 1) % 256 };
}
answered r (some e) = record r {
  ofcall = record r.ofcall { tag = r.ifcall.tag; type = 107; ename = text e };
}

abbrev pub head_writes : List (List Write) → List Write
head_writes [] = []
head_writes (ws ∷ rest) = ws

abbrev pub tail_writes : List (List Write) → List (List Write)
tail_writes [] = []
tail_writes (ws ∷ rest) = rest

-- `ixp_sendmsg(...) != msize`, by what ixp_sendmsg did.
unfoldable pub sent_all : (Conn → Option Conn) → ℕ → Conn → Option Sent → Option Conn
sent_all hangup n c none = none
sent_all hangup n c (some s) =
    let c' : Conn = record c {
      wmsg = s.msg;
      writes = tail_writes c.writes;
      sent = c.sent ++ s.bytes;
    } in
    if s.result == n then some c' else hangup c'

-- `msize == 0`, by what ixp_fcall2msg did.
unfoldable pub send_packed : (Conn → Option Conn) → Conn → Option Coded → Option Conn
unfolding sent_all
send_packed hangup c none = none
send_packed hangup c (some d) =
    if d.result == 0
    then hangup (record c { wmsg = d.msg })
    else sent_all hangup d.result c (ixp_sendmsg (head_writes c.writes) d.msg)

-- `hangup` is ixp_hangup(p9conn->conn), and `size` what is on the stack.
unfoldable pub transmit : (Conn → Option Conn) → ℕ → Fcall → Conn → Option Conn
unfolding send_packed
transmit hangup size f c =
    if c.has_conn then send_packed hangup c (ixp_fcall2msg size c.wmsg f) else some c

-- free(req) and decref_p9conn.
unfoldable pub free_live : ℕ → Conn → Option Req → Option Conn
free_live q c none = none
free_live q c (some r) = decref_p9conn (record c { reqs = set c.reqs q none })

unfoldable pub release : ℕ → Option Conn → Option Conn
unfolding free_live
release q none = none
release q (some c) = free_live q c (get_or c.reqs q none)

-- What follows the first switch.
unfoldable pub deliver : (Conn → Option Conn) → ℕ → ℕ → Stage → Option Conn
unfolding answered transmit release
deliver hangup size q none = none
deliver hangup size q (some (r, e, c)) = release q (
    transmit hangup size (answered r e).ofcall
      (record c { tagmap = (ixp_maprm c.tagmap r.ifcall.tag).1 }))

-- The request as the inner ixp_respond has left it.
unfoldable pub reread : Option Error → Conn → Option Req → Stage
reread e c none = none
reread e c (some r) = some (r, e, c)

unfoldable pub resume : ℕ → Option Error → Option Conn → Stage
unfolding reread
resume q e none = none
resume q e (some c) = reread e c (get_or c.reqs q none)

-- The TFlush case, by the pointer that is under the old tag; `again` is ixp_respond, and `none` what
-- that gives where it does not return.
unfoldable pub settle_flush :
    (ℕ → Option Error → Conn → Option Conn) → ℕ → Req → Option Error → Conn → Option ℕ → Stage
unfolding resume
settle_flush again q r e c none = some (record r { oldreq = none }, e, c)
settle_flush again q r e c (some p) =
    resume q e (
      again p (some eintr) (record c { reqs = set c.reqs q (some (record r { oldreq = some p })) }))

unfoldable pub respond_to :
    ℕ
    → (Conn → Option Conn)
    → ℕ
    → (ℕ → Option Error → Conn → Option Conn)
    → ℕ
    → Option Error
    → Conn
    → Option Req
    → Option Conn
unfolding settle_flush deliver
respond_to junk hangup size again q e c none = none
respond_to junk hangup size again q e c (some r) = deliver hangup size q (
    if r.ifcall.type == 108
    then settle_flush again q r e c (ixp_mapget c.tagmap r.ifcall.oldtag)
    else settle junk (ftype r.ifcall.type) r e c)

-- On fuel: the depth of the calls of ixp_respond for an old request.
unfoldable pub ixp_respond :
    ℕ → (Conn → Option Conn) → ℕ → ℕ → ℕ → Option Error → Conn → Option Conn
unfolding respond_to
ixp_respond junk hangup size zero q e c = none
ixp_respond junk hangup size (suc fuel) q e c =
    respond_to junk hangup size (ixp_respond junk hangup size fuel) q e c (get_or c.reqs q none)
