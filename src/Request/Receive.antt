-- ===== src/Request/Receive.antt =====
-- handlefcall, cleanupconn and ixp_serve9conn_fd of lib/libixp/request.c.
mod Duplicate
mod Start
mod Tests
use libixp.Prelude.{
  ℕ, zero, suc, ◌+◌, ◌^◌, Bool, true, false, ◌&&◌, List, [], ◌∷◌, ◌++◌, Option, none, some, get_or,
  set, length, replicate, ◌==◌, ltb, if◌then◌else◌,
}
use libixp.Map.{IxpMap, ixp_mapinit, ixp_mapinsert, ixp_mapexec}
use libixp.Wire.Types.{Fcall}
use libixp.Wire.Msg.{Msg, msg_pack}
use libixp.Wire.Message.{Coded, ixp_msg2fcall}
use libixp.Transport.{Write}
use libixp.Samples.{zeroed, zero_req}
use libixp.Request.{Fid, Req, Conn, Next, Call, respond, call, Result, eduptag, decref_p9conn}
use libixp.Request.Handle.{handlereq}
use libixp.Request.Answer.{ixp_respond}

-- The parts that the program leaves open: which functions the service has and what each does with
-- the pointer to its request, what realloc adds, what is on the stack, and the depth of flushes.
pub record Service : Type 0 where
  pub has : Call → Bool
  pub serve : Call → ℕ → Conn → Option Conn
  pub junk : ℕ
  pub size : ℕ
  pub depth : ℕ

unfoldable pub run_next : (Conn → Option Conn) → Service → ℕ → Result → Option Conn
run_next hangup s q none = none
run_next hangup s q (some (respond e, r, c)) =
    ixp_respond s.junk hangup s.size s.depth q e (record c { reqs = set c.reqs q (some r) })
run_next hangup s q (some (call h, r, c)) = s.serve h q (record c { reqs = set c.reqs q (some r) })

-- handlereq on a pointer, with what it ends in.
unfoldable pub run_live : (Conn → Option Conn) → Service → ℕ → Conn → Option Req → Option Conn
unfolding run_next
run_live hangup s q c none = none
run_live hangup s q c (some r) = run_next hangup s q (handlereq s.has r c)

unfoldable pub run : (Conn → Option Conn) → Service → ℕ → Conn → Option Conn
unfolding run_live
run hangup s q c = run_live hangup s q c (get_or c.reqs q none)

-- The connection, and the requests of cleanupconn, from the last one made.
abbrev pub Pending : Type 0
Pending = Option (Conn × List ℕ)

-- What voidrequest and voidfid share: a request is made and put in front.
abbrev pub enlist : Req → Conn → List ℕ → Pending
enlist r c qs =
    some (record c { ref = c.ref + 1; reqs = c.reqs ++ some r ∷ [] }, length c.reqs ∷ qs)

-- IXP_NOTAG is 65535, TFlush 108 and TClunk 120.
unfoldable pub flush_live : Conn → List ℕ → Option Req → Pending
flush_live c qs none = none
flush_live c qs (some r) =
    enlist
      (record zero_req {
        ifcall = record zeroed { type = 108; tag = 65535; oldtag = r.ifcall.tag };
      })
      c qs

unfoldable pub voidrequest : Pending → Option ℕ → Pending
unfolding flush_live
voidrequest none q = none
voidrequest (some (c, qs)) none = none
voidrequest (some (c, qs)) (some q) = flush_live c qs (get_or c.reqs q none)

unfoldable pub clunk_live : Conn → List ℕ → ℕ → Option Fid → Pending
clunk_live c qs p none = none
clunk_live c qs p (some f) =
    enlist
      (record zero_req {
        fid = some p;
        ifcall = record zeroed { type = 120; tag = 65535; fid = f.fid };
      })
      c qs

unfoldable pub voidfid : Pending → Option ℕ → Pending
unfolding clunk_live
voidfid none p = none
voidfid (some (c, qs)) none = none
voidfid (some (c, qs)) (some p) = clunk_live c qs p (get_or c.fids p none)

-- ixp_hangup in a call of ixp_respond that finds no connection, where it is not reached.
abbrev pub no_hangup : Conn → Option Conn
no_hangup c = none

unfoldable pub run_all : Service → List ℕ → Option Conn → Option Conn
unfolding run
run_all s qs none = none
run_all s [] (some c) = some c
run_all s (q ∷ qs) (some c) = run_all s qs (run no_hangup s q c)

unfoldable pub clean : Service → Pending → Option Conn
unfolding run_all
clean s none = none
clean s (some (c, qs)) = run_all s qs (some c)

abbrev pub decref : Option Conn → Option Conn
decref none = none
decref (some c) = decref_p9conn c

abbrev pub void_requests : IxpMap ℕ → Pending → Pending
void_requests m s = ixp_mapexec m voidrequest s

abbrev pub void_all : Conn → Pending
void_all c =
    if ltb 1 c.ref
    then void_requests c.tagmap (ixp_mapexec c.fidmap voidfid (some (c, [])))
    else some (c, [])

unfoldable pub cleanupconn : Service → Conn → Option Conn
unfolding clean
cleanupconn s c = decref (clean s (void_all (record c { has_conn = false })))

-- The end of handlefcall, by the result of ixp_mapinsert.
unfoldable pub begin : Service → ℕ → Conn → Bool × IxpMap ℕ → Option Conn
unfolding run
begin s q c (true, m) = run (cleanupconn s) s q (record c { tagmap = m })
begin s q c (false, m) =
    ixp_respond s.junk (cleanupconn s) s.size s.depth q (some eduptag) (record c { tagmap = m })

unfoldable pub accept : Service → Fcall → Conn → Option Conn
unfolding begin
accept s f c =
    let q = length c.reqs in
    begin s q
      (record c {
        ref = c.ref + 1;
        reqs = c.reqs ++ some (record zero_req { ifcall = f }) ∷ [];
        has_conn = true;
      })
      (ixp_mapinsert c.tagmap f.tag (some q) false)

-- MIN_MSIZE is 25 and TVersion 100.
unfoldable pub decoded : Service → Conn → Option Coded → Option Conn
unfolding accept
decoded s c none = none
decoded s c (some d) =
    if d.result == 0
    then cleanupconn s c
    else if (d.fcall.type == 100) && ltb d.fcall.msize 25
    then cleanupconn s c
    else accept s d.fcall c

-- By the message that ixp_recvmsg leaves, or `none` if it returns 0. ixp_hangup is cleanupconn; the
-- server's list of connections is not part of this state.
unfoldable pub handlefcall : Service → Option Msg → Conn → Option Conn
unfolding decoded
handlefcall s none c = cleanupconn s c
handlefcall s (some m) c = decoded s c (ixp_msg2fcall s.size m zeroed)

-- What emallocz gives, and the stores that follow it; TAG_BUCKETS and FID_BUCKETS are 61.
abbrev pub new_conn : List (List Write) → Conn
new_conn writes = record {
  tagmap = ixp_mapinit 61;
  fidmap = ixp_mapinit 61;
  fids = [];
  reqs = [];
  ref = 1;
  has_conn = false;
  is_freed = false;
  rsize = 1024;
  wmsg = record { buf = replicate 1024 0; pos = 0; end = 0; size = 1024; mode = msg_pack };
  writes = writes;
  sent = [];
}

-- `listening` is whether ixp_listen returns a connection.
unfoldable pub ixp_serve9conn_fd : Bool → List (List Write) → Option Conn
ixp_serve9conn_fd true writes = some (new_conn writes)
ixp_serve9conn_fd false writes = decref_p9conn (new_conn writes)
