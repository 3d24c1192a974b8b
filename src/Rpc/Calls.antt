-- ===== src/Rpc/Calls.antt =====
-- lib/libixp/rpc.c: a call from its request to its answer, in one thread. The outer `none` is a wait
-- for another thread or for the descriptor, a call of abort, or a failed assertion.
use libixp.Prelude.{
  ℕ, zero, suc, ◌-◌, ◌%◌, ◌^◌, Bool, true, false, List, ◌++◌, Option, none, some, get_or, ◌==◌,
  if◌then◌else◌,
}
use libixp.Samples.{zeroed}
use libixp.Wire.Types.{Fcall}
use libixp.Wire.Msg.{Msg}
use libixp.Wire.Message.{Coded, ixp_fcall2msg, ixp_msg2fcall}
use libixp.Transport.{Write, Sent, ixp_sendmsg}
use libixp.Transport.Incoming.{Received, ixp_recvmsg}
use libixp.Request.Answer.{head_writes, tail_writes}
use libixp.Rpc.{
  Mux, no_rpc, on_rpc, initrpc, enqueue, dequeue, gettag, puttag, dispatch_fcall, electmuxer,
}

-- A client's calls, messages and descriptor: the results of the writes of each ixp_sendmsg to come, the
-- bytes written, the bytes to come and the results of the reads.
pub record Line : Type 0 where
  pub mux : Mux
  pub wmsg : Msg
  pub writes : List (List Write)
  pub sent : List ℕ
  pub rmsg : Msg
  pub stream : List ℕ
  pub reads : List Write

-- What is not in the code: whether realloc succeeds, and what is on the stack.
pub record Chance : Type 0 where
  pub can_grow : Bool
  pub junk : ℕ
  pub junk_async : Bool

abbrev with_mux : Bool → Line → Option Mux → Option (Bool × Line)
with_mux ok l none = none
with_mux ok l (some m) = some (ok, record l { mux = m })

-- The end of a request that could not be sent.
unfoldable pub give_up : ℕ → Line → Option (Bool × Line)
give_up q l = with_mux false l (puttag q (dequeue q l.mux))

unfoldable pub sent_call : ℕ → Line → Option Sent → Option (Bool × Line)
unfolding give_up
sent_call q l none = none
sent_call q l (some s) =
    let l' : Line = record l {
      wmsg = s.msg;
      writes = tail_writes l.writes;
      sent = l.sent ++ s.bytes;
    } in
    if s.result == 0 then give_up q l' else some (true, l')

unfoldable pub packed_call : ℕ → Line → Option Coded → Option (Bool × Line)
unfolding sent_call give_up
packed_call q l none = none
packed_call q l (some d) =
    if d.result == 0
    then give_up q (record l { wmsg = d.msg })
    else sent_call q l (ixp_sendmsg (head_writes l.writes) d.msg)

-- With the tag that gettag gave. `r->tag` is a `uint`, which is not below 0, so its -1 goes on as
-- 2 ^ 32 - 1. The Fcall's tag is 16 bits.
unfoldable pub tagged_call :
    Chance → ℕ → Fcall → Line → Option (Option ℕ × Mux) → Option (Bool × Line)
unfolding packed_call
tagged_call h q f l none = none
tagged_call h q f l (some (none, m)) =
    packed_call q (record l { mux = enqueue q (on_rpc q (λ r. record r { tag = 2 ^ 32 - 1 }) m) })
      (ixp_fcall2msg h.junk l.wmsg (record f { tag = 65535 }))
tagged_call h q f l (some (some t, m)) =
    packed_call q (record l { mux = enqueue q m })
      (ixp_fcall2msg h.junk l.wmsg (record f { tag = t % 2 ^ 16 }))

unfoldable pub sendrpc : Chance → ℕ → Fcall → Line → Option (Bool × Line)
unfolding tagged_call
sendrpc h q f l = tagged_call h q f l (gettag h.can_grow q l.mux)

unfoldable pub unpacked_answer : Line → Option Coded → Option (Option Fcall × Line)
unpacked_answer l none = none
unpacked_answer l (some d) =
    some (if d.result == 0 then none else some d.fcall, record l { rmsg = d.msg })

unfoldable pub received_answer : Chance → Line → Option Received → Option (Option Fcall × Line)
unfolding unpacked_answer
received_answer h l none = none
received_answer h l (some r) =
    let l' : Line = record l { rmsg = r.msg; stream = r.stream; reads = r.reads } in
    if r.result == 0
    then some (none, l')
    else unpacked_answer l' (ixp_msg2fcall h.junk r.msg zeroed)

unfoldable pub muxrecv : Chance → Line → Option (Option Fcall × Line)
unfolding received_answer
muxrecv h l = received_answer h l (ixp_recvmsg h.junk l.reads l.rmsg l.stream)

-- What the loop of muxrpc does with what muxrecv returns; `again` is the next turn.
unfoldable pub mux_turn : ℕ → (Line → Option Line) → Option (Option Fcall × Line) → Option Line
mux_turn q again none = none
mux_turn q again (some (none, l)) = some (record l { mux = dequeue q l.mux })
mux_turn q again (some (some p, l)) = again (record l { mux = dispatch_fcall p l.mux })

abbrev pub is_some : Option Fcall → Bool
is_some none = false
is_some (some f) = true

abbrev pub answer_of : ℕ → Line → Option Fcall
answer_of q l = (get_or l.mux.rpcs q no_rpc).p

-- `while(!r.p)`, on fuel.
unfoldable pub mux_loop : ℕ → Chance → ℕ → Line → Option Line
unfolding mux_turn
mux_loop zero h q l = none
mux_loop (suc fuel) h q l =
    let next = mux_turn q (mux_loop fuel h q) (muxrecv h l) in
    if is_some (answer_of q l) then some l else next

abbrev elected : Option Line → Option Line
elected none = none
elected (some l) = some (record l { mux = electmuxer l.mux })

-- As the muxer, if there is no answer at hand.
unfoldable pub mux_until : ℕ → Chance → ℕ → Line → Option Line
unfolding mux_loop
mux_until fuel h q l =
    if is_some (answer_of q l)
    then some l
    else elected (mux_loop fuel h q (record l { mux = record l.mux { muxer = some q } }))

-- `p = r.p; puttag(mux, &r)`
abbrev with_answer : Option Fcall → Line → Option Mux → Option (Option Fcall × Line)
with_answer p l none = none
with_answer p l (some m) = some (p, record l { mux = m })

unfoldable pub end_call : ℕ → Option Line → Option (Option Fcall × Line)
end_call q none = none
end_call q (some l) = with_answer (answer_of q l) l (puttag q l.mux)

-- muxrpc behind sendrpc; `muxer` is nil, since no other call is under way.
unfoldable pub wait_answer : ℕ → Chance → ℕ → Option (Bool × Line) → Option (Option Fcall × Line)
unfolding end_call mux_until
wait_answer fuel h q none = none
wait_answer fuel h q (some (false, l)) = some (none, l)
wait_answer fuel h q (some (true, l)) = end_call q (mux_until fuel h q l)

unfoldable pub muxrpc : ℕ → Chance → Fcall → Line → Option (Option Fcall × Line)
unfolding wait_answer sendrpc
muxrpc fuel h f l =
    let (q, m) = initrpc h.junk_async l.mux in
    wait_answer fuel h q (sendrpc h q f (record l { mux = m }))
