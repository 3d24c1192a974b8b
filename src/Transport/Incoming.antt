-- ===== src/Transport/Incoming.antt =====
-- lib/libixp/transport.c: mread, readn and ixp_recvmsg. The file descriptor is the bytes that are still
-- to come and the results of thread->read: `wrote k` reads suc k bytes if so many are asked for and
-- there, and fails at the end of the bytes.
mod Reads
mod Whole
mod Tests
use libixp.Prelude.{
  ℕ, zero, suc, ◌+◌, ◌-◌, ◌%◌, ◌^◌, ◌||◌, List, [], ◌∷◌, Option, none, some, take, drop, length,
  overwrite, ◌==◌, ltb, if◌then◌else◌,
}
use libixp.Wire.Msg.{Msg, msg_unpack}
use libixp.Wire.Convert.{ixp_pu32}
use libixp.Transport.{Write, wrote, interrupted, failed, at_most}

-- The result, the message, and what is left of the descriptor.
pub record Received : Type 0 where
  pub result : ℕ
  pub msg : Msg
  pub stream : List ℕ
  pub reads : List Write

-- A read of `bytes` to the message's position, out of `num` that are wanted.
abbrev pub store_bytes : List ℕ → Msg → Msg
store_bytes bytes m = record m { buf = overwrite m.pos bytes m.buf; pos = m.pos + length bytes }

-- The loop of readn with mread; the result is `num`. A full buffer ends it like an error that is not
-- EINTR, and so does the end of the bytes. `none` if it is still running after all results.
unfoldable pub readn_loop : List Write → ℕ → Msg → List ℕ → Option Received
readn_loop [] num m s =
    if num == 0 then some (record { result = num; msg = m; stream = s; reads = [] }) else none
readn_loop (wrote k ∷ ws) num m s =
    let n = at_most num (m.end - m.pos) in
    let r = at_most (suc k) n in
    let bytes = take r s in
    let rest = readn_loop ws (num - length bytes) (store_bytes bytes m) (drop r s) in
    if num == 0
    then some (record { result = num; msg = m; stream = s; reads = wrote k ∷ ws })
    else if (n == 0) || (length bytes == 0)
    then some (record { result = num; msg = m; stream = s; reads = ws })
    else rest
readn_loop (interrupted ∷ ws) num m s =
    let rest = readn_loop ws num m s in
    if num == 0
    then some (record { result = num; msg = m; stream = s; reads = interrupted ∷ ws })
    else rest
readn_loop (failed ∷ ws) num m s =
    if num == 0
    then some (record { result = num; msg = m; stream = s; reads = failed ∷ ws })
    else some (record { result = num; msg = m; stream = s; reads = ws })

-- `count - num`
abbrev pub read_of : ℕ → Option Received → Option Received
read_of count none = none
read_of count (some r) = some (record r { result = count - r.result })

unfoldable pub readn : List Write → ℕ → Msg → List ℕ → Option Received
unfolding readn_loop
readn ws count m s = read_of count (readn_loop ws count m s)

-- The end of ixp_recvmsg, by what the second readn did.
unfoldable pub received_body : ℕ → Option Received → Option Received
received_body msize none = none
received_body msize (some r) =
    if r.result == msize - 4
    then some (record r { result = msize; msg = record r.msg { end = r.msg.pos } })
    else some (record r { result = 0 })

-- From ixp_pu32 on, by its result.
unfoldable pub received_size : Received → Option (ℕ × Msg) → Option Received
unfolding received_body readn
received_size r none = none
received_size r (some (msize, m)) =
    if ltb msize 4
    then some (record r { result = 0; msg = m })
    else if ltb ((m.end - m.pos) % 2 ^ 32) (msize - 4)
    then some (record r { result = 0; msg = m })
    else received_body msize (readn r.reads (msize - 4) m r.stream)

-- By what the first readn did; `junk` is what `msize` holds before.
unfoldable pub received_head : ℕ → Option Received → Option Received
unfolding received_size
received_head junk none = none
received_head junk (some r) =
    if r.result == 4
    then received_size r (ixp_pu32 junk (record r.msg { pos = 0 }))
    else some (record r { result = 0 })

unfoldable pub ixp_recvmsg : ℕ → List Write → Msg → List ℕ → Option Received
unfolding received_head
ixp_recvmsg junk ws m s =
    received_head junk (readn ws 4 (record m { mode = msg_unpack; pos = 0; end = m.size }) s)
