-- ===== src/Transport.antt =====
-- lib/libixp/transport.c: ixp_sendmsg. The file descriptor is the sequence of the results of
-- thread->write.
pub mod Send
pub mod Incoming
mod Tests
use libixp.Prelude.{
  ℕ, suc, ◌+◌, ◌-◌, List, [], ◌∷◌, ◌++◌, Option, none, some, take, drop, ltb, if◌then◌else◌,
}
use libixp.Wire.Msg.{Msg}

-- A write of `n > 0` bytes writes at least one of them and at most all, here `suc k` if so many are
-- there; or it fails, by EINTR or by another error.
pub data Write : Type 0 where
  wrote : ℕ → Write
  interrupted failed : Write

-- The result, the message and the bytes written.
pub record Sent : Type 0 where
  pub result : ℕ
  pub msg : Msg
  pub bytes : List ℕ

abbrev pub at_most : ℕ → ℕ → ℕ
at_most k n = if ltb n k then n else k

-- The loop of ixp_sendmsg; `none` if it is still running after all results.
unfoldable pub send_loop : List Write → Msg → List ℕ → Option Sent
send_loop [] m out =
    if ltb m.pos m.end then none else some (record { result = m.pos; msg = m; bytes = out })
send_loop (wrote k ∷ ws) m out =
    let r = at_most (suc k) (m.end - m.pos) in
    let rest = send_loop ws (record m { pos = m.pos + r }) (out ++ take r (drop m.pos m.buf)) in
    if ltb m.pos m.end then rest else some (record { result = m.pos; msg = m; bytes = out })
send_loop (interrupted ∷ ws) m out =
    let rest = send_loop ws m out in
    if ltb m.pos m.end then rest else some (record { result = m.pos; msg = m; bytes = out })
send_loop (failed ∷ ws) m out =
    if ltb m.pos m.end
    then some (record { result = 0; msg = m; bytes = out })
    else some (record { result = m.pos; msg = m; bytes = out })

unfoldable pub ixp_sendmsg : List Write → Msg → Option Sent
ixp_sendmsg ws m = send_loop ws (record m { pos = 0 }) []
