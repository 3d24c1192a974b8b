-- ===== src/Transport/Send.antt =====
-- What ixp_sendmsg writes.
use libixp.Prelude.{
  take-take-drop, ℕ, suc, ◌+◌, ◌-◌, ◌≤◌, ◌<◌, ◌≡◌, ◌⊎◌, inl, inr, refl, ap, ◌∙◌, false, Bool-cases,
  List, [], ◌∷◌, ◌++◌, Option, none, some, take, drop, ltb, ltb→lt, ge→ltb, arith,
}
use libixp.Wire.Msg.{Msg}
use libixp.Transport.{Write, wrote, interrupted, failed, Sent, at_most, send_loop, ixp_sendmsg}

-- How many of the results are not an interruption.
abbrev pub settled : List Write → ℕ
settled [] = 0
settled (wrote k ∷ ws) = suc (settled ws)
settled (interrupted ∷ ws) = settled ws
settled (failed ∷ ws) = suc (settled ws)

-- A write fails, and not by an interruption.
abbrev pub HasFailure : List Write → Type 0
HasFailure [] = ⊥
HasFailure (wrote k ∷ ws) = HasFailure ws
HasFailure (interrupted ∷ ws) = HasFailure ws
HasFailure (failed ∷ ws) = Unit {0}

-- All of the message is written, and its length returned; or only a part, and 0 returned, and a write
-- failed.
abbrev pub IsSent : List Write → List ℕ → ℕ → Option Sent → Type 0
IsSent ws buf end none = ⊥
IsSent ws buf end (some s) =
    ((s.result ≡ end) × (s.bytes ≡ take end buf))
    ⊎ ((s.result ≡ 0) × HasFailure ws × ((k : ℕ) × (k < end) × (s.bytes ≡ take k buf)))

-- A write moves on, and not past the end.
advance : (k p e : ℕ) → p < e → (0 < at_most (suc k) (e - p)) × (p + at_most (suc k) (e - p) ≤ e)
advance k p e lt = (ground (arith, lt), ground (arith, lt))

-- All of the message is written.
abbrev IsAll : List ℕ → ℕ → Option Sent → Type 0
IsAll buf end none = ⊥
IsAll buf end (some s) = (s.result ≡ end) × (s.bytes ≡ take end buf)

IsAll-done :
    (buf : List ℕ) (m : Msg) (out : List ℕ)
    → out ≡ take m.pos buf
    → m.pos ≤ m.end
    → ltb m.pos m.end ≡ false
    → IsAll buf m.end (some (record { result = m.pos; msg = m; bytes = out }))
IsAll-done buf m out e le stop =
    let at : m.pos ≡ m.end = ground (arith, le, stop) in (at, e ∙ ap (λ k. take k buf) at)

loop-IsSent :
    (ws : List Write) (m : Msg) (out : List ℕ)
    → out ≡ take m.pos m.buf
    → m.pos ≤ m.end
    → m.end ≤ m.pos + settled ws
    → IsSent ws m.buf m.end (send_loop ws m out)
unfolding send_loop
loop-IsSent [] m out e le enough =
    let stop : ltb m.pos m.end ≡ false = ge→ltb m.pos m.end (omega (arith, enough)) in
    rw stop (inl (IsAll-done m.buf m out e le stop))
loop-IsSent (wrote k ∷ ws) m out e le enough = elim (Bool-cases (ltb m.pos m.end)) [
  | inl t ↦
      let r = at_most (suc k) (m.end - m.pos) in
      let (some_bytes, not_past) = advance k m.pos m.end (ltb→lt m.pos m.end t) in
      rw t (
        loop-IsSent ws (record m { pos = m.pos + r }) (out ++ take r (drop m.pos m.buf))
          (rw e (take-take-drop m.pos r (m.pos + r) m.buf refl)) not_past
          (omega (arith, some_bytes, enough)))
  | inr t ↦ rw t (inl (IsAll-done m.buf m out e le t))
]
loop-IsSent (interrupted ∷ ws) m out e le enough = elim (Bool-cases (ltb m.pos m.end)) [
  | inl t ↦ rw t (loop-IsSent ws m out e le enough)
  | inr t ↦ rw t (inl (IsAll-done m.buf m out e le t))
]
loop-IsSent (failed ∷ ws) m out e le enough = elim (Bool-cases (ltb m.pos m.end)) [
  | inl t ↦ rw t (inr (refl, tt, (m.pos, ltb→lt m.pos m.end t, e)))
  | inr t ↦ rw t (inl (IsAll-done m.buf m out e le t))
]

-- ixp_sendmsg returns after as many writes, interruptions apart, as the message has bytes. It returns
-- the message's length, and all of it is written in order; or 0, and a proper part is written, where
-- a write fails other than by an interruption.
pub sendmsg-IsSent :
    (ws : List Write) (m : Msg) → m.end ≤ settled ws → IsSent ws m.buf m.end (ixp_sendmsg ws m)
unfolding ixp_sendmsg
sendmsg-IsSent ws m enough =
    loop-IsSent ws (record m { pos = 0 }) [] refl (omega arith) (omega (arith, enough))

-- No write fails but by an interruption.
abbrev pub NoFailure : List Write → Type 0
NoFailure [] = Unit {0}
NoFailure (wrote k ∷ ws) = NoFailure ws
NoFailure (interrupted ∷ ws) = NoFailure ws
NoFailure (failed ∷ ws) = ⊥

loop-IsAll :
    (ws : List Write) (m : Msg) (out : List ℕ)
    → NoFailure ws
    → out ≡ take m.pos m.buf
    → m.pos ≤ m.end
    → m.end ≤ m.pos + settled ws
    → IsAll m.buf m.end (send_loop ws m out)
unfolding send_loop
loop-IsAll [] m out ok e le enough =
    let stop : ltb m.pos m.end ≡ false = ge→ltb m.pos m.end (omega (arith, enough)) in
    rw stop (IsAll-done m.buf m out e le stop)
loop-IsAll (wrote k ∷ ws) m out ok e le enough = elim (Bool-cases (ltb m.pos m.end)) [
  | inl t ↦
      let r = at_most (suc k) (m.end - m.pos) in
      let (some_bytes, not_past) = advance k m.pos m.end (ltb→lt m.pos m.end t) in
      rw t (
        loop-IsAll ws (record m { pos = m.pos + r }) (out ++ take r (drop m.pos m.buf)) ok
          (rw e (take-take-drop m.pos r (m.pos + r) m.buf refl)) not_past
          (omega (arith, some_bytes, enough)))
  | inr t ↦ rw t (IsAll-done m.buf m out e le t)
]
loop-IsAll (interrupted ∷ ws) m out ok e le enough = elim (Bool-cases (ltb m.pos m.end)) [
  | inl t ↦ rw t (loop-IsAll ws m out ok e le enough)
  | inr t ↦ rw t (IsAll-done m.buf m out e le t)
]
loop-IsAll (failed ∷ ws) m out ok e le enough = elim ok [ ]

from_all :
    (buf : List ℕ) (end : ℕ) (o : Option Sent)
    → IsAll buf end o
    → (s : Sent) × (o ≡ some s) × (s.result ≡ end) × (s.bytes ≡ take end buf)
from_all buf end none h = elim h [ ]
from_all buf end (some s) h = (s, refl, h.0, h.1)

-- If no write fails, ixp_sendmsg writes the whole message and returns its length.
pub sendmsg_all :
    (ws : List Write) (m : Msg)
    → NoFailure ws
    → m.end ≤ settled ws
    → (s : Sent) × (ixp_sendmsg ws m ≡ some s) × (s.result ≡ m.end) × (s.bytes ≡ take m.end m.buf)
unfolding ixp_sendmsg
sendmsg_all ws m ok enough =
    from_all m.buf m.end (ixp_sendmsg ws m)
      (loop-IsAll ws (record m { pos = 0 }) [] ok refl (omega arith) (omega (arith, enough)))
