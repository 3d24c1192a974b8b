-- ===== src/Transport/Incoming/Reads.antt =====
-- What readn (lib/libixp/transport.c) reads.
use libixp.Prelude.{
  ℕ, suc, ◌+◌, ◌-◌, ◌≤◌, ◌<◌, ◌≡◌, refl, sym, ap, ◌∙◌, true, false, ◌||◌, Bool-cases, inl, inr,
  List, [], ◌∷◌, ◌++◌, append_assoc, append-nil, Option, none, some, take, drop, length,
  length-take, length-drop, length-overwrite, take-overwrite, take-take-drop, drop-drop, ◌==◌,
  ==_iff, arith,
}
use libixp.Wire.Msg.{Msg}
use libixp.Transport.{Write, wrote, interrupted, failed, at_most}
use libixp.Transport.Send.{settled, NoFailure}
use libixp.Transport.Incoming.{Received, store_bytes, readn_loop, readn}

-- What was read: `num` bytes of the stream, behind what the message held before its position, by as
-- many of `most` results at most.
pub record Reads (num : ℕ) (m : Msg) (s : List ℕ) (most : ℕ) (r : Received) : Type 0 where
  pub result : r.result ≡ 0
  pub msg : r.msg ≡ record m { buf = r.msg.buf; pos = m.pos + num }
  pub width : length r.msg.buf ≡ length m.buf
  pub bytes : take (m.pos + num) r.msg.buf ≡ take m.pos m.buf ++ take num s
  pub stream : r.stream ≡ drop num s
  pub no_failure : NoFailure r.reads
  pub enough : most ≤ settled r.reads + num

abbrev IsRead : ℕ → Msg → List ℕ → ℕ → Option Received → Type 0
IsRead num m s most none = ⊥
IsRead num m s most (some r) = Reads num m s most r

IsRead-none :
    (num : ℕ) (m : Msg) (s : List ℕ) (ws : List Write)
    → num ≡ 0
    → NoFailure ws
    → Reads num m s (settled ws) (record { result = num; msg = m; stream = s; reads = ws })
IsRead-none num m s ws e ok = record {
  result = e;
  msg = ap (λ p. record m { pos = p }) (omega (arith, e));
  width = refl;
  bytes =
      ap (λ j. take j m.buf) (omega (arith, e))
      ∙ sym (ap (λ j. take m.pos m.buf ++ take j s) e ∙ append-nil (take m.pos m.buf));
  stream = ap (λ j. drop j s) (sym e);
  no_failure = ok;
  enough = omega arith;
}

-- A read of `r` bytes, and those that follow.
IsRead-more :
    (num r : ℕ) (m : Msg) (s : List ℕ) (most : ℕ) (o : Option Received)
    → 0 < r
    → r ≤ num
    → length (take r s) ≡ r
    → m.pos + num ≤ length m.buf
    → IsRead (num - length (take r s)) (store_bytes (take r s) m) (drop r s) most o
    → IsRead num m s (suc most) o
IsRead-more num r m s most none some_bytes le len room h = elim h [ ]
IsRead-more num r m s most (some x) some_bytes le len room h =
    let n = length (take r s) in
    record {
      result = h.result;
      msg = h.msg ∙ ap (λ p. record m { buf = x.msg.buf; pos = p }) (omega (arith, len, le));
      width = h.width ∙ length-overwrite m.pos (take r s) m.buf;
      bytes =
          ap (λ j. take j x.msg.buf) (omega (arith, len, le))
          ∙ h.bytes
          ∙ ap (λ l. l ++ take (num - n) (drop r s))
              (take-overwrite m.pos (m.pos + n) (take r s) m.buf refl
                (omega (arith, len, le, room)))
          ∙ append_assoc (take m.pos m.buf) (take r s) (take (num - n) (drop r s))
          ∙ ap (λ l. take m.pos m.buf ++ l)
              (take-take-drop r (num - n) num s (omega (arith, len, le)));
      stream = h.stream ∙ drop-drop r (num - n) num s (omega (arith, len, le));
      no_failure = h.no_failure;
      enough = omega (arith, h.enough, len, some_bytes, le);
    }

loop-IsRead :
    (ws : List Write) (num : ℕ) (m : Msg) (s : List ℕ)
    → NoFailure ws
    → num ≤ settled ws
    → num ≤ length s
    → m.pos + num ≤ m.end
    → m.end ≤ length m.buf
    → IsRead num m s (settled ws) (readn_loop ws num m s)
unfolding readn_loop
loop-IsRead [] num m s ok enough there room width =
    let t : (num == 0) ≡ true = (==_iff num 0).1 (omega (arith, enough)) in
    rw t (IsRead-none num m s [] (omega (arith, enough)) tt)
loop-IsRead (wrote k ∷ ws) num m s ok enough there room width =
    let r = at_most (suc k) (at_most num (m.end - m.pos)) in
    elim (Bool-cases (num == 0)) [
      | inl t ↦ rw t (IsRead-none num m s (wrote k ∷ ws) ((==_iff num 0).0 t) ok)
      | inr t ↦
          let some_bytes : 0 < r = ground (arith, t, room) in
          let le : r ≤ num = ground (arith, room) in
          let len : length (take r s) ≡ r = ground (arith, length-take r s, le, there) in
          let go : ((at_most num (m.end - m.pos) == 0) || (length (take r s) == 0)) ≡ false =
            ground (arith, some_bytes, len) in
          rw (t, go)
            (IsRead-more num r m s (settled ws) _ some_bytes le len (omega (arith, room, width)) (
              loop-IsRead ws (num - length (take r s)) (store_bytes (take r s) m) (drop r s) ok
                (omega (arith, enough, len, some_bytes))
                (omega (arith, there, len, le, length-drop r s)) (omega (arith, room, len, le))
                (omega (arith, width, length-overwrite m.pos (take r s) m.buf))))
    ]
loop-IsRead (interrupted ∷ ws) num m s ok enough there room width = elim (Bool-cases (num == 0)) [
  | inl t ↦ rw t (IsRead-none num m s (interrupted ∷ ws) ((==_iff num 0).0 t) ok)
  | inr t ↦ rw t (loop-IsRead ws num m s ok enough there room width)
]
loop-IsRead (failed ∷ ws) num m s ok enough there room width = elim ok [ ]

from_read :
    (num : ℕ) (m : Msg) (s : List ℕ) (most : ℕ) (o : Option Received)
    → IsRead num m s most o
    → (r : Received) × (o ≡ some r) × Reads num m s most r
from_read num m s most none h = elim h [ ]
from_read num m s most (some r) h = (r, refl, h)

-- readn returns the count that it is asked for.
pub readn-Reads :
    (ws : List Write) (count : ℕ) (m : Msg) (s : List ℕ)
    → NoFailure ws
    → count ≤ settled ws
    → count ≤ length s
    → m.pos + count ≤ m.end
    → m.end ≤ length m.buf
    → (r : Received) × (readn ws count m s ≡ some (record r { result = count }))
      × Reads count m s (settled ws) r
unfolding readn
readn-Reads ws count m s ok enough there room width =
    let (r, e, h) =
      from_read count m s (settled ws) (readn_loop ws count m s)
        (loop-IsRead ws count m s ok enough there room width) in
    let whole : count - r.result ≡ count = omega (arith, h.result) in
    (r, rw e (ap (λ n. some (record r { result = n })) whole), h)
