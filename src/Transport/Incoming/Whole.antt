-- ===== src/Transport/Incoming/Whole.antt =====
-- That ixp_recvmsg (lib/libixp/transport.c) receives a whole message.
use libixp.Prelude.{
  ℕ, ◌+◌, ◌-◌, ◌%◌, ◌^◌, ◌≤◌, ◌≡◌, refl, sym, ap, ◌∙◌, true, false, List, ◌++◌, append_assoc, some,
  take, drop, length, length-append, take-append_length, drop-append_length, take-append-drop, ◌==◌,
  ==_iff, ltb, ge→ltb, arith,
}
use libixp.Wire.Msg.{Msg, msg_unpack, IsValid}
use libixp.Wire.Convert.{ixp_pu32}
use libixp.Wire.Format.{le_bytes, length-le_bytes}
use libixp.Wire.Unpacks.Convert.{Unpacks-pu32}
use libixp.Wire.RoundTrip.{IsBuffer}
use libixp.Transport.{Write}
use libixp.Transport.Send.{settled, NoFailure}
use libixp.Transport.Incoming.{
  Received, readn, received_body, received_size, received_head, ixp_recvmsg,
}
use libixp.Transport.Incoming.Reads.{readn-Reads}

-- The message is received whole, and the rest of the stream is still to come.
pub record Whole (bs rest : List ℕ) (r : Received) : Type 0 where
  pub result : r.result ≡ length bs
  pub end : r.msg.end ≡ length bs
  pub bytes : take (length bs) r.msg.buf ≡ bs
  pub stream : r.stream ≡ rest

-- The second part of a message whose first four bytes are `head`.
body-Whole :
    (head body rest : List ℕ) (ws : List Write) (m : Msg) (s : List ℕ)
    → length head ≡ 4
    → NoFailure ws
    → length body ≤ settled ws
    → s ≡ body ++ rest
    → m.pos ≡ 4
    → take 4 m.buf ≡ head
    → 4 + length body ≤ m.end
    → m.end ≤ length m.buf
    → (r : Received) × (received_body (4 + length body) (readn ws (4 + length body - 4) m s)
        ≡ some r)
      × Whole (head ++ body) rest r
unfolding received_body
body-Whole head body rest ws m s four ok enough at pos front room width =
    let n = 4 + length body - 4 in
    let same : n ≡ length body = omega arith in
    let long : length s ≡ length body + length rest = ap length at ∙ length-append body rest in
    let (r, e, h) =
      readn-Reads ws n m s ok (omega (arith, enough)) (omega (arith, long))
        (omega (arith, pos, room)) width in
    let all : length (head ++ body) ≡ m.pos + n =
      omega (arith, length-append head body, four, pos) in
    let t : (n == n) ≡ true = (==_iff n n).1 refl in
    (
      record r { result = 4 + length body; msg = record r.msg { end = r.msg.pos } },
      ap (received_body (4 + length body)) e ∙ rw t refl,
      record {
        result = omega (arith, length-append head body, four);
        end = ap (λ (x : Msg). x.pos) h.msg ∙ sym all;
        bytes =
            ap (λ k. take k r.msg.buf) all
            ∙ h.bytes
            ∙ ap (λ k. take k m.buf ++ take n s) pos
            ∙ ap (λ l. l ++ take n s) front
            ∙ ap (λ l. head ++ take n l) at
            ∙ ap (λ k. head ++ take k (body ++ rest)) same
            ∙ ap (λ l. head ++ l) (take-append_length body rest);
        stream =
            h.stream
            ∙ ap (λ l. drop n l) at
            ∙ ap (λ k. drop k (body ++ rest)) same
            ∙ drop-append_length body rest;
      },
    )

take_head : (head tail s : List ℕ) → length head ≡ 4 → s ≡ head ++ tail → take 4 s ≡ head
take_head head tail s four e =
    ap (λ k. take k s) (sym four) ∙ ap (λ l. take (length head) l) e ∙ take-append_length head tail

drop_head : (head tail s : List ℕ) → length head ≡ 4 → s ≡ head ++ tail → drop 4 s ≡ tail
drop_head head tail s four e =
    ap (λ k. drop k s) (sym four) ∙ ap (λ l. drop (length head) l) e ∙ drop-append_length head tail

-- The checks of the size pass.
sized :
    (r : Received) (n : ℕ) (m : Msg)
    → ltb n 4 ≡ false
    → ltb ((m.end - m.pos) % 2 ^ 32) (n - 4) ≡ false
    → received_size r (some (n, m)) ≡ received_body n (readn r.reads (n - 4) m r.stream)
unfolding received_size
sized r n m big room = rw (big, room) refl

module _ (junk : ℕ) (ws : List Write) (m : Msg) (body rest : List ℕ) (buf : IsBuffer m)
    (ok : NoFailure ws) where
  abbrev size : ℕ
  size = 4 + length body

  abbrev start : Msg
  start = record m { mode = msg_unpack; pos = 0; end = m.size }

  -- The size that ixp_pu32 reads behind the first readn.
  unpack_size :
      (r : Msg)
      → r.mode ≡ msg_unpack
      → r.size ≡ m.size
      → r.end ≡ m.size
      → length r.buf ≡ m.size
      → take 4 r.buf ≡ le_bytes 4 size
      → 4 + length body ≤ m.size
      → ixp_pu32 junk (record r { pos = 0 })
        ≡ some (size, record r { pos = 0 + length (le_bytes 4 size) })
  unpack_size r mode same end wide front fits =
      let valid : IsValid (record r { pos = 0 }) = record {
        width = wide ∙ sym same;
        fits = omega (arith, same, buf.fits);
        bounded = omega (arith, same, end);
        near = omega arith;
      } in
      (Unpacks-pu32 junk size (omega (arith, fits, buf.fits))).at (record r { pos = 0 })
        (drop 4 r.buf) mode valid
        (sym (take-append-drop 4 r.buf) ∙ ap (λ l. l ++ drop 4 r.buf) front)
        (omega (arith, length-le_bytes 4 size, end, fits))

  -- If a message whose first four bytes are its size fits the buffer, and no read fails but by an
  -- interruption, then ixp_recvmsg returns after as many reads, interruptions apart, as it has
  -- bytes. It returns the size, the buffer holds the message up to its end, and nothing that follows
  -- the message is read.
  pub recvmsg-Whole :
      4 + length body ≤ m.size
      → 4 + length body ≤ settled ws
      → (r : Received) × (ixp_recvmsg junk ws m ((le_bytes 4 (4 + length body) ++ body) ++ rest)
          ≡ some r)
        × Whole (le_bytes 4 (4 + length body) ++ body) rest r
  unfolding ixp_recvmsg received_head
  recvmsg-Whole fits enough =
      let head = le_bytes 4 size in
      let four = length-le_bytes 4 size in
      let s = (head ++ body) ++ rest in
      let len : length s ≡ size + length rest =
        omega (arith, length-append (head ++ body) rest, length-append head body, four) in
      let assoc = append_assoc head body rest in
      let (r, e, h) =
        readn-Reads ws 4 start s ok (omega (arith, enough)) (omega (arith, len))
          (omega (arith, fits)) (omega (arith, buf.width)) in
      let front : take 4 r.msg.buf ≡ head = h.bytes ∙ take_head head (body ++ rest) s four assoc in
      let mode : r.msg.mode ≡ msg_unpack = ap (λ (x : Msg). x.mode) h.msg in
      let end : r.msg.end ≡ m.size = ap (λ (x : Msg). x.end) h.msg in
      let wide : length r.msg.buf ≡ m.size = h.width ∙ buf.width in
      let unpacked = unpack_size r.msg mode (ap (λ (x : Msg). x.size) h.msg) end wide front fits in
      let m2 : Msg = record r.msg { pos = 0 + length head } in
      let (r', e', w) =
        body-Whole head body rest r.reads m2 r.stream four h.no_failure
          (omega (arith, h.enough, enough)) (h.stream ∙ drop_head head (body ++ rest) s four assoc)
          (omega (arith, four)) front (omega (arith, end, fits)) (omega (arith, end, wide)) in
      let big : ltb size 4 ≡ false = ge→ltb size 4 (omega arith) in
      let room : ltb ((m2.end - m2.pos) % 2 ^ 32) (size - 4) ≡ false =
        ge→ltb ((m2.end - m2.pos) % 2 ^ 32) (size - 4) (omega (arith, end, four, fits, buf.fits)) in
      (
        r',
        ap (received_head junk) e
            ∙ ap (received_size (record r { result = 4 })) unpacked
            ∙ sized (record r { result = 4 }) size m2 big room
            ∙ e',
        w,
      )
