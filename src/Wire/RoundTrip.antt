-- ===== src/Wire/RoundTrip.antt =====
-- ixp_fcall2msg and ixp_msg2fcall (lib/libixp/message.c) on whole messages.
use libixp.Prelude.{
  ℕ, ◌+◌, ◌%◌, ◌^◌, ◌≤◌, ◌<◌, ◌≡◌, refl, sym, ap, ◌∙◌, List, ◌++◌, some, arith, length, take, drop,
  length-append, length-take, overwrite, length-overwrite, take-overwrite_front, ge→ltb, lt→ltb,
  drop-take, inl, inr, le_or_lt,
}
use libixp.Wire.Types.{Fcall}
use libixp.Wire.Msg.{Msg, msg_pack, msg_unpack, IsValid, >>=_some}
use libixp.Wire.Convert.{ixp_pu32}
use libixp.Wire.Format.{le_bytes, length-le_bytes}
use libixp.Wire.Message.{Coded, ixp_pfcall, finish, pack_all, ixp_fcall2msg, ixp_msg2fcall}
use libixp.Wire.Message.Bytes.{fcall_bytes, overlay, IsFcall, HasArrays}
use libixp.Wire.Unpacks.Fcall.{Unpacks-pfcall}
use libixp.Wire.Packs.Convert.{pu32_room}
use libixp.Wire.Packs.Fcall.{Packs-pfcall}

-- The allocation of a message is `size` bytes, a `uint`; its position and end may be anything.
pub record IsBuffer (m : Msg) : Type 0 where
  pub width : length m.buf ≡ m.size
  pub fits : m.size < 2 ^ 32

-- A whole message: its size in four bytes, then its type, tag and body.
abbrev pub message_bytes : ℕ → Fcall → List ℕ
message_bytes size f = le_bytes 4 (4 + length (fcall_bytes size f)) ++ fcall_bytes size f

-- The message `c.msg` is ready to be sent: it holds the bytes `bs` up to its end.
pub record Holds (bs : List ℕ) (c : Coded) : Type 0 where
  pub result : c.result ≡ length bs
  pub valid : IsValid c.msg
  pub pos : c.msg.pos ≡ 0
  pub end : c.msg.end ≡ length bs
  pub bytes : take (length bs) c.msg.buf ≡ bs

finish_room :
    (f : Fcall) (r : Msg) (old : List ℕ) (body : List ℕ)
    → r.mode ≡ msg_pack
    → IsValid r
    → r.pos ≤ r.end
    → r.pos ≡ 4 + length body
    → length old ≡ 4
    → take r.pos r.buf ≡ old ++ body
    → (s : Msg) × (finish f r ≡ some (4 + length body, s))
      × IsValid s
      × (s.pos ≡ 0)
      × (s.end ≡ 4 + length body)
      × (take (4 + length body) s.buf ≡ le_bytes 4 (4 + length body) ++ body)
unfolding finish
finish_room f r old body mode v room at len front =
    let size = r.pos % 2 ^ 32 in
    let size_eq : size ≡ 4 + length body = omega (arith, v.fits, v.bounded) in
    let r' : Msg = record r { end = r.pos; pos = 0 } in
    let v' : IsValid r' = record {
      width = v.width;
      fits = v.fits;
      bounded = omega (arith, v.bounded);
      near = omega arith;
    } in
    let four = length-le_bytes 4 size in
    (
      record r { buf = overwrite 0 (le_bytes 4 size) r.buf; pos = 0; end = r.pos },
      rw (ge→ltb r.end r.pos room) (
          >>=_some (ixp_pu32 size) _ (pu32_room size r' mode v' (omega arith))
          ∙ ap
              (λ k.
                some
                  (k, record r { buf = overwrite 0 (le_bytes 4 size) r.buf; pos = 0; end = r.pos }))
              size_eq),
      record {
        width = length-overwrite 0 (le_bytes 4 size) r.buf ∙ v.width;
        fits = v.fits;
        bounded = omega (arith, v.bounded);
        near = omega arith;
      },
      refl,
      at,
      ap (λ k. take k (overwrite 0 (le_bytes 4 size) r.buf)) (sym at)
          ∙ take-overwrite_front r.pos (le_bytes 4 size) old body r.buf (omega arith) (omega arith)
              front
          ∙ ap (λ k. le_bytes 4 k ++ body) size_eq,
    )

pub length-message_bytes :
    (size : ℕ) (f : Fcall) → length (message_bytes size f) ≡ 4 + length (fcall_bytes size f)
length-message_bytes size f =
    let n = 4 + length (fcall_bytes size f) in
    omega (arith, length-append (le_bytes 4 n) (fcall_bytes size f), length-le_bytes 4 n)

-- ixp_fcall2msg packs a message that fits its buffer: the result is the message's length, the
-- Fcall is unchanged, and the buffer holds exactly the size, type, tag and body of the 9P format.
pub fcall2msg-Holds :
    (size : ℕ) (m : Msg) (f : Fcall)
    → size < 2 ^ 16
    → IsBuffer m
    → IsFcall f
    → length (message_bytes size f) ≤ m.size
    → (c : Coded) × (ixp_fcall2msg size m f ≡ some c)
      × Holds (message_bytes size f) c
      × (c.fcall ≡ f)
unfolding ixp_fcall2msg pack_all
fcall2msg-Holds size m f hs buf ok room =
    let bs = fcall_bytes size f in
    let n = length-message_bytes size f in
    let m0 : Msg = record m { end = m.size; pos = 4; mode = msg_pack } in
    let v0 : IsValid m0 = record {
      width = buf.width;
      fits = buf.fits;
      bounded = omega arith;
      near = omega arith;
    } in
    let (r, run, p) = (Packs-pfcall size f hs ok).at m0 refl v0 in
    let (at, front) = p.written (omega arith) in
    let (s, run', valid, pos, end, bytes) =
      finish_room f r (take 4 m.buf) bs p.mode p.valid (omega (arith, p.end)) at
        (omega (arith, length-take 4 m.buf, buf.width)) front in
    let c : Coded = record { result = 4 + length bs; msg = s; fcall = f } in
    let whole : pack_all size f m0 ≡ some (c, s) =
      >>=_some (ixp_pfcall size f) _ run ∙ >>=_some (finish f) _ run' in
    (
      c,
      rw (ge→ltb m.size 4 (omega arith), whole),
      record {
        result = sym n;
        valid = valid;
        pos = pos;
        end = end ∙ sym n;
        bytes = ap (λ k. take k s.buf) n ∙ bytes;
      },
      refl,
    )

-- ixp_fcall2msg returns 0 for a message that is longer than its buffer, and keeps the Fcall.
pub fcall2msg_too_long :
    (size : ℕ) (m : Msg) (f : Fcall)
    → size < 2 ^ 16
    → IsBuffer m
    → IsFcall f
    → m.size < length (message_bytes size f)
    → (c : Coded) × (ixp_fcall2msg size m f ≡ some c) × (c.result ≡ 0) × (c.fcall ≡ f)
unfolding ixp_fcall2msg pack_all finish
fcall2msg_too_long size m f hs buf ok over = elim (le_or_lt 4 m.size) [
  | inr tiny ↦ (record { result = 0; msg = m; fcall = f }, rw (lt→ltb m.size 4 tiny), refl, refl)
  | inl header ↦
      let m0 : Msg = record m { end = m.size; pos = 4; mode = msg_pack } in
      let v0 : IsValid m0 = record {
        width = buf.width;
        fits = buf.fits;
        bounded = omega arith;
        near = omega arith;
      } in
      let (r, run, p) = (Packs-pfcall size f hs ok).at m0 refl v0 in
      let past : r.end < r.pos =
        omega (arith, p.end, p.past (omega (arith, length-message_bytes size f))) in
      let c : Coded = record { result = 0; msg = r; fcall = f } in
      let whole : pack_all size f m0 ≡ some (c, r) =
        >>=_some (ixp_pfcall size f) _ run ∙ >>=_some (finish f) _ (rw (lt→ltb r.end r.pos past)) in
      (c, rw (ge→ltb m.size 4 header, whole), refl, refl)
]

-- ixp_msg2fcall on a message that ixp_fcall2msg left: the result is the message's length, and the
-- members that the type selects are those that were packed, the others as they were before.
pub msg2fcall-Holds :
    (size junk : ℕ) (c : Coded) (f g : Fcall)
    → size < 2 ^ 16
    → IsFcall f
    → HasArrays g
    → Holds (message_bytes size f) c
    → (d : Coded) × (ixp_msg2fcall junk c.msg g ≡ some d)
      × (d.result ≡ length (message_bytes size f))
      × (d.fcall ≡ overlay f g)
unfolding ixp_msg2fcall
msg2fcall-Holds size junk c f g hs ok arr holds =
    let bs = fcall_bytes size f in
    let n = length-message_bytes size f in
    let v = holds.valid in
    let m : Msg = record c.msg { pos = 4; mode = msg_unpack } in
    let vm : IsValid m = record {
      width = v.width;
      fits = v.fits;
      bounded = v.bounded;
      near = omega (arith, holds.end);
    } in
    let behind : drop 4 c.msg.buf ≡ bs ++ drop (length (message_bytes size f)) c.msg.buf =
      drop-take 4 (length (message_bytes size f)) c.msg.buf (le_bytes 4 (4 + length bs)) bs
        holds.bytes (length-le_bytes 4 (4 + length bs)) in
    let run =
      (Unpacks-pfcall size junk f g hs ok arr).at m _ refl vm behind (omega (arith, holds.end)) in
    let d : Coded = record {
      result = (4 + length bs) % 2 ^ 32;
      msg = record m { pos = 4 + length bs };
      fcall = overlay f g;
    } in
    (
      d,
      rw (
        ge→ltb c.msg.size 4 (omega (arith, holds.end, v.bounded)),
        ge→ltb c.msg.end 4 (omega (arith, holds.end)),
        run,
        ge→ltb c.msg.end (4 + length bs) (omega (arith, holds.end)),
      ),
      omega (arith, v.fits, v.bounded, holds.end),
      refl,
    )

-- An Fcall of any type that is packed into a buffer with room for it and unpacked again comes back:
-- both calls return the message's length, and the members that the type selects are those of `f`,
-- the others those that `g` had. `size` and `junk` are what the uninitialised local of the TWStat
-- arm holds in the two calls.
pub msg2fcall-fcall2msg :
    (size junk : ℕ) (m : Msg) (f g : Fcall)
    → size < 2 ^ 16
    → IsBuffer m
    → IsFcall f
    → HasArrays g
    → length (message_bytes size f) ≤ m.size
    → (c d : Coded) × (ixp_fcall2msg size m f ≡ some c)
      × (ixp_msg2fcall junk c.msg g ≡ some d)
      × (c.result ≡ length (message_bytes size f))
      × (d.result ≡ c.result)
      × (d.fcall ≡ overlay f g)
msg2fcall-fcall2msg size junk m f g hs buf ok arr room =
    let (c, run, holds, _) = fcall2msg-Holds size m f hs buf ok room in
    let (d, run', result, same) = msg2fcall-Holds size junk c f g hs ok arr holds in
    (c, d, run, run', holds.result, result ∙ sym holds.result, same)
