-- ===== src/Wire/Packs/Convert.antt =====
-- ixp_pu8 to ixp_pstat (lib/libixp/convert.c) when packing.
use mathlib.Core.Path.{subst}
use libixp.Prelude.{
  ℕ, ◌+◌, ◌/◌, ◌%◌, ◌^◌, ◌≤◌, ◌<◌, ◌≡◌, ◌≢◌, refl, sym, ap, ◌∙◌, List, [], ◌∷◌, ◌++◌, some, arith,
  length, take_all, overwrite, append-nil, All,
}
use libixp.Wire.Types.{Qid}
use libixp.Wire.Msg.{
  Msg, M, msg_pack, pure, ◌>>=◌, >>=_some, IsValid, with_mode, with_mode_lem, write_bytes, source,
}
use libixp.Wire.Access.{write_bytes_room, source_room}
use libixp.Wire.Convert.{
  Width, s_byte, s_word, s_dword, s_qword, width, store, transfer, copy, strlen, ixp_puint, ixp_pu8,
  ixp_pu16, ixp_pu32, ixp_pu64, ixp_pdata, ixp_pstring, length_in, ixp_pqid,
}
use libixp.Wire.Format.{
  le_bytes, length-le_bytes, format_string, format_qid, IsChar, IsString, IsQid,
}
use libixp.Wire.Numbers.{store-eq-le_bytes, low_high, le_bytes_halves}
use libixp.Wire.Packs.{
  Packs, Packs-pure, Packs-bind, Packs-congr, Packs-with_mode, Packs-unless_past, Packs-block,
  block_room,
}

transfer_room :
    (w : Width) (v : ℕ)
    → w ≢ s_qword
    → (m : Msg) → m.mode ≡ msg_pack
    → m.pos + length (le_bytes (width w) v) ≤ length m.buf
    → with_mode (λ mode. transfer mode w v) m
      ≡ some (v, record m { buf = overwrite m.pos (le_bytes (width w) v) m.buf })
unfolding transfer pure
transfer_room w v h m mode room =
    let e = store-eq-le_bytes w v h in
    with_mode_lem (λ c. transfer c w v) mode
    ∙ >>=_some (write_bytes (store w v)) _
        (ap (λ l. write_bytes l m) e ∙ write_bytes_room m (le_bytes (width w) v) room)

pub Packs-puint : (w : Width) (v : ℕ) → w ≢ s_qword → Packs (ixp_puint w v) (le_bytes (width w) v) v
unfolding ixp_puint pure
Packs-puint w v h =
    Packs-block (width w) (with_mode λ mode. transfer mode w v) (pure v) (le_bytes (width w) v) v
      (sym (length-le_bytes (width w) v)) (transfer_room w v h) (λ m. refl)

-- A 32-bit number that fits, with the buffer that is left.
pub pu32_room :
    (v : ℕ) (m : Msg)
    → m.mode ≡ msg_pack
    → IsValid m
    → m.pos + 4 ≤ m.end
    → ixp_pu32 v m
      ≡ some (v, record m { buf = overwrite m.pos (le_bytes 4 v) m.buf; pos = m.pos + 4 })
unfolding ixp_pu32 ixp_puint pure
pu32_room v m mode valid room =
    block_room 4 (with_mode λ mode. transfer mode s_dword v) (pure v) (le_bytes 4 v) v m
      (sym (length-le_bytes 4 v)) valid room
      (transfer_room s_dword v (λ e. cc) m mode
        (omega (arith, length-le_bytes 4 v, valid.width, valid.bounded)))

cast_back :
    (x : M ℕ) (n v : ℕ) (bs : List ℕ)
    → v % n ≡ v
    → Packs x bs v
    → Packs (x >>= λ u. pure (u % n)) bs v
cast_back x n v bs e h = Packs-congr (append-nil bs) (
    Packs-bind x (λ u. pure (u % n)) h
      (subst (λ u. Packs (pure (v % n)) [] u) e (Packs-pure (v % n))))

pub Packs-pu8 : (v : ℕ) → v < 2 ^ 8 → Packs (ixp_pu8 v) (le_bytes 1 v) v
unfolding ixp_pu8
Packs-pu8 v lt = cast_back (ixp_puint s_byte v) _ v _ (omega arith) (Packs-puint s_byte v (λ e. cc))

pub Packs-pu16 : (v : ℕ) → v < 2 ^ 16 → Packs (ixp_pu16 v) (le_bytes 2 v) v
unfolding ixp_pu16
Packs-pu16 v lt =
    cast_back (ixp_puint s_word v) _ v _ (omega arith) (Packs-puint s_word v (λ e. cc))

pub Packs-pu32 : (v : ℕ) → Packs (ixp_pu32 v) (le_bytes 4 v) v
unfolding ixp_pu32
Packs-pu32 v = Packs-puint s_dword v (λ e. cc)

pub Packs-pu64 : (v : ℕ) → v < 2 ^ 64 → Packs (ixp_pu64 v) (le_bytes 8 v) v
unfolding ixp_pu64
Packs-pu64 v lt =
    let lo = v % 2 ^ 32 in
    let hi = v / 2 ^ 32 % 2 ^ 32 in
    Packs-congr
      (ap (λ l. le_bytes 4 lo ++ l) (append-nil (le_bytes 4 hi)) ∙ sym (le_bytes_halves v))
      (subst (λ u. Packs (ixp_pu64 v) (le_bytes 4 lo ++ (le_bytes 4 hi ++ [])) u) (low_high v lt)
        (Packs-bind _ _ (Packs-puint s_dword lo (λ e. cc))
          (Packs-bind _ _ (Packs-puint s_dword hi (λ e. cc)) (Packs-pure _))))

pub Packs-pdata : (s : List ℕ) (len : ℕ) → length s ≡ len → Packs (ixp_pdata s len) s s
unfolding ixp_pdata copy pure
Packs-pdata s len e =
    Packs-block len (with_mode λ mode. copy mode len s) (pure s) s s (sym e)
      (λ m mode room.
        with_mode_lem (λ c. copy c len s) mode
        ∙ >>=_some (source len s) _ (
            source_room m len s (omega arith)
            ∙ ap (λ l. some (l, m)) (take_all len s (omega arith)))
        ∙ >>=_some (write_bytes s) _ (write_bytes_room m s room))
      (λ m. refl)

pub strlen-eq-length : (s : List ℕ) → All IsChar s → strlen s ≡ length s
unfolding strlen
strlen-eq-length [] h = refl
strlen-eq-length (c ∷ s) (hc, h) = ground (arith, strlen-eq-length s h)

pub Packs-pstring : (s : List ℕ) → IsString s → Packs (ixp_pstring s) (format_string s) s
unfolding ixp_pstring length_in
Packs-pstring s h =
    let len : strlen s % 2 ^ 16 ≡ length s = omega (arith, strlen-eq-length s h.chars, h.short) in
    Packs-bind _ _
      (Packs-with_mode (λ mode. ixp_pu16 (length_in mode s))
        (subst (λ k. Packs (ixp_pu16 k) (le_bytes 2 (length s)) (length s)) (sym len)
          (Packs-pu16 (length s) h.short)))
      (Packs-unless_past s (Packs-pdata s (length s) refl))

pub Packs-pqid : (q : Qid) → IsQid q → Packs (ixp_pqid q) (format_qid q) q
unfolding ixp_pqid
Packs-pqid q h = Packs-bind _ _ (Packs-pu8 q.type h.type) (
    Packs-bind _ _ (Packs-pu32 q.version)
      (Packs-bind _ _ (Packs-pu64 q.path h.path) (Packs-pure q)))
