-- ===== src/Wire/Convert.antt =====
-- lib/libixp/convert.c: each routine packs or unpacks, as the message's mode says.
-- A routine that stores through its argument returns what the argument holds afterwards.
use libixp.Prelude.{
  ℕ, zero, suc, ◌+◌, ◌-◌, ◌*◌, ◌/◌, ◌%◌, ◌^◌, bit_or, List, [], ◌∷◌, Option, none, some, leb, ltb,
  ◌==◌, if◌then◌else◌,
}
use libixp.Wire.Types.{Qid, Stat}
use libixp.Wire.Msg.{
  Mode, msg_pack, msg_unpack, M, pure, fault, ◌>>=◌, ◌>>◌, with_mode, here, when_available,
  unless_past, skip, read_bytes, write_bytes, source,
}

-- enum { SByte, SWord, SDWord, SQWord }
pub data Width : Type 0 where
  s_byte s_word s_dword s_qword : Width

abbrev pub width : Width → ℕ
width s_byte = 1
width s_word = 2
width s_dword = 4
width s_qword = 8

-- The bytes that the packing switch of ixp_puint stores.
unfoldable pub store : Width → ℕ → List ℕ
store s_byte v = v % 256 ∷ []
store s_word v = v % 256 ∷ v / 2 ^ 8 % 256 ∷ []
store s_dword v = v % 256 ∷ v / 2 ^ 8 % 256 ∷ v / 2 ^ 16 % 256 ∷ v / 2 ^ 24 % 256 ∷ []
store s_qword v = []

-- The value that the unpacking switch of ixp_puint computes from the bytes at `pos`.
unfoldable pub load : Width → List ℕ → ℕ
load s_byte (b0 ∷ _) = b0
load s_word (b0 ∷ b1 ∷ _) = bit_or (b1 * 2 ^ 8) b0
load s_dword (b0 ∷ b1 ∷ b2 ∷ b3 ∷ _) =
    bit_or (bit_or (bit_or (b3 * 2 ^ 24) (b2 * 2 ^ 16)) (b1 * 2 ^ 8)) b0
load _ _ = 0

-- The body of the `if` of ixp_puint, by the mode.
unfoldable pub transfer : Mode → Width → ℕ → M ℕ
transfer msg_pack w val = do write_bytes (store w val); pure val
transfer msg_unpack w val = do bs ← read_bytes (width w); pure (load w bs)

unfoldable pub ixp_puint : Width → ℕ → M ℕ
ixp_puint w val = do
  v ← when_available (width w) (with_mode λ mode. transfer mode w val) (pure val)
  skip (width w)
  pure v

unfoldable pub ixp_pu8 : ℕ → M ℕ
ixp_pu8 val = do v ← ixp_puint s_byte val; pure (v % 2 ^ 8)

unfoldable pub ixp_pu16 : ℕ → M ℕ
ixp_pu16 val = do v ← ixp_puint s_word val; pure (v % 2 ^ 16)

unfoldable pub ixp_pu32 : ℕ → M ℕ
ixp_pu32 val = ixp_puint s_dword val

unfoldable pub ixp_pu64 : ℕ → M ℕ
ixp_pu64 val = do
  vl ← ixp_puint s_dword (val % 2 ^ 32)
  vb ← ixp_puint s_dword (val / 2 ^ 32 % 2 ^ 32)
  pure (bit_or vl (vb * 2 ^ 32))

-- A C string is the bytes of its allocation before the last, which is nul; a nil pointer is [].
-- strlen stops at the first nul.
unfoldable pub strlen : List ℕ → ℕ
strlen [] = 0
strlen (c ∷ s) = if c == 0 then 0 else suc (strlen s)

-- The two branches of ixp_pstring and of ixp_pdata under `available`.
unfoldable pub copy : Mode → ℕ → List ℕ → M (List ℕ)
copy msg_pack len s = do bs ← source len s; write_bytes bs; pure s
copy msg_unpack len s = read_bytes len

-- The end of ixp_pstring, and all of ixp_pdata.
unfoldable pub ixp_pdata : List ℕ → ℕ → M (List ℕ)
ixp_pdata s len = do
  s' ← when_available len (with_mode λ mode. copy mode len s) (pure s)
  skip len
  pure s'

-- `uint16_t len`, set from strlen if packing
unfoldable pub length_in : Mode → List ℕ → ℕ
length_in msg_pack s = strlen s % 2 ^ 16
length_in msg_unpack s = 0

unfoldable pub ixp_pstring : List ℕ → M (List ℕ)
ixp_pstring s = do
  len ← with_mode λ mode. ixp_pu16 (length_in mode s)
  unless_past s (ixp_pdata s len)

-- Pass one over the strings: `rounds` are left, `size` bytes are counted; `none` is the early return.
unfoldable pub measure : ℕ → ℕ → ℕ → M (Option (ℕ × ℕ))
measure zero size len = pure (some (size, len))
measure (suc rounds) size len = do
  len' ← ixp_pu16 0
  skip len'
  unless_past none (measure rounds ((size + len') % 2 ^ 32) len')

-- `msg->pos = s`
unfoldable pub rewind : ℕ → M Unit
rewind p m = some (tt, record m { pos = p })

-- `msg->pos += len`, unchecked
unfoldable pub seek : ℕ → M Unit
seek len m = some (tt, record m { pos = m.pos + len })

-- The allocation has `room` bytes left, and `n` are used.
unfoldable pub claim : ℕ → ℕ → M ℕ
claim room n = if leb n room then pure (room - n) else fault

-- Pass two when unpacking: each string and its nul go to the allocation, unchecked.
unfoldable pub unpack_strings : ℕ → ℕ → ℕ → List (List ℕ) → M (List (List ℕ))
unpack_strings zero room len strings = pure strings
unpack_strings (suc rounds) room len [] = fault
unpack_strings (suc rounds) room len (s ∷ strings) = do
  len' ← ixp_pu16 len
  s' ← read_bytes len'
  room' ← claim room (len' + 1)
  seek len'
  strings' ← unpack_strings rounds room' len' strings
  pure (s' ∷ strings')

-- Pass two when packing.
unfoldable pub pack_strings : ℕ → List (List ℕ) → M (List (List ℕ))
pack_strings zero strings = pure strings
pack_strings (suc rounds) [] = fault
pack_strings (suc rounds) (s ∷ strings) = do
  len ← ixp_pu16 (strlen s % 2 ^ 16)
  s' ← ixp_pdata s len
  strings' ← pack_strings rounds strings
  pure (s' ∷ strings')

-- `*num > max`: the position is set past the end.
unfoldable pub unless_more : {A : Type 0} → ℕ → ℕ → A → M A → M A
unless_more num max a rest m =
    if ltb max num then some (a, record m { pos = m.end + 1 }) else rest m

-- What follows pass one when unpacking.
unfoldable pub unpack_measured : ℕ → ℕ → List (List ℕ) → Option (ℕ × ℕ) → M (List (List ℕ))
unpack_measured start num strings none = pure strings
unpack_measured start num strings (some (size, len)) = do
  rewind start
  unpack_strings num ((size + num) % 2 ^ 32) len strings

-- Both passes of ixp_pstrings, by the mode, from the position `start`.
unfoldable pub strings_passes : Mode → ℕ → ℕ → List (List ℕ) → M (List (List ℕ))
strings_passes msg_pack start num strings = pack_strings num strings
strings_passes msg_unpack start num strings = measure num 0 0 >>= unpack_measured start num strings

unfoldable pub ixp_pstrings : ℕ → List (List ℕ) → ℕ → M (ℕ × List (List ℕ))
ixp_pstrings num strings max = do
  num' ← ixp_pu16 num
  unless_past (num', strings)
      (unless_more num' max (num', strings)
        (do
          start ← here
          strings' ← with_mode λ mode. strings_passes mode start num' strings
          pure (num', strings')))

unfoldable pub ixp_pqid : Qid → M Qid
ixp_pqid q = do
  type ← ixp_pu8 q.type
  version ← ixp_pu32 q.version
  path ← ixp_pu64 q.path
  pure (record { type = type; version = version; path = path })

-- The loop of ixp_pqids; an index past the array is a fault.
unfoldable pub qids_loop : ℕ → List Qid → M (List Qid)
qids_loop zero qids = pure qids
qids_loop (suc rounds) [] = fault
qids_loop (suc rounds) (q ∷ qids) = do
  q' ← ixp_pqid q
  qids' ← qids_loop rounds qids
  pure (q' ∷ qids')

unfoldable pub ixp_pqids : ℕ → List Qid → ℕ → M (ℕ × List Qid)
ixp_pqids num qids max = do
  num' ← ixp_pu16 num
  unless_past (num', qids)
      (unless_more num' max (num', qids) (qids_loop num' qids >>= λ qids'. pure (num', qids')))

-- ixp_sizeof_stat (lib/libixp/message.c): a `uint16_t`.
unfoldable pub ixp_sizeof_stat : Stat → ℕ
ixp_sizeof_stat s =
    (2
      + 2
      + 4
      + (1 + 4 + 8)
      + 3 * 4
      + 8
      + (2 + strlen s.name)
      + (2 + strlen s.uid)
      + (2 + strlen s.gid)
      + (2 + strlen s.muid))
    % 2 ^ 16

-- `uint16_t size`, set if packing
unfoldable pub size_in : Mode → Stat → ℕ
size_in msg_pack s = (ixp_sizeof_stat s + 2 ^ 16 - 2) % 2 ^ 16
size_in msg_unpack s = 0

unfoldable pub ixp_pstat : Stat → M Stat
ixp_pstat s = do
  size ← with_mode λ mode. ixp_pu16 (size_in mode s)
  type ← ixp_pu16 s.type
  dev ← ixp_pu32 s.dev
  qid ← ixp_pqid s.qid
  mode ← ixp_pu32 s.mode
  atime ← ixp_pu32 s.atime
  mtime ← ixp_pu32 s.mtime
  len ← ixp_pu64 s.length
  name ← ixp_pstring s.name
  uid ← ixp_pstring s.uid
  gid ← ixp_pstring s.gid
  muid ← ixp_pstring s.muid
  pure (record {
    type = type;
    dev = dev;
    qid = qid;
    mode = mode;
    atime = atime;
    mtime = mtime;
    length = len;
    name = name;
    uid = uid;
    gid = gid;
    muid = muid;
  })
