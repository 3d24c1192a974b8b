-- ===== src/Buffers/Stores.antt =====
-- ixp_srv_writebuf on every branch, and a read of what was written.
use libixp.Prelude.{
  ℕ, ◌+◌, ◌-◌, ◌%◌, ◌^◌, ◌≤◌, ◌<◌, ◌≡◌, ◌⊎◌, refl, ap, ◌∙◌, bit_and, true, false, Bool-cases, ◌||◌,
  List, ◌++◌, Option, some, length, take, drop, leb, ltb, ge→ltb, lt→ltb, ltb→lt, ltb→ge, ==_iff,
  ◌==◌, if◌then◌else◌, arith, inl, inr, le_or_lt, take_all, drop-append_length, length-take,
}
use libixp.Request.{Req}
use libixp.Buffers.{
  Buffer, ixp_srv_readbuf, answer_count, erealloc, store_data, room_after, limit_data,
  ixp_srv_writebuf,
}
use libixp.Buffers.Contents.{
  contents, Written, write_at-Written, length-erealloc, take-erealloc, take-take, with_data,
  readbuf_lem,
}

-- The allocation holds the contents; under a limit, the limit and a nul.
pub record IsBuffer (b : Buffer) (max : ℕ) : Type 0 where
  pub held : b.len ≤ length b.buf
  pub small : b.len < 2 ^ 32
  pub roomy : 0 < max → max < length b.buf
  pub below : 0 < max → b.len ≤ max
  pub limit : max < 2 ^ 32

-- How much of `count` bytes at `o` is stored under the limit; 0 is no limit.
abbrev pub stored : ℕ → ℕ → ℕ → ℕ
stored max o count = if max == 0 then count else if ltb (max - o) count then max - o else count

-- The offset that counts: the end for a file that is append only.
abbrev pub place : ℕ → Req → Buffer → ℕ
place perm req b = if bit_and perm (2 ^ 30) == 0 then req.ifcall.offset else b.len

equal : (a b : ℕ) → a ≡ b → (a == b) ≡ true
equal a b h = (==_iff a b).1 h

positive : (a : ℕ) → 0 < a → (a == 0) ≡ false
positive a h = ground arith

no_wrap : (a : ℕ) → a < 2 ^ 32 → a % 2 ^ 32 ≡ a
no_wrap a h = omega arith

module _ (junk : ℕ) (req : Req) (b : Buffer) (max : ℕ) (h : IsBuffer b max) (o n : ℕ)
    (within : o ≤ b.len) (data_there : n ≤ length req.ifcall.payload) where
  store_free : max ≡ 0 → o + n < 2 ^ 32 - 1 → Written req b o n (store_data junk req b max o n)
  unfolding store_data
  store_free e fits =
      let grown = erealloc junk b.buf ((o + n) % 2 ^ 32 + 1) in
      rw (e, no_wrap (o + n) (omega (arith, fits)), no_wrap (o + n + 1) (omega (arith, fits)))
        (write_at-Written req b (erealloc junk b.buf (o + n + 1)) (o + n) o n data_there
          (omega (arith, length-erealloc junk b.buf (o + n + 1))) refl
          (take-erealloc junk o (o + n + 1) b.buf (omega arith) (omega (arith, within, h.held))
            ∙ take-take o b.len b.buf within))

  store_limited : 0 < max → o + n ≤ max → Written req b o n (store_data junk req b max o n)
  unfolding store_data
  store_limited pos fits =
      rw (positive max pos, no_wrap (o + n) (omega (arith, fits, h.limit)))
        (write_at-Written req b b.buf (o + n) o n data_there (omega (arith, fits, h.roomy pos)) refl
          (take-take o b.len b.buf within))

module _ (junk : ℕ) (req : Req) (b : Buffer) (max : ℕ) (h : IsBuffer b max) (o count : ℕ)
    (within : o ≤ b.len) (data_there : count ≤ length req.ifcall.payload)
    (room : max ≡ 0 → o + count < 2 ^ 32 - 1) where
  limit_none : max ≡ 0 → Written req b o (stored max o count) (limit_data junk req b max o count)
  unfolding limit_data
  limit_none e =
      let t : (max == 0) ≡ true = equal max 0 e in
      let few : ltb (room_after o) count ≡ false =
        ge→ltb (room_after o) count (omega (arith, room e)) in
      rw (t, few) (store_free junk req b max h o count within data_there e (room e))

  limit_some : 0 < max → Written req b o (stored max o count) (limit_data junk req b max o count)
  unfolding limit_data
  limit_some pos = elim (Bool-cases (leb max o)) [
    | inl past ↦
        let none_left : (if ltb (max - o) count then max - o else count) ≡ 0 =
          ground (arith, past) in
        rw (positive max pos, past, none_left)
          (store_limited junk req b max h o 0 within (omega arith) pos
            (omega (arith, within, h.below pos)))
    | inr before ↦ elim (Bool-cases (ltb (max - o) count)) [
      | inl cut ↦
          rw (positive max pos, before, cut)
            (store_limited junk req b max h o (max - o) within
              (omega (arith, data_there, ltb→lt (max - o) count cut)) pos
              (omega (arith, within, h.below pos)))
      | inr whole ↦
          rw (positive max pos, before, whole)
            (store_limited junk req b max h o count within data_there pos
              (omega (arith, within, h.below pos, ltb→ge (max - o) count whole)))
    ]
  ]

  limit-Written : Written req b o (stored max o count) (limit_data junk req b max o count)
  limit-Written = elim (le_or_lt 1 max) [
    | inl pos ↦ limit_some pos
    | inr none_set ↦ limit_none (omega (arith, none_set))
  ]

-- In a buffer that holds its length, below 2 ^ 32, and under a limit has room for the limit and a nul
-- and holds no more than the limit: a write of some bytes, all of which came with the request, below
-- 2 ^ 32 - 1 in all without a limit, at an offset of 32 bits within the file
-- (its end, if the file is append only) ends the file after the bytes that are stored: all of them, or
-- as many as leave it within `max`. What stands before the offset is kept, a nul follows, the answer
-- is the number of bytes stored, and no byte outside the allocation is touched.
pub writebuf-Written :
    (junk perm : ℕ) (req : Req) (b : Buffer) (max : ℕ)
    → IsBuffer b max
    → req.ifcall.offset < 2 ^ 32
    → place perm req b ≤ b.len
    → 0 < req.ifcall.count
    → req.ifcall.count ≤ length req.ifcall.payload
    → (max ≡ 0 → place perm req b + req.ifcall.count < 2 ^ 32 - 1)
    → Written req b
        (place perm req b)
        (stored max (place perm req b) req.ifcall.count)
        (ixp_srv_writebuf junk perm req b max)
unfolding ixp_srv_writebuf
writebuf-Written junk perm req b max h small within some_bytes data_there room =
    rw
      (
        ge→ltb (2 ^ 32 - 1) req.ifcall.offset (omega (arith, small)),
        ge→ltb b.len (place perm req b) within,
        positive req.ifcall.count some_bytes,
      )
      (limit-Written junk req b max h (place perm req b) req.ifcall.count within data_there room)

-- A write at an offset past 32 bits or past the end, of no bytes, or past 32 bits without a limit
-- answers that 0 bytes were written and leaves the buffer as it is.
pub writebuf_refused :
    (junk perm : ℕ) (req : Req) (b : Buffer) (max : ℕ)
    → ((2 ^ 32 ≤ req.ifcall.offset) ⊎ (b.len < place perm req b))
      ⊎ ((req.ifcall.count ≡ 0)
          ⊎ ((max ≡ 0)
              × (place perm req b < 2 ^ 32 - 1)
              × (2 ^ 32 - 1 ≤ place perm req b + req.ifcall.count)))
    → ixp_srv_writebuf junk perm req b max ≡ some (answer_count req 0, b)
unfolding ixp_srv_writebuf limit_data
writebuf_refused junk perm req b max (inl (inl far)) =
    rw (lt→ltb (2 ^ 32 - 1) req.ifcall.offset (omega (arith, far))) refl
writebuf_refused junk perm req b max (inl (inr past)) =
    elim (Bool-cases (ltb (2 ^ 32 - 1) req.ifcall.offset)) [
      | inl t ↦ rw t refl
      | inr t ↦ rw (t, lt→ltb b.len (place perm req b) past) refl
    ]
writebuf_refused junk perm req b max (inr (inl nothing)) =
    elim (Bool-cases (ltb (2 ^ 32 - 1) req.ifcall.offset)) [
      | inl t ↦ rw t refl
      | inr t ↦ elim (Bool-cases (ltb b.len (place perm req b))) [
        | inl u ↦ rw (t, u) refl
        | inr u ↦ rw (t, u, equal req.ifcall.count 0 nothing) refl
      ]
    ]
writebuf_refused junk perm req b max (inr (inr (e, lt, full))) =
    elim (Bool-cases (ltb (2 ^ 32 - 1) req.ifcall.offset)) [
      | inl t ↦ rw t refl
      | inr t ↦ elim (Bool-cases (ltb b.len (place perm req b) || (req.ifcall.count == 0))) [
        | inl u ↦ rw (t, u) refl
        | inr u ↦
            rw
              (
                t,
                u,
                equal max 0 e,
                lt→ltb (room_after (place perm req b)) req.ifcall.count (omega (arith, lt, full)),
              )
              refl
      ]
    ]

drop-append_at : (o : ℕ) (xs ys : List ℕ) → length xs ≡ o → drop o (xs ++ ys) ≡ ys
drop-append_at o xs ys e = rw (← e) (drop-append_length xs ys)

read_stored :
    (req : Req) (b : Buffer) (o n : ℕ) (res : Option (Req × Buffer)) (w : Written req b o n res)
    (rd : Req)
    → 0 < n
    → n ≤ length req.ifcall.payload
    → o ≤ b.len
    → b.len ≤ length b.buf
    → rd.ifcall.offset ≡ o
    → n ≤ rd.ifcall.count
    → ixp_srv_readbuf rd w.after.buf w.after.len ≡ some (with_data rd (take n req.ifcall.payload))
read_stored req b o n res w rd pos there within held at enough =
    let new = take n req.ifcall.payload in
    let front = take o (contents b) in
    let width : length front ≡ o =
      omega (arith, length-take o (contents b), length-take b.len b.buf, within, held) in
    let rest : drop rd.ifcall.offset (contents w.after) ≡ new =
      ap (λ k. drop k (contents w.after)) at
      ∙ ap (drop o) w.holds
      ∙ drop-append_at o front new width in
    let all : take rd.ifcall.count (drop rd.ifcall.offset (contents w.after)) ≡ new =
      ap (take rd.ifcall.count) rest
      ∙ take_all rd.ifcall.count new (omega (arith, length-take n req.ifcall.payload, enough)) in
    (readbuf_lem rd w.after (omega (arith, w.fits))).0 (omega (arith, w.size, at, pos))
    ∙ ap (λ bs. some (with_data rd bs)) all

stored_le : (max o count : ℕ) → stored max o count ≤ count
stored_le max o count = ground arith

-- After a write that stores some bytes, under the conditions of writebuf-Written, a read at the offset of the write, of at least as many
-- bytes, answers exactly the bytes that were stored: the write's first ones.
pub readbuf-writebuf :
    (junk perm : ℕ) (req rd : Req) (b : Buffer) (max : ℕ)
    → IsBuffer b max
    → req.ifcall.offset < 2 ^ 32
    → place perm req b ≤ b.len
    → 0 < req.ifcall.count
    → req.ifcall.count ≤ length req.ifcall.payload
    → (max ≡ 0 → place perm req b + req.ifcall.count < 2 ^ 32 - 1)
    → 0 < stored max (place perm req b) req.ifcall.count
    → rd.ifcall.offset ≡ place perm req b
    → stored max (place perm req b) req.ifcall.count ≤ rd.ifcall.count
    → (req' : Req) × (after : Buffer) × (ixp_srv_writebuf junk perm req b max ≡ some (req', after))
      × (ixp_srv_readbuf rd after.buf after.len
          ≡ some (
              with_data rd
                (take (stored max (place perm req b) req.ifcall.count) req.ifcall.payload)))
readbuf-writebuf junk perm req rd b max h small within some_bytes there room pos at enough =
    let w = writebuf-Written junk perm req b max h small within some_bytes there room in
    let n = stored max (place perm req b) req.ifcall.count in
    let le = stored_le max (place perm req b) req.ifcall.count in
    (
      _,
      w.after,
      w.returns,
      read_stored req b (place perm req b) n _ w rd pos (omega (arith, le, there)) within h.held at
          enough,
    )
