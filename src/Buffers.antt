-- ===== src/Buffers.antt =====
-- lib/libixp/srv_util.c: reads and writes of a file that a buffer in memory backs.
pub mod Contents
pub mod Stores
mod Tests
use libixp.Prelude.{
  ℕ, ◌+◌, ◌-◌, ◌%◌, ◌^◌, bit_and, Bool, not, ◌&&◌, ◌||◌, List, [], ◌∷◌, ◌++◌, Option, none, some,
  length, take, drop, replicate, overwrite, leb, ltb, ◌==◌, if◌then◌else◌,
}
use libixp.Request.{Req}

-- `*buf` is the allocation, `*len` the length of what it holds.
pub record Buffer : Type 0 where
  pub buf : List ℕ
  pub len : ℕ

-- `none` is an access outside an allocation, here and below.
unfoldable pub answer_data : Req → List ℕ → ℕ → ℕ → Option Req
answer_data req buf offset n =
    if leb (offset + n) (length buf)
    then some (record req {
      ofcall = record req.ofcall { payload = take n (drop offset buf); count = n };
    })
    else none

unfoldable pub ixp_srv_readbuf : Req → List ℕ → ℕ → Option Req
unfolding answer_data
ixp_srv_readbuf req buf len =
    let offset = req.ifcall.offset in
    let count = req.ifcall.count in
    if leb len offset
    then some req
    else answer_data req buf offset (if ltb count (len - offset) then count else len - offset)

abbrev pub answer_count : Req → ℕ → Req
answer_count req n = record req { ofcall = record req.ofcall { count = n } }

-- erealloc: bytes that are added hold anything, here `junk`.
unfoldable pub erealloc : ℕ → List ℕ → ℕ → List ℕ
erealloc junk buf n = take n buf ++ replicate (n - length buf) junk

-- The memcpy and the nul, of `count` bytes of the request's data to `offset`.
unfoldable pub write_at : Req → List ℕ → ℕ → ℕ → ℕ → Option (Req × Buffer)
write_at req buf len offset count =
    if leb count (length req.ifcall.payload) && leb (offset + count + 1) (length buf)
    then some (
      answer_count req count,
      record {
        buf =
            overwrite (offset + count) (0 ∷ [])
              (overwrite offset (take count req.ifcall.payload) buf);
        len = len;
      },
    )
    else none

-- From `*len = offset + count` on; both are `uint`.
unfoldable pub store_data : ℕ → Req → Buffer → ℕ → ℕ → ℕ → Option (Req × Buffer)
unfolding write_at erealloc
store_data junk req b max offset count =
    let len = (offset + count) % 2 ^ 32 in
    if max == 0
    then write_at req (erealloc junk b.buf ((len + 1) % 2 ^ 32)) len offset count
    else write_at req b.buf len offset count

-- `(uint)~0 - offset - 1`, a `uint`
abbrev pub room_after : ℕ → ℕ
room_after offset = (2 ^ 32 - 1 + 2 ^ 32 - offset - 1) % 2 ^ 32

-- The chain of tests on `max`.
unfoldable pub limit_data : ℕ → Req → Buffer → ℕ → ℕ → ℕ → Option (Req × Buffer)
limit_data junk req b max offset count =
    if not (max == 0) && leb max offset
    then store_data junk req b max offset 0
    else if not (max == 0) && ltb (max - offset) count
    then store_data junk req b max offset (max - offset)
    else if (max == 0) && ltb (room_after offset) count
    then some (answer_count req 0, b)
    else store_data junk req b max offset count

-- `perm` is `file->tab.perm`, of which DMAPPEND is the bit 30.
unfoldable pub ixp_srv_writebuf : ℕ → ℕ → Req → Buffer → ℕ → Option (Req × Buffer)
ixp_srv_writebuf junk perm req b max =
    let offset = if bit_and perm (2 ^ 30) == 0 then req.ifcall.offset else b.len in
    if ltb (2 ^ 32 - 1) req.ifcall.offset
    then some (answer_count req 0, b)
    else if ltb b.len offset || (req.ifcall.count == 0)
    then some (answer_count req 0, b)
    else limit_data junk req b max offset req.ifcall.count
