-- ===== src/Buffers/Contents.antt =====
-- What a file's buffer holds before and after a read or a write.
use libixp.Prelude.{
  ℕ, zero, suc, ◌+◌, ◌-◌, ◌≤◌, ◌<◌, ◌≡◌, refl, sym, ap, ◌∙◌, Bool-cases, List, [], ◌∷◌, ◌++◌,
  Option, some, length, take, drop, replicate, overwrite, get_or, ltb, le→leb, gt→leb, arith, inl,
  inr, length-append, length-replicate, length-take, length-drop, length-overwrite, take-overwrite,
  take_all, ltb→lt, ltb→ge,
}
use libixp.Request.{Req}
use libixp.Buffers.{Buffer, answer_data, ixp_srv_readbuf, answer_count, erealloc, write_at}

-- The bytes that the file has.
abbrev pub contents : Buffer → List ℕ
contents b = take b.len b.buf

pub take-take : (n l : ℕ) (xs : List ℕ) → n ≤ l → take n xs ≡ take n (take l xs)
take-take zero l xs h = refl
take-take (suc n) zero xs h = absurd (omega arith)
take-take (suc n) (suc l) [] h = refl
take-take (suc n) (suc l) (x ∷ xs) h = ap (λ t. x ∷ t) (take-take n l xs (omega arith))

take-drop-take :
    (n o l : ℕ) (xs : List ℕ) → n + o ≤ l → take n (drop o xs) ≡ take n (drop o (take l xs))
take-drop-take n zero l xs h = take-take n l xs (omega arith)
take-drop-take zero (suc o) l xs h = refl
take-drop-take (suc n) (suc o) zero xs h = absurd (omega arith)
take-drop-take (suc n) (suc o) (suc l) [] h = refl
take-drop-take (suc n) (suc o) (suc l) (x ∷ xs) h = take-drop-take (suc n) o l xs (omega arith)

-- Where the end of the contents is the limit.
take_to_end :
    (c o : ℕ) (b : Buffer)
    → b.len - o ≤ c
    → o ≤ b.len
    → take (b.len - o) (drop o b.buf) ≡ take c (drop o (contents b))
take_to_end c o b le h =
    let rest = drop o (contents b) in
    let short : length rest ≤ b.len - o =
      omega (arith, length-drop o (contents b), length-take b.len b.buf) in
    take-drop-take (b.len - o) o b.len b.buf (omega (arith, h))
    ∙ take_all (b.len - o) rest short
    ∙ sym (take_all c rest (omega (arith, short, le)))

abbrev pub with_data : Req → List ℕ → Req
with_data req bs = record req { ofcall = record req.ofcall { payload = bs; count = length bs } }

answer_data_lem :
    (req : Req) (buf : List ℕ) (offset n : ℕ)
    → offset + n ≤ length buf
    → answer_data req buf offset n ≡ some (with_data req (take n (drop offset buf)))
unfolding answer_data
answer_data_lem req buf offset n h =
    let size : n ≡ length (take n (drop offset buf)) =
      omega (arith, length-take n (drop offset buf), length-drop offset buf, h) in
    rw (le→leb (offset + n) (length buf) h) (
      ap
        (λ k. some (record req {
          ofcall = record req.ofcall { payload = take n (drop offset buf); count = k };
        }))
        size)

-- At an offset within the file a read answers its bytes from there on, as many as are there and asked
-- for, with their number; at or past its end it leaves the answer as it is.
pub readbuf_lem :
    (req : Req) (b : Buffer)
    → b.len ≤ length b.buf
    → (req.ifcall.offset < b.len
        → ixp_srv_readbuf req b.buf b.len
          ≡ some (with_data req (take req.ifcall.count (drop req.ifcall.offset (contents b)))))
      × (b.len ≤ req.ifcall.offset → ixp_srv_readbuf req b.buf b.len ≡ some req)
unfolding ixp_srv_readbuf
readbuf_lem req b h =
    let o = req.ifcall.offset in
    let c = req.ifcall.count in
    (
      λ lt. rw (gt→leb b.len o lt) (elim (Bool-cases (ltb c (b.len - o))) [
        | inl t ↦ rw t (
            answer_data_lem req b.buf o c (omega (arith, h, lt, ltb→lt c (b.len - o) t))
            ∙ ap (λ bs. some (with_data req bs))
                (take-drop-take c o b.len b.buf (omega (arith, lt, ltb→lt c (b.len - o) t))))
        | inr t ↦ rw t (
            answer_data_lem req b.buf o (b.len - o) (omega (arith, h, lt))
            ∙ ap (λ bs. some (with_data req bs))
                (take_to_end c o b (ltb→ge c (b.len - o) t) (omega (arith, lt))))
      ]),
      λ le. rw (le→leb b.len o le) refl,
    )

-- erealloc keeps what the allocation held, up to the new size, which it has.
pub length-erealloc : (junk : ℕ) (buf : List ℕ) (n : ℕ) → length (erealloc junk buf n) ≡ n
unfolding erealloc
length-erealloc junk buf n = omega (
  arith,
  length-append (take n buf) (replicate (n - length buf) junk),
  length-take n buf,
  length-replicate (n - length buf) junk,
)

take-append : (o : ℕ) (xs ys : List ℕ) → o ≤ length xs → take o (xs ++ ys) ≡ take o xs
take-append zero xs ys h = refl
take-append (suc o) [] ys h = absurd (omega arith)
take-append (suc o) (x ∷ xs) ys h = ap (λ t. x ∷ t) (take-append o xs ys (omega arith))

pub take-erealloc :
    (junk o n : ℕ) (buf : List ℕ)
    → o ≤ n
    → o ≤ length buf
    → take o (erealloc junk buf n) ≡ take o buf
unfolding erealloc
take-erealloc junk o n buf h k =
    take-append o (take n buf) (replicate (n - length buf) junk)
      (omega (arith, h, k, length-take n buf))
    ∙ sym (take-take o n buf h)

take-overwrite_before : (k p : ℕ) (bs xs : List ℕ) → k ≤ p → take k (overwrite p bs xs) ≡ take k xs
take-overwrite_before k p bs [] h = refl
take-overwrite_before zero p bs (x ∷ xs) h = refl
take-overwrite_before (suc k) zero bs (x ∷ xs) h = absurd (omega arith)
take-overwrite_before (suc k) (suc p) bs (x ∷ xs) h =
    ap (λ t. x ∷ t) (take-overwrite_before k p bs xs (omega arith))

get_or-overwrite :
    (p v d : ℕ) (xs : List ℕ) → p < length xs → get_or (overwrite p (v ∷ []) xs) p d ≡ v
get_or-overwrite p v d [] h = absurd (omega arith)
get_or-overwrite zero v d (x ∷ xs) h = refl
get_or-overwrite (suc p) v d (x ∷ xs) h = get_or-overwrite p v d xs (omega arith)

-- What a write of `n` bytes at `o` leaves: the answer, the contents, and a nul behind them.
pub record Written (req : Req) (b : Buffer) (o n : ℕ) (res : Option (Req × Buffer)) : Type 0 where
  pub after : Buffer
  pub returns : res ≡ some (answer_count req n, after)
  pub size : after.len ≡ o + n
  pub holds : contents after ≡ take o (contents b) ++ take n req.ifcall.payload
  pub nul : get_or after.buf after.len 1 ≡ 0
  pub fits : after.len < length after.buf

pub write_at-Written :
    (req : Req) (b : Buffer) (buf : List ℕ) (len o n : ℕ)
    → n ≤ length req.ifcall.payload
    → o + n + 1 ≤ length buf
    → len ≡ o + n
    → take o buf ≡ take o (contents b)
    → Written req b o n (write_at req buf len o n)
unfolding write_at
write_at-Written req b buf len o n le room size old =
    let p = take n req.ifcall.payload in
    let first = overwrite o p buf in
    let both = overwrite (o + n) (0 ∷ []) first in
    let width : length both ≡ length buf =
      length-overwrite (o + n) (0 ∷ []) first ∙ length-overwrite o p buf in
    let whole : take (o + n) both ≡ take o (contents b) ++ p =
      take-overwrite_before (o + n) (o + n) (0 ∷ []) first (omega arith)
      ∙ take-overwrite o (o + n) p buf (omega (arith, length-take n req.ifcall.payload, le))
          (omega (arith, room))
      ∙ ap (λ l. l ++ p) old in
    record {
      after = record { buf = both; len = len };
      returns =
          rw (le→leb n (length req.ifcall.payload) le, le→leb (o + n + 1) (length buf) room) refl;
      size = size;
      holds = rw size whole;
      nul =
          rw size
            (get_or-overwrite (o + n) 0 1 first (omega (arith, length-overwrite o p buf, room)));
      fits = omega (arith, size, width, room);
    }
