-- ===== src/Strlcat/Result.antt =====
-- What ixp_strlcat leaves in the buffer and returns.
use libixp.Prelude.{
  ℕ, zero, suc, ◌+◌, ◌-◌, ◌≤◌, ◌<◌, ◌^◌, ◌≡◌, ◌≢◌, refl, ap, ◌∙◌, true, false, List, [], ◌∷◌, ◌++◌,
  some, take, drop, length, ltb, ge→ltb, lt→ltb, ◌==◌, if◌then◌else◌, arith,
}
use libixp.Wire.Convert.{strlen}
use libixp.Strlcat.{terminate, append_at, append_from, room_of, ixp_strlcat}

abbrev pub HasNoNul : List ℕ → Type 0
HasNoNul [] = Unit
HasNoNul (c ∷ s) = (c ≢ 0) × HasNoNul s

-- The string that is copied into the room of `n` bytes and its nul, over what is there.
abbrev pub over : ℕ → List ℕ → List ℕ → List ℕ
over n s pad = take n s ++ 0 ∷ drop (length (take n s)) pad

strlen-eq-length : (s : List ℕ) → HasNoNul s → strlen s ≡ length s
unfolding strlen
strlen-eq-length [] h = refl
strlen-eq-length (c ∷ s) h = ground (arith, h.0, strlen-eq-length s h.1)

nonzero : (c : ℕ) → c ≢ 0 → (c == 0) ≡ false
nonzero c h = ground (arith, h)

-- A nul is there, and no room for more.
append_full :
    (size : ℕ) (pad s : List ℕ)
    → HasNoNul s
    → append_at false size size (0 ∷ pad) s
      ≡ some (size + length s + (if ltb 0 (length s) then 1 else 0) - 1, 0 ∷ pad)
unfolding append_at terminate
append_full size pad [] h = ap (λ k. some (k, 0 ∷ pad)) (ground arith)
append_full size pad (c ∷ s) h =
    rw (nonzero c h.0, ge→ltb size size (omega arith), strlen-eq-length (c ∷ s) h)
      (ap (λ k. some (k, 0 ∷ pad)) (ground arith))

append_room :
    (s pad : List ℕ) (b size used n : ℕ)
    → HasNoNul s
    → size ≡ used + n
    → n ≤ length pad
    → append_at true size used (b ∷ pad) s
      ≡ some (used + length s + (if ltb n (length s) then 1 else 0) - 1, over n s pad)
unfolding append_at terminate
append_room [] pad b size used zero h e le = ap (λ k. some (k, 0 ∷ pad)) (ground arith)
append_room [] pad b size used (suc n) h e le = ap (λ k. some (k, 0 ∷ pad)) (ground arith)
append_room (c ∷ s) pad b size used zero h e le =
    rw (nonzero c h.0, ge→ltb used size (omega (arith, e)), strlen-eq-length (c ∷ s) h)
      (ap (λ k. some (k, 0 ∷ pad)) (ground arith))
append_room (c ∷ s) [] b size used (suc n) h e le = absurd (omega (arith, le))
append_room (c ∷ s) (b' ∷ pad) b size used (suc n) h e le =
    rw
      (
        nonzero c h.0,
        lt→ltb used size (omega (arith, e)),
        append_room s pad b' size (used + 1) n h.1 (omega (arith, e)) (omega (arith, le)),
      )
      (ap (λ k. some (k, c ∷ over n s pad)) (ground arith))

-- From the start of the string on; `used` bytes of it are passed.
from_start :
    (s1 s2 pad : List ℕ) (size used n : ℕ)
    → HasNoNul s1
    → HasNoNul s2
    → size ≡ used + length s1 + 1 + n
    → n ≤ length pad
    → append_from size used (s1 ++ 0 ∷ pad) s2
      ≡ some
          (used + length s1 + length s2 + (if ltb n (length s2) then 1 else 0), s1 ++ over n s2 pad)
unfolding append_from
from_start [] s2 pad size used zero h1 h2 e le =
    let at : used + 1 ≡ size = omega (arith, e) in
    rw
      (
        lt→ltb used size (omega (arith, e)),
        at,
        ge→ltb size size (omega arith),
        append_full size pad s2 h2,
      )
      (ap (λ k. some (k, 0 ∷ pad)) (ground (arith, at)))
from_start [] s2 pad size used (suc n) h1 h2 e le =
    rw
      (
        lt→ltb used size (omega (arith, e)),
        lt→ltb (used + 1) size (omega (arith, e)),
        append_room s2 pad 0 size (used + 1) (suc n) h2 (omega (arith, e)) le,
      )
      (ap (λ k. some (k, over (suc n) s2 pad)) (ground arith))
from_start (c ∷ s1) s2 pad size used n h1 h2 e le =
    rw
      (
        lt→ltb used size (omega (arith, e)),
        nonzero c h1.0,
        from_start s1 s2 pad size (used + 1) n h1.1 h2 (omega (arith, e)) le,
      )
      (ap (λ k. some (k, c ∷ (s1 ++ over n s2 pad))) (ground arith))

room_of_small : (n : ℕ) → n < 2 ^ 31 → room_of n ≡ n
room_of_small n lt = rw (lt→ltb n (2 ^ 31) lt) refl

-- In a buffer of at least `size` bytes, `size` and the other string below 2 ^ 31, that holds a string shorter than `size`, ixp_strlcat appends as
-- much of the other string as leaves the nul within `size` bytes, writes that nul and no byte
-- outside, and returns the sum of the two lengths, and one more if the string did not fit.
pub strlcat_lem :
    (s1 s2 pad : List ℕ) (n : ℕ)
    → HasNoNul s1
    → HasNoNul s2
    → n ≤ length pad
    → length s1 + 1 + n < 2 ^ 31
    → length s2 < 2 ^ 31
    → ixp_strlcat (s1 ++ 0 ∷ pad) s2 (length s1 + 1 + n)
      ≡ some (length s1 + length s2 + (if ltb n (length s2) then 1 else 0), s1 ++ over n s2 pad)
unfolding ixp_strlcat
strlcat_lem s1 s2 pad n h1 h2 le small short =
    ap (λ k. append_from k 0 (s1 ++ 0 ∷ pad) s2) (room_of_small (length s1 + 1 + n) small)
    ∙ from_start s1 s2 pad (length s1 + 1 + n) 0 n h1 h2 (omega arith) le
    ∙ ap (λ k. some (k, s1 ++ over n s2 pad)) (ground arith)
