-- ===== src/FileIds/Released.antt =====
-- ixp_srv_freefile and ixp_srv_clonefiles of lib/libixp/srv_util.c.
use libixp.Prelude.{
  ℕ, zero, suc, ◌+◌, ◌-◌, ◌%◌, ◌^◌, ◌≤◌, ◌<◌, ◌≡◌, refl, ap, ◌∙◌, List, [], ◌∷◌, ◌++◌, Option, none,
  some, false, arith, length, occurrences, occurrences-append, ◌==◌, ==_iff, Bool-cases, inl, inr,
}
use libixp.FileIds.{Pool, FileId, file_at, store_file, ixp_srv_freefile, free_all, ref_all, linked}
use libixp.FileIds.Counts.{
  Chain, Kept, Holding, IsPool, file_at-store_file, file_at-store_file_ne, Holding-store_file,
  owned-file,
}
use libixp.FileIds.Got.{Holding-push_free, push_free-Same}

-- A file id with a reference is not among the free ones.
pub not_free :
    (s : Pool) (owned : List ℕ) (h : IsPool s owned) (x : ℕ)
    → 0 < occurrences x owned
    → occurrences x h.free ≡ 0
not_free s owned h x lt = omega (arith, h.used x lt)

pub store_file-Kept :
    (s : Pool) (owned : List ℕ) (x : ℕ) (f : FileId)
    → x < length s.files
    → f.next ≡ (file_at s x).next
    → Kept owned s (store_file x f s)
store_file-Kept s owned x f lt e y g = elim (Bool-cases (y == x)) [
  | inl t ↦ rw ((==_iff y x).0 t, file_at-store_file s x f lt) e
  | inr t ↦ ap (λ g. g.next) (file_at-store_file_ne s x f y (λ e'. ground (arith, t, e')))
]

-- On a pool in which the counts are right, freefile drops one reference to the file id: the counts are
-- right without it, which is free again if it was the last one, and every other file id with a
-- reference keeps its `next`.
pub freefile-IsPool :
    (s : Pool) (x : ℕ) (owned : List ℕ)
    → IsPool s (x ∷ owned)
    → IsPool (ixp_srv_freefile x s) owned × Kept owned s (ixp_srv_freefile x s)
unfolding ixp_srv_freefile
freefile-IsPool s x owned h =
    let n = ((file_at s x).nref + 2 ^ 32 - 1) % 2 ^ 32 in
    let f = record (file_at s x) { nref = n } in
    let e : n ≡ occurrences x owned = ground (arith, h.counts x, h.bounded x) in
    let lt = owned-file s (x ∷ owned) [] h x (ground arith) in
    let o = not_free s (x ∷ owned) h x (ground arith) in
    let b : occurrences x owned < 2 ^ 32 = ground (arith, h.bounded x) in
    elim (Bool-cases (n == 0)) [
      | inl t ↦
          let f' = record f { name = none } in
          let z : occurrences x owned ≡ 0 = ground (arith, t, e) in
          let k : Holding (store_file x f' s) owned (x ∷ []) =
            Holding-store_file s (x ∷ owned) [] h x f' owned (x ∷ []) lt o e b
              (λ y ne. (ground (arith, ne), ground (arith, ne))) (inr (z, ground arith)) in
          rw t (
            Holding-push_free _ owned [] x k,
            λ y g.
                ap (λ j. j.next) (push_free-Same _ owned [] x k y g)
                ∙ store_file-Kept s owned x f' lt refl y g,
          )
      | inr t ↦
          let g : 0 < occurrences x owned = ground (arith, t, e) in
          rw t (
            Holding-store_file s (x ∷ owned) [] h x f owned [] lt o e b
                (λ y ne. (ground (arith, ne), refl)) (inl (g, refl)),
            store_file-Kept s owned x f lt refl,
          )
    ]

pub IsPool-same :
    (s : Pool) (owned owned' : List ℕ)
    → ((y : ℕ) → occurrences y owned' ≡ occurrences y owned)
    → IsPool s owned
    → IsPool s owned'
IsPool-same s owned owned' e h = record {
  free = h.free;
  chained = h.chained;
  counts = λ y. omega (arith, h.counts y, e y);
  used = λ y g. h.used y (omega (arith, g, e y));
  unused = λ y l g. h.unused y l (omega (arith, g, e y));
  range = h.range;
  bounded = λ y. omega (arith, h.bounded y, e y);
}

pub free_all-IsPool :
    (xs : List ℕ) (s : Pool) (owned : List ℕ)
    → IsPool s (xs ++ owned)
    → IsPool (free_all xs s) owned × Kept owned s (free_all xs s)
unfolding free_all
free_all-IsPool [] s owned h = (h, λ y lt. refl)
free_all-IsPool (x ∷ xs) s owned h =
    let (k, kept) = freefile-IsPool s x (xs ++ owned) h in
    let (r, kept') = free_all-IsPool xs (ixp_srv_freefile x s) owned k in
    (r, λ y lt. kept' y lt ∙ kept y (omega (arith, lt, occurrences-append y xs owned)))

pub linked-Chain :
    (xs : List ℕ) (s : Pool) (o : Option ℕ) (fuel : ℕ)
    → Chain s o xs
    → length xs ≤ fuel
    → linked fuel s o ≡ some xs
unfolding linked file_at
linked-Chain [] s o fuel h le = rw h refl
linked-Chain (x ∷ xs) s o zero h le = absurd (omega (arith, le))
linked-Chain (x ∷ xs) s o (suc fuel) (e, h) le =
    rw (e, linked-Chain xs s (file_at s x).next fuel h (omega (arith, le))) refl

-- A reference more to each file id of a list.
abbrev pub IsRef : Pool → List ℕ → List ℕ → Option Pool → Type 0
IsRef s xs owned none = ⊥
IsRef s xs owned (some s') = IsPool s' (xs ++ owned) × Kept owned s s'

IsRef-more :
    (s s' : Pool) (x : ℕ) (xs owned : List ℕ) (r : Option Pool)
    → Kept owned s s'
    → IsRef s' xs (x ∷ owned) r
    → IsRef s (x ∷ xs) owned r
IsRef-more s s' x xs owned none kept h = h
IsRef-more s s' x xs owned (some t) kept (h, k) = (
  IsPool-same t (xs ++ x ∷ owned) (x ∷ xs ++ owned)
      (λ y. ground (arith, occurrences-append y xs (x ∷ owned), occurrences-append y xs owned)) h,
  λ y lt. k y (ground (arith, lt)) ∙ kept y lt,
)

pub ref_all-IsRef :
    (xs : List ℕ) (s : Pool) (owned : List ℕ)
    → IsPool s owned
    → ((y : ℕ) → 0 < occurrences y xs → 0 < occurrences y owned)
    → ((y : ℕ) → occurrences y xs + occurrences y owned < 2 ^ 32)
    → IsRef s xs owned (ref_all xs s)
unfolding ref_all
ref_all-IsRef [] s owned h i b = (h, λ y lt. refl)
ref_all-IsRef (x ∷ xs) s owned h i b =
    let n = ((file_at s x).nref + 1) % 2 ^ 32 in
    let f = record (file_at s x) { nref = n } in
    let e : n ≡ suc (occurrences x owned) = ground (arith, h.counts x, b x) in
    let t : (n == 0) ≡ false = ground (arith, e) in
    let own = i x (ground arith) in
    let lt = owned-file s owned [] h x own in
    let k : IsPool (store_file x f s) (x ∷ owned) =
      Holding-store_file s owned [] h x f (x ∷ owned) [] lt (not_free s owned h x own)
        (ground (arith, e)) (ground (arith, b x)) (λ y ne. (ground (arith, ne), refl))
        (inl (ground arith, refl)) in
    rw t (
      IsRef-more s (store_file x f s) x xs owned _ (store_file-Kept s owned x f lt refl) (
        ref_all-IsRef xs (store_file x f s) (x ∷ owned) k (λ y g. ground (arith, i y, g))
          (λ y. ground (arith, b y))))
