-- ===== src/FileIds/Got.antt =====
-- ixp_srv_getfile of lib/libixp/srv_util.c and the references.
use libixp.Prelude.{
  ℕ, zero, suc, ◌+◌, ◌≤◌, ◌<◌, ◌≡◌, ◌≢◌, refl, sym, ap, ◌∙◌, List, [], ◌∷◌, ◌++◌, Option, none,
  some, false, arith, get_or, get_or-replicate, length, length-append, length-replicate, replicate,
  occurrences, inl, inr, le_or_lt, ◌⊎◌,
}
use mathlib.Core.Path.{subst}
use libixp.FileIds.{
  Pool, file_at, store_file, push_free, push_chunk, add_chunk, take_free, take_from, with_chunk,
  ixp_srv_getfile, zero_file,
}
use libixp.FileIds.Counts.{
  Chain, Chain-kept, Chain-pointer, Chain-store_file, nref-store_file, Holding, IsPool,
  file_at-store_file, file_at-store_file_ne, length-store_file, Holding-store_file, free_once,
  loose-unowned, loose-file, owned-file,
}

module _ (s : Pool) (owned loose : List ℕ) (h : Holding s owned loose) where
  -- The head of the free list leaves it.
  pub Holding-pop :
      (x : ℕ) (xs : List ℕ)
      → h.free ≡ x ∷ xs
      → Holding (record s { free_fileid = (file_at s x).next }) owned (x ∷ loose)
  unfolding file_at
  Holding-pop x xs e =
      let ch : Chain s s.free_fileid (x ∷ xs) = subst (λ l. Chain s s.free_fileid l) e h.chained in
      let cut : (y : ℕ) → occurrences y h.free ≡ occurrences y (x ∷ xs) =
        λ y. ap (occurrences y) e in
      record {
        free = xs;
        chained = Chain-pointer s (file_at s x).next _ xs ch.1;
        counts = h.counts;
        used = λ y g. ground (arith, h.used y g, cut y);
        unused = λ y l g. ground (arith, h.unused y l g, cut y);
        range = λ y le. ground (arith, h.range y le, cut y);
        bounded = h.bounded;
      }

-- A loose file id is pushed.
pub Holding-push_free :
    (s : Pool) (owned loose : List ℕ) (x : ℕ)
    → Holding s owned (x ∷ loose)
    → Holding (push_free x s) owned loose
unfolding push_free store_file file_at
Holding-push_free s owned loose x h =
    let f = record (file_at s x) { next = s.free_fileid } in
    let lt = loose-file s owned (x ∷ loose) h x (ground arith) in
    let z = loose-unowned s owned (x ∷ loose) h x (ground arith) in
    let o : occurrences x h.free ≡ 0 = ground (arith, free_once s owned (x ∷ loose) h x) in
    record {
      free = x ∷ h.free;
      chained = (
        refl,
        rw (file_at-store_file s x f lt) (
            Chain-pointer (store_file x f s) (some x) _ h.free
              (Chain-store_file s x f _ h.free o h.chained)),
      );
      counts = λ y. nref-store_file s x f lt refl y ∙ h.counts y;
      used = λ y g. ground (arith, h.used y g, o);
      unused = λ y l g. ground (arith, h.unused y (omega (arith, l, length-store_file s x f)) g, o);
      range = λ y le. ground (arith, h.range y (omega (arith, le, length-store_file s x f)), o);
      bounded = h.bounded;
    }

-- The file ids with a reference are as they were.
abbrev pub Same : List ℕ → Pool → Pool → Type 0
Same owned s s' = (y : ℕ) → 0 < occurrences y owned → file_at s' y ≡ file_at s y

pub push_free-Same :
    (s : Pool) (owned loose : List ℕ) (x : ℕ)
    → Holding s owned (x ∷ loose)
    → Same owned s (push_free x s)
unfolding push_free file_at store_file
push_free-Same s owned loose x h y lt =
    let z = loose-unowned s owned (x ∷ loose) h x (ground arith) in
    let ne : x ≢ y = λ e. absurd (omega (arith, z, lt, ap (λ v. occurrences v owned) e)) in
    file_at-store_file_ne s x (record (file_at s x) { next = s.free_fileid }) y ne

abbrev ids_from : ℕ → ℕ → List ℕ
ids_from zero x = []
ids_from (suc n) x = x ∷ ids_from n (suc x)

occurrences-ids_from :
    (n x y : ℕ)
    → ((x ≤ y) × (y < x + n) × (occurrences y (ids_from n x) ≡ 1))
      ⊎ (((y < x) ⊎ (x + n ≤ y)) × (occurrences y (ids_from n x) ≡ 0))
occurrences-ids_from zero x y = elim (le_or_lt x y) [
  | inl le ↦ inr (inr (omega (arith, le)), refl)
  | inr lt ↦ inr (inl lt, refl)
]
occurrences-ids_from (suc n) x y = ground (arith, occurrences-ids_from n (suc x) y)

Holding-push_chunk :
    (n x : ℕ) (s : Pool) (owned : List ℕ)
    → Holding s owned (ids_from n x)
    → IsPool (push_chunk n x s) owned × Same owned s (push_chunk n x s)
unfolding push_chunk
Holding-push_chunk zero x s owned h = (h, λ y lt. refl)
Holding-push_chunk (suc n) x s owned h =
    let k = Holding-push_free s owned (ids_from n (suc x)) x h in
    let r = Holding-push_chunk n (suc x) (push_free x s) owned k in
    (r.0, λ y lt. r.1 y lt ∙ push_free-Same s owned (ids_from n (suc x)) x h y lt)

get_or-append {ℓ} :
    {A : Type ℓ} (n i : ℕ) (d : A) (xs : List A) → get_or (xs ++ replicate n d) i d ≡ get_or xs i d
get_or-append n i d [] = get_or-replicate n i d
get_or-append n zero d (x ∷ xs) = refl
get_or-append n (suc i) d (x ∷ xs) = get_or-append n i d xs

abbrev longer : ℕ → Pool → Pool
longer n s = record s { files = s.files ++ replicate n zero_file }

file_at-longer : (n : ℕ) (s : Pool) (y : ℕ) → file_at (longer n s) y ≡ file_at s y
unfolding file_at
file_at-longer n s y = get_or-append n y zero_file s.files

longer-Holding :
    (n : ℕ) (s : Pool) (owned : List ℕ)
    → IsPool s owned
    → Holding (longer n s) owned (ids_from n (length s.files))
longer-Holding n s owned h =
    let len : length (longer n s).files ≡ length s.files + n =
      length-append s.files _ ∙ ap (λ k. length s.files + k) (length-replicate n zero_file) in
    let new = λ (y : ℕ). occurrences-ids_from n (length s.files) y in
    let in_range = owned-file s owned [] h in
    record {
      free = h.free;
      chained =
          Chain-kept s (longer n s) _ h.free (λ y lt. ap (λ g. g.next) (file_at-longer n s y))
            h.chained;
      counts = λ y. ap (λ g. g.nref) (file_at-longer n s y) ∙ h.counts y;
      used = λ y g. ground (arith, h.used y g, new y, in_range y g);
      unused = λ y l g. ground (arith, h.unused y, h.range y, l, len, g, new y);
      range = λ y le. ground (arith, h.range y, le, len, new y);
      bounded = h.bounded;
    }

abbrev pub IsGot : Pool → List ℕ → Option (ℕ × Pool) → Type 0
IsGot s owned none = ⊥
IsGot s owned (some (x, s')) =
    IsPool s' (x ∷ owned)
    × (occurrences x owned ≡ 0)
    × ((file_at s' x).next ≡ none)
    × Same owned s s'

take_free-IsGot :
    (s : Pool) (owned : List ℕ) (h : IsPool s owned) (x : ℕ) (xs : List ℕ)
    → h.free ≡ x ∷ xs
    → IsGot s owned (take_free s (some x))
unfolding take_free store_file file_at
take_free-IsGot s owned h x xs e =
    let f = record (file_at s x) {
      p = 0;
      volatil = false;
      nref = 1;
      next = none;
      pending = false;
    } in
    let k = Holding-pop s owned [] h x xs e in
    let z = loose-unowned _ owned _ k x (ground arith) in
    let lt = loose-file _ owned _ k x (ground arith) in
    let o : occurrences x k.free ≡ 0 = ground (arith, free_once _ owned _ k x) in
    (
      Holding-store_file _ owned (x ∷ []) k x f (x ∷ owned) [] lt o (ground (arith, z))
          (ground (arith, z)) (λ y ne. (ground (arith, ne), ground (arith, ne)))
          (inl (ground arith, refl)),
      z,
      ap (λ g. g.next) (file_at-store_file s x f lt),
      λ y g. file_at-store_file_ne s x f y (λ e'. ground (arith, z, g, e')),
    )

push_chunk-some :
    (n x : ℕ) (s : Pool) (y : ℕ)
    → s.free_fileid ≡ some y
    → (z : ℕ) × ((push_chunk n x s).free_fileid ≡ some z)
unfolding push_chunk
push_chunk-some zero x s y e = (y, e)
push_chunk-some (suc n) x s y e = push_chunk-some n (suc x) (push_free x s) x refl

-- The head of the free list, where there is one.
free-head :
    (s : Pool) (owned : List ℕ) (h : IsPool s owned) (x : ℕ) (ys : List ℕ)
    → s.free_fileid ≡ some x
    → ys ≡ h.free
    → Chain s s.free_fileid ys
    → (xs : List ℕ) × (h.free ≡ x ∷ xs)
unfolding file_at
free-head s owned h x [] e eq ch = cc
free-head s owned h x (y ∷ ys) e eq ch =
    let taken = ch.0 in let same : y ≡ x = cc in (ys, sym eq ∙ ap (λ a. a ∷ ys) same)

take_from-IsGot :
    (s : Pool) (owned : List ℕ) (x : ℕ)
    → IsPool s owned
    → s.free_fileid ≡ some x
    → IsGot s owned (take_from s)
take_from-IsGot s owned x h e =
    let (xs, eq) = free-head s owned h x h.free e refl h.chained in
    subst (λ o. IsGot s owned (take_free s o)) (sym e) (take_free-IsGot s owned h x xs eq)

with_chunk-IsPool :
    (s : Pool) (owned : List ℕ) (o : Option ℕ)
    → o ≡ s.free_fileid
    → IsPool s owned
    → IsPool (with_chunk s o) owned
      × Same owned s (with_chunk s o)
      × ((x : ℕ) × ((with_chunk s o).free_fileid ≡ some x))
unfolding add_chunk
with_chunk-IsPool s owned none e h =
    let r =
      Holding-push_chunk 15 (length s.files) (longer 15 s) owned (longer-Holding 15 s owned h) in
    (
      r.0,
      λ y lt. r.1 y lt ∙ file_at-longer 15 s y,
      push_chunk-some 14 (suc (length s.files)) (push_free (length s.files) (longer 15 s))
          (length s.files) refl,
    )
with_chunk-IsPool s owned (some x) e h = (h, λ y lt. refl, (x, sym e))

IsGot-Same :
    (s s' : Pool) (owned : List ℕ) (r : Option (ℕ × Pool))
    → Same owned s s'
    → IsGot s' owned r
    → IsGot s owned r
IsGot-Same s s' owned none k g = g
IsGot-Same s s' owned (some (x, t)) k (h, z, n, kt) = (h, z, n, λ y lt. kt y lt ∙ k y lt)

-- On a pool in which the counts are those of the references, getfile gives a file id to which there
-- was no reference, and which has no `next`. The counts are right with the new reference, too, and
-- every file id with a reference is as it was.
pub getfile-IsGot : (s : Pool) (owned : List ℕ) → IsPool s owned → IsGot s owned (ixp_srv_getfile s)
unfolding ixp_srv_getfile
getfile-IsGot s owned h =
    let (k, kept, (x, e)) = with_chunk-IsPool s owned s.free_fileid refl h in
    let s' = with_chunk s s.free_fileid in
    IsGot-Same s s' owned (take_from s') kept (take_from-IsGot s' owned x k e)
