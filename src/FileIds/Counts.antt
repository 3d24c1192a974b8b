-- ===== src/FileIds/Counts.antt =====
-- The reference counts of the pool of file ids (lib/libixp/srv_util.c).
use libixp.Prelude.{
  ℕ, zero, suc, ◌+◌, ◌^◌, ◌≤◌, ◌<◌, ◌≡◌, ◌≢◌, refl, sym, ap, List, [], ◌∷◌, Option, none, some,
  arith, get_or, length, length-set, get_or-set_self, get_or-set_ne, occurrences, ◌==◌, ==_iff,
  Bool-cases, inl, inr, le_or_lt, ◌⊎◌,
}
use libixp.FileIds.{Pool, FileId, file_at, store_file}

-- The file ids that a pointer leads through by the `next` members.
abbrev pub Chain : Pool → Option ℕ → List ℕ → Type 0
Chain s o [] = o ≡ none
Chain s o (x ∷ xs) = (o ≡ some x) × Chain s (file_at s x).next xs

-- `owned` has a file id as often as there are references to it. Each file id is owned, or once among
-- the free ones and the `loose` ones, which are neither.
pub record Holding (s : Pool) (owned loose : List ℕ) : Type 0 where
  pub free : List ℕ
  pub chained : Chain s s.free_fileid free
  pub counts : (x : ℕ) → (file_at s x).nref ≡ occurrences x owned
  pub used : (x : ℕ) → 0 < occurrences x owned → occurrences x free + occurrences x loose ≡ 0
  pub unused :
      (x : ℕ)
      → x < length s.files
      → occurrences x owned ≡ 0
      → occurrences x free + occurrences x loose ≡ 1
  pub range : (x : ℕ) → length s.files ≤ x → occurrences x free + occurrences x loose ≡ 0
  pub bounded : (x : ℕ) → occurrences x owned < 2 ^ 32

abbrev pub IsPool : Pool → List ℕ → Type 0
IsPool s owned = Holding s owned []

eq_or_ne : (a b : ℕ) → (a ≡ b) ⊎ (a ≢ b)
eq_or_ne a b = elim (Bool-cases (a == b)) [
  | inl t ↦ inl ((==_iff a b).0 t)
  | inr t ↦ inr (λ e. ground (arith, t, e))
]

module _ (s : Pool) (x : ℕ) (f : FileId) where
  pub file_at-store_file : x < length s.files → file_at (store_file x f s) x ≡ f
  unfolding file_at store_file
  file_at-store_file lt = get_or-set_self s.files x f _ lt

  pub file_at-store_file_ne : (y : ℕ) → x ≢ y → file_at (store_file x f s) y ≡ file_at s y
  unfolding file_at store_file
  file_at-store_file_ne y ne = get_or-set_ne s.files x y f _ ne

  pub length-store_file : length (store_file x f s).files ≡ length s.files
  unfolding store_file
  length-store_file = length-set s.files x f

  -- A store that keeps the count.
  pub nref-store_file :
      x < length s.files
      → f.nref ≡ (file_at s x).nref
      → (y : ℕ) → (file_at (store_file x f s) y).nref ≡ (file_at s y).nref
  nref-store_file lt e y = elim (eq_or_ne y x) [
    | inl t ↦ rw (t, file_at-store_file lt) e
    | inr ne ↦ ap (λ g. g.nref) (file_at-store_file_ne y (λ t. ne (sym t)))
  ]

get_or_beyond {ℓ} : {A : Type ℓ} (xs : List A) (i : ℕ) (d : A) → length xs ≤ i → get_or xs i d ≡ d
get_or_beyond [] i d le = refl
get_or_beyond (x ∷ xs) zero d le = absurd (omega (arith, le))
get_or_beyond (x ∷ xs) (suc i) d le = get_or_beyond xs i d (omega (arith, le))

pub Chain-kept :
    (s s' : Pool) (o : Option ℕ) (xs : List ℕ)
    → ((y : ℕ) → 0 < occurrences y xs → (file_at s' y).next ≡ (file_at s y).next)
    → Chain s o xs
    → Chain s' o xs
unfolding file_at
Chain-kept s s' o [] k h = h
Chain-kept s s' o (x ∷ xs) k (e, h) =
    (e, rw (k x (ground arith)) (Chain-kept s s' _ xs (λ y lt. k y (ground (arith, lt))) h))

pub Chain-pointer :
    (s : Pool) (p o : Option ℕ) (xs : List ℕ)
    → Chain s o xs
    → Chain (record s { free_fileid = p }) o xs
unfolding file_at
Chain-pointer s p o xs h = Chain-kept s (record s { free_fileid = p }) o xs (λ y lt. refl) h

-- The file ids of a list keep their `next`.
abbrev pub Kept : List ℕ → Pool → Pool → Type 0
Kept owned s s' = (y : ℕ) → 0 < occurrences y owned → (file_at s' y).next ≡ (file_at s y).next

-- The chain stays where the file id that is stored is not on it.
pub Chain-store_file :
    (s : Pool) (x : ℕ) (f : FileId) (o : Option ℕ) (xs : List ℕ)
    → occurrences x xs ≡ 0
    → Chain s o xs
    → Chain (store_file x f s) o xs
Chain-store_file s x f o xs z h =
    Chain-kept s (store_file x f s) o xs
      (λ y lt. ap (λ g. g.next) (file_at-store_file_ne s x f y (λ e. ground (arith, z, lt, e)))) h

module _ (s : Pool) (owned loose : List ℕ) (h : Holding s owned loose) where
  pub free_once : (x : ℕ) → occurrences x h.free + occurrences x loose ≤ 1
  free_once x = elim (le_or_lt (length s.files) x) [
    | inl le ↦ omega (arith, h.range x le)
    | inr lt ↦ elim (le_or_lt 1 (occurrences x owned)) [
      | inl le ↦ omega (arith, h.used x (omega (arith, le)))
      | inr lt' ↦ omega (arith, h.unused x lt (omega (arith, lt')))
    ]
  ]

  pub loose-unowned : (x : ℕ) → 0 < occurrences x loose → occurrences x owned ≡ 0
  loose-unowned x lt = elim (le_or_lt 1 (occurrences x owned)) [
    | inl le ↦ absurd (omega (arith, h.used x (omega (arith, le)), lt))
    | inr lt' ↦ omega (arith, lt')
  ]

  pub loose-file : (x : ℕ) → 0 < occurrences x loose → x < length s.files
  loose-file x lt = elim (le_or_lt (length s.files) x) [
    | inl le ↦ absurd (omega (arith, h.range x le, lt))
    | inr lt' ↦ lt'
  ]

  pub owned-file : (x : ℕ) → 0 < occurrences x owned → x < length s.files
  unfolding file_at
  owned-file x lt = elim (le_or_lt (length s.files) x) [
    | inl le ↦
        absurd (omega (arith, h.counts x, ap (λ f. f.nref) (get_or_beyond s.files x _ le), lt))
    | inr lt' ↦ lt'
  ]

  -- A store to a file id that is not free.
  pub Holding-store_file :
      (x : ℕ) (f : FileId) (owned' loose' : List ℕ)
      → x < length s.files
      → occurrences x h.free ≡ 0
      → f.nref ≡ occurrences x owned'
      → occurrences x owned' < 2 ^ 32
      → ((y : ℕ)
          → y ≢ x
          → (occurrences y owned' ≡ occurrences y owned)
            × (occurrences y loose' ≡ occurrences y loose))
      → ((0 < occurrences x owned') × (occurrences x loose' ≡ 0))
        ⊎ ((occurrences x owned' ≡ 0) × (occurrences x loose' ≡ 1))
      → Holding (store_file x f s) owned' loose'
  unfolding store_file
  Holding-store_file x f owned' loose' lt z n b k c = record {
    free = h.free;
    chained = Chain-store_file s x f _ h.free z h.chained;
    counts = λ y. elim (eq_or_ne y x) [
      | inl e ↦ rw (e, file_at-store_file s x f lt) n
      | inr ne ↦ rw (file_at-store_file_ne s x f y (λ e. ne (sym e)), (k y ne).0) (h.counts y)
    ];
    used = λ y g. elim (eq_or_ne y x) [
      | inl e ↦ rw e (ground (arith, z, c, g, ap (λ v. occurrences v owned') e))
      | inr ne ↦ omega (arith, k y ne, h.used y (omega (arith, k y ne, g)))
    ];
    unused = λ y l g. elim (eq_or_ne y x) [
      | inl e ↦ rw e (ground (arith, z, c, g, ap (λ v. occurrences v owned') e))
      | inr ne ↦ omega (
        arith,
        k y ne,
        h.unused y (omega (arith, l, length-store_file s x f)) (omega (arith, k y ne, g)),
      )
    ];
    range = λ y le. elim (eq_or_ne y x) [
      | inl e ↦ absurd (omega (arith, le, length-store_file s x f, lt, e))
      | inr ne ↦ omega (arith, k y ne, h.range y (omega (arith, le, length-store_file s x f)))
    ];
    bounded = λ y. elim (eq_or_ne y x) [ inl e ↦ rw e b | inr ne ↦ rw (k y ne).0 (h.bounded y) ];
  }
