-- ===== src/Map/Walk.antt =====
-- ixp_mapexec and ixp_mapfree meet each entry once.
use libixp.Prelude.{
  ℕ, suc, ◌+◌, ◌-◌, ◌%◌, ◌<◌, ◌≡◌, ◌≢◌, refl, sym, ap, ◌∙◌, ◌⊎◌, inl, inr, Bool-cases, le_or_lt,
  append-nil, ==_iff, ge→ltb, lt→ltb, false, List, [], ◌∷◌, ◌++◌, Option, none, some, arith, ◌==◌,
  ltb, if◌then◌else◌, get_or, length, length-replicate, get_or-replicate,
}
use libixp.Map.{MapEnt, IxpMap, exec_chain, exec_buckets, ixp_mapexec, ixp_mapfree}
use libixp.Map.Chain.{find, IsChain}
use libixp.Map.Refine.{view, IsMap}

zero_right : (a : ℕ) → a ≡ a + 0
zero_right a = omega arith

zero_left : (a : ℕ) → 0 + a ≡ a
zero_left a = omega arith

shift : (a b : ℕ) → suc a + b ≡ a + suc b
shift a b = omega arith

three_cases : (a b : ℕ) → (a < b) ⊎ ((a ≡ b) ⊎ (b < a))
three_cases a b = elim (le_or_lt b a) [
  | inl le ↦ elim (le_or_lt a b) [
    | inl le' ↦ inr (inl (omega (arith, le, le')))
    | inr gt ↦ inr (inr gt)
  ]
  | inr lt ↦ inl lt
]

-- A fold from the left, in the order of a list.
abbrev pub each {ℓ κ} : {S : Type ℓ} {B : Type κ} → (S → B → S) → List B → S → S
each run [] s = s
each run (v ∷ vs) s = each run vs (run s v)

each-append {ℓ κ} :
    {S : Type ℓ} {B : Type κ} (run : S → B → S) (xs ys : List B) (s : S)
    → each run (xs ++ ys) s ≡ each run ys (each run xs s)
each-append run [] ys s = refl
each-append run (x ∷ xs) ys s = each-append run xs ys (run s x)

module _ {V : Type 0} where
  abbrev pub entries : List (List (MapEnt V)) → List (MapEnt V)
  entries [] = []
  entries (c ∷ cs) = c ++ entries cs

  -- The values of the entries with a hash, in order.
  abbrev pub vals : ℕ → List (MapEnt V) → List (Option V)
  vals k [] = []
  vals k (e ∷ es) = let rest = vals k es in if e.hash == k then e.val ∷ rest else rest

  abbrev pub to_list : Option (Option V) → List (Option V)
  to_list none = []
  to_list (some v) = v ∷ []

  abbrev pub on_entry {κ} : {S : Type κ} → (S → Option V → S) → S → MapEnt V → S
  on_entry run s e = run s e.val

  vals-append : (k : ℕ) (xs ys : List (MapEnt V)) → vals k (xs ++ ys) ≡ vals k xs ++ vals k ys
  vals-append k [] ys = refl
  vals-append k (x ∷ xs) ys = ground (arith, vals-append k xs ys)

  module _ (n i : ℕ) where
    vals_below : (lo : ℕ) (c : List (MapEnt V)) (k : ℕ) → IsChain n i lo c → k < lo → vals k c ≡ []
    vals_below lo [] k h lt = refl
    vals_below lo (e ∷ es) k h lt = ground (arith, h.0, vals_below (e.hash + 1) es k h.2)

    vals-find :
        (lo : ℕ) (c : List (MapEnt V)) (k : ℕ) → IsChain n i lo c → vals k c ≡ to_list (find k c)
    unfolding find
    vals-find lo [] k h = refl
    vals-find lo (e ∷ es) k h =
        ground (arith, h.0, vals-find (e.hash + 1) es k h.2, vals_below (e.hash + 1) es k h.2)

    vals_elsewhere :
        (lo : ℕ) (c : List (MapEnt V)) (k : ℕ) → IsChain n i lo c → k % n ≢ i → vals k c ≡ []
    vals_elsewhere lo [] k h ne = refl
    vals_elsewhere lo (e ∷ es) k h ne = elim (Bool-cases (e.hash == k)) [
      | inl t ↦ absurd (ne (ap (λ x. x % n) (sym ((==_iff e.hash k).0 t)) ∙ h.1))
      | inr f ↦ rw f (vals_elsewhere (e.hash + 1) es k h.2 ne)
    ]

  -- One bucket more in front of those from `off + 1` on.
  vals_cons :
      (n k off : ℕ) (b : List (MapEnt V)) (bs : List (List (MapEnt V)))
      → IsChain n off 0 b
      → (vals k b
          ++ (if ltb (k % n) (suc off)
              then []
              else to_list (find k (get_or bs (k % n - suc off) []))))
        ≡ (if ltb (k % n) off then [] else to_list (find k (get_or (b ∷ bs) (k % n - off) [])))
  vals_cons n k off b bs h = elim (three_cases (k % n) off) [
    | inl lt ↦ rw (
      vals_elsewhere n off 0 b k h (omega (arith, lt)),
      lt→ltb (k % n) (suc off) (omega (arith, lt)),
      lt→ltb (k % n) off lt,
    )
    | inr (inl eq) ↦
        let d : k % n - off ≡ 0 = omega (arith, eq) in
        rw (lt→ltb (k % n) (suc off) (omega (arith, eq)), ge→ltb (k % n) off (omega (arith, eq)), d)
          (append-nil (vals k b) ∙ vals-find n off 0 b k h)
    | inr (inr gt) ↦
        let d : k % n - off ≡ suc (k % n - suc off) = omega (arith, gt) in
        rw
          (
            vals_elsewhere n off 0 b k h (omega (arith, gt)),
            ge→ltb (k % n) (suc off) gt,
            ge→ltb (k % n) off (omega (arith, gt)),
            d,
          )
          refl
  ]

  vals-entries :
      (n k off : ℕ) (bs : List (List (MapEnt V)))
      → ((i : ℕ) → IsChain n (off + i) 0 (get_or bs i []))
      → vals k (entries bs)
        ≡ (if ltb (k % n) off then [] else to_list (find k (get_or bs (k % n - off) [])))
  unfolding find
  vals-entries n k off [] h = ground arith
  vals-entries n k off (b ∷ bs) h =
      vals-append k b (entries bs)
      ∙ ap (λ l. vals k b ++ l) (vals-entries n k (suc off) bs (λ i. rw (shift off i) (h (suc i))))
      ∙ vals_cons n k off b bs (rw (zero_right off) (h 0))

  exec_chain-each {κ} :
      {S : Type κ} (run : S → Option V → S) (c : List (MapEnt V)) (s : S)
      → exec_chain run c s ≡ each (on_entry run) c s
  unfolding exec_chain
  exec_chain-each run [] s = refl
  exec_chain-each run (e ∷ es) s = exec_chain-each run es (run s e.val)

  exec_buckets-each {κ} :
      {S : Type κ} (run : S → Option V → S) (bs : List (List (MapEnt V))) (s : S)
      → exec_buckets run bs s ≡ each (on_entry run) (entries bs) s
  unfolding exec_buckets
  exec_buckets-each run [] s = refl
  exec_buckets-each run (c ∷ cs) s =
      exec_buckets-each run cs (exec_chain run c s)
      ∙ ap (each (on_entry run) (entries cs)) (exec_chain-each run c s)
      ∙ sym (each-append (on_entry run) c (entries cs) s)

  module _ (m : IxpMap V) (h : IsMap m) where
    -- ixp_mapexec calls `run` once for each entry of the table: on the values of a list of entries in
    -- which every hash stands as often as it is in the table, at most once, with its value.
    pub mapexec_lem {κ} :
        {S : Type κ} (run : S → Option V → S)
        → (es : List (MapEnt V)) × ((s : S) → ixp_mapexec m run s ≡ each (on_entry run) es s)
          × ((k : ℕ) → vals k es ≡ to_list (view m k))
    unfolding ixp_mapexec view
    mapexec_lem run = (
      entries m.bucket,
      λ s. exec_buckets-each run m.bucket s,
      λ k.
          let never : ltb (k % m.nhash) 0 ≡ false = ground arith in
          let same : k % m.nhash - 0 ≡ k % m.nhash = omega arith in
          vals-entries m.nhash k 0 m.bucket (λ i. rw (zero_left i) (h.chains i))
          ∙ rw (never, same) refl,
    )

    -- ixp_mapfree calls `destroy` on each value as ixp_mapexec calls its function, and leaves a table
    -- without entries that is well formed.
    pub mapfree_lem {κ} :
        {S : Type κ} (destroy : S → Option V → S) (s : S)
        → ((ixp_mapfree m destroy s).0 ≡ ixp_mapexec m destroy s)
          × IsMap (ixp_mapfree m destroy s).1
          × ((k : ℕ) → view (ixp_mapfree m destroy s).1 k ≡ none)
    unfolding ixp_mapexec ixp_mapfree view find
    mapfree_lem destroy s = (
      refl,
      record {
        some_buckets = h.some_buckets;
        width = length-replicate (length m.bucket) [] ∙ h.width;
        chains = λ i. rw get_or-replicate tt;
      },
      λ k. rw get_or-replicate refl,
    )
