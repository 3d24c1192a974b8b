-- ===== src/Map/Refine.antt =====
-- The table as a finite map from hashes to values.
use libixp.Prelude.{
  ℕ, ◌%◌, ◌<◌, ◌≡◌, ◌≢◌, refl, sym, ap, ◌∙◌, Bool, false, List, [], Option, none, some, arith, ◌==◌,
  not, ◌||◌, ==_iff, Bool-cases, inl, inr, length, get_or, set, length-set, length-replicate,
  get_or-set, get_or-set_self, get_or-set_ne, get_or-replicate, if◌then◌else◌,
}
use libixp.Map.{
  MapEnt, IxpMap, at_link, insert_link, rm_link, map_getp, ixp_mapinit, ixp_mapinsert, ixp_mapget,
  ixp_maprm,
}
use libixp.Map.Chain.{
  find, IsChain, found, kept, or_nil, get-find, insert-result, find-insert, insert-IsChain,
  rm-result, find-rm, rm-IsChain,
}

module _ {V : Type 0} where
  -- What is stored under a hash: `none` if there is no entry; an entry may hold nil.
  unfoldable pub view : IxpMap V → ℕ → Option (Option V)
  view m k = find k (get_or m.bucket (k % m.nhash) [])

  -- Each bucket is sorted and holds only hashes of its own.
  pub record IsMap (m : IxpMap V) : Type 0 where
    pub some_buckets : 0 < m.nhash
    pub width : length m.bucket ≡ m.nhash
    pub chains : (i : ℕ) → IsChain m.nhash i 0 (get_or m.bucket i [])

  -- A write to the bucket of `k` that keeps its chain sorted.
  set-IsMap :
      (m : IxpMap V) (i : ℕ) (c : List (MapEnt V))
      → IsMap m
      → IsChain m.nhash i 0 c
      → IsMap (record m { bucket = set m.bucket i c })
  set-IsMap m i c h hc = record {
    some_buckets = h.some_buckets;
    width = length-set m.bucket i c ∙ h.width;
    chains = λ j. elim (get_or-set m.bucket i j c []) [
      | inl e ↦ rw (e.1, ← e.0) hc
      | inr e ↦ rw e (h.chains j)
    ];
  }

  -- A lookup after such a write, in terms of the lookups in the old and the new chain.
  view-set :
      (m : IxpMap V) (k j : ℕ) (c : List (MapEnt V)) (o : Option (Option V))
      → IsMap m
      → ((q : ℕ) → find q c ≡ (if k == q then o else find q (get_or m.bucket (k % m.nhash) [])))
      → view (record m { bucket = set m.bucket (k % m.nhash) c }) j
        ≡ (if k == j then o else view m j)
  unfolding view
  view-set m k j c o h reads =
      let xs = m.bucket in
      let n = m.nhash in
      let small : k % n < length xs = grind (arith, h.width, h.some_buckets) in
      elim (Bool-cases (k % n == j % n)) [
        | inl t ↦
            let e : k % n ≡ j % n = (==_iff (k % n) (j % n)).0 t in
            ap (λ i. find j (get_or (set xs (k % n) c) i [])) (sym e)
            ∙ ap (find j) (get_or-set_self xs (k % n) c [] small)
            ∙ reads j
            ∙ ap (λ i. if k == j then o else find j (get_or xs i [])) e
        | inr t ↦
            let ne : k % n ≢ j % n = λ e. cc ((==_iff (k % n) (j % n)).1 e, t) in
            let other : (k == j) ≡ false = elim (Bool-cases (k == j)) [
              | inl same ↦ absurd (ne (ap (λ x. x % n) ((==_iff k j).0 same)))
              | inr differ ↦ differ
            ] in
            ap (find j) (get_or-set_ne xs (k % n) (j % n) c [] ne) ∙ rw other
      ]

  module _ (m : IxpMap V) (h : IsMap m) (k : ℕ) where
    chain : IsChain m.nhash (k % m.nhash) 0 (get_or m.bucket (k % m.nhash) [])
    chain = h.chains (k % m.nhash)

    -- ixp_mapget returns the value under the hash, and nil where there is none.
    pub mapget-eq-view : ixp_mapget m k ≡ or_nil (view m k)
    unfolding ixp_mapget map_getp view
    mapget-eq-view =
        ap (λ (r : Option V × List (MapEnt V)). r.0)
          (get-find m.nhash (k % m.nhash) k 0 (get_or m.bucket (k % m.nhash) []) chain)

    -- ixp_mapinsert keeps the table well formed. It answers false exactly if there was an entry and
    -- `overwrite` is not set. Afterwards the hash has the value given, or the old one if there was
    -- an entry and `overwrite` is not set; every other hash is as it was.
    pub mapinsert_lem :
        (v : Option V) (overwrite : Bool)
        → IsMap (ixp_mapinsert m k v overwrite).1
          × ((ixp_mapinsert m k v overwrite).0 ≡ (not (found (view m k)) || overwrite))
          × ((j : ℕ)
              → view (ixp_mapinsert m k v overwrite).1 j
                ≡ (if k == j then some (kept (view m k) overwrite v) else view m j))
    unfolding ixp_mapinsert map_getp view
    mapinsert_lem v overwrite =
        let n = m.nhash in
        let i = k % n in
        let c = get_or m.bucket i [] in
        let c' = (at_link k (insert_link k v overwrite) c).1 in
        (
          set-IsMap m i c' h (insert-IsChain n i k v overwrite 0 c chain (omega arith) refl),
          insert-result n i k v overwrite 0 c chain,
          λ j.
              view-set m k j c' (some (kept (find k c) overwrite v)) h
                (λ q. find-insert n i k v overwrite q 0 c chain),
        )

    -- ixp_maprm keeps the table well formed, returns the value that was under the hash, or nil, and
    -- removes that entry and no other.
    pub maprm_lem :
        IsMap (ixp_maprm m k).1
        × ((ixp_maprm m k).0 ≡ or_nil (view m k))
        × ((j : ℕ) → view (ixp_maprm m k).1 j ≡ (if k == j then none else view m j))
    unfolding ixp_maprm map_getp view
    maprm_lem =
        let n = m.nhash in
        let i = k % n in
        let c = get_or m.bucket i [] in
        let c' = (at_link k (rm_link k) c).1 in
        (
          set-IsMap m i c' h (rm-IsChain n i k 0 c chain),
          rm-result n i k 0 c chain,
          λ j. view-set m k j c' none h (λ q. find-rm n i k q 0 c chain),
        )

  pub mapinit-IsMap : (n : ℕ) → 0 < n → IsMap (ixp_mapinit {V = V} n)
  unfolding ixp_mapinit
  mapinit-IsMap n h = record {
    some_buckets = h;
    width = length-replicate n [];
    chains = λ i. rw get_or-replicate tt;
  }

  pub mapinit-view : (n k : ℕ) → view (ixp_mapinit {V = V} n) k ≡ none
  unfolding ixp_mapinit view find
  mapinit-view n k = rw get_or-replicate
