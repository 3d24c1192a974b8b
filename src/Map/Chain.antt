-- ===== src/Map/Chain.antt =====
-- One chain of the table, sorted by hash.
use libixp.Prelude.{
  ℕ, ◌+◌, ◌%◌, ◌≤◌, ◌<◌, ◌≡◌, refl, Bool, true, false, List, [], ◌∷◌, Option, none, some, arith,
  ◌==◌, not, ◌||◌, if◌then◌else◌,
}
use libixp.Map.{MapEnt, at_link, insert_link, get_link, rm_link}

module _ {V : Type 0} where
  -- The value under a hash, wherever it stands in the chain.
  unfoldable pub find : ℕ → List (MapEnt V) → Option (Option V)
  find k [] = none
  find k (e ∷ es) = if e.hash == k then some e.val else find k es

  -- Hashes rise strictly from `lo` on, and all belong to bucket `i` of `n`.
  abbrev pub IsChain : ℕ → ℕ → ℕ → List (MapEnt V) → Type 0
  IsChain n i lo [] = Unit
  IsChain n i lo (e ∷ es) = (lo ≤ e.hash) × (e.hash % n ≡ i) × IsChain n i (e.hash + 1) es

  abbrev pub found : Option (Option V) → Bool
  found none = false
  found (some v) = true

  -- What an insertion leaves under the key.
  abbrev pub kept : Option (Option V) → Bool → Option V → Option V
  kept none overwrite v = v
  kept (some old) overwrite v = if overwrite then v else old

  abbrev pub or_nil : Option (Option V) → Option V
  or_nil none = none
  or_nil (some v) = v

  find_below :
      (n i lo : ℕ) (c : List (MapEnt V)) (k : ℕ) → IsChain n i lo c → k < lo → find k c ≡ none
  unfolding find
  find_below n i lo [] k h lt = refl
  find_below n i lo (e ∷ es) k h lt = ground (arith, h.0, find_below n i (e.hash + 1) es k h.2)

  IsChain-weaken :
      (n i lo lo' : ℕ) (c : List (MapEnt V)) → IsChain n i lo c → lo' ≤ lo → IsChain n i lo' c
  IsChain-weaken n i lo lo' [] h le = tt
  IsChain-weaken n i lo lo' (e ∷ es) h le = (omega (arith, h.0), h.1, h.2)

  module _ (n i : ℕ) (k : ℕ) where
    pub get-find :
        (lo : ℕ) (c : List (MapEnt V))
        → IsChain n i lo c
        → at_link k (get_link k) c ≡ (or_nil (find k c), c)
    unfolding find at_link get_link
    get-find lo [] h = refl
    get-find lo (e ∷ es) h =
        ground (arith, h.0, get-find (e.hash + 1) es h.2, find_below n i (e.hash + 1) es k h.2)

    pub insert-result :
        (v : Option V) (ow : Bool) (lo : ℕ) (c : List (MapEnt V))
        → IsChain n i lo c
        → (at_link k (insert_link k v ow) c).0 ≡ (not (found (find k c)) || ow)
    unfolding find at_link insert_link
    insert-result v true lo [] h = refl
    insert-result v false lo [] h = refl
    insert-result v ow lo (e ∷ es) h =
        ground
          (arith, h.0, insert-result v ow (e.hash + 1) es h.2, find_below n i (e.hash + 1) es k h.2)

    pub find-insert :
        (v : Option V) (ow : Bool) (j : ℕ) (lo : ℕ) (c : List (MapEnt V))
        → IsChain n i lo c
        → find j (at_link k (insert_link k v ow) c).1
          ≡ (if k == j then some (kept (find k c) ow v) else find j c)
    unfolding find at_link insert_link
    find-insert v ow j lo [] h = ground arith
    find-insert v ow j lo (e ∷ es) h =
        ground
          (arith, h.0, find-insert v ow j (e.hash + 1) es h.2, find_below n i (e.hash + 1) es k h.2)

    pub insert-IsChain :
        (v : Option V) (ow : Bool) (lo : ℕ) (c : List (MapEnt V))
        → IsChain n i lo c
        → lo ≤ k
        → k % n ≡ i
        → IsChain n i lo (at_link k (insert_link k v ow) c).1
    unfolding at_link insert_link
    insert-IsChain v ow lo [] h le at = ground arith
    insert-IsChain v ow lo (e ∷ es) h le at = ground (
      arith,
      h.0,
      h.1,
      h.2,
      insert-IsChain v ow (e.hash + 1) es h.2,
      IsChain-weaken n i (e.hash + 1) (k + 1) es h.2,
    )

    pub rm-result :
        (lo : ℕ) (c : List (MapEnt V))
        → IsChain n i lo c
        → (at_link k (rm_link k) c).0 ≡ or_nil (find k c)
    unfolding find at_link rm_link
    rm-result lo [] h = refl
    rm-result lo (e ∷ es) h =
        ground (arith, h.0, rm-result (e.hash + 1) es h.2, find_below n i (e.hash + 1) es k h.2)

    pub find-rm :
        (j : ℕ) (lo : ℕ) (c : List (MapEnt V))
        → IsChain n i lo c
        → find j (at_link k (rm_link k) c).1 ≡ (if k == j then none else find j c)
    unfolding find at_link rm_link
    find-rm j lo [] h = ground arith
    find-rm j lo (e ∷ es) h =
        ground (arith, h.0, find-rm j (e.hash + 1) es h.2, find_below n i (e.hash + 1) es k h.2)

    pub rm-IsChain :
        (lo : ℕ) (c : List (MapEnt V))
        → IsChain n i lo c
        → IsChain n i lo (at_link k (rm_link k) c).1
    unfolding at_link rm_link
    rm-IsChain lo [] h = tt
    rm-IsChain lo (e ∷ es) h = ground (
      arith,
      h.0,
      h.1,
      h.2,
      rm-IsChain (e.hash + 1) es h.2,
      IsChain-weaken n i (e.hash + 1) lo es h.2,
    )
