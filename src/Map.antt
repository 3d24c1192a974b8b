-- ===== src/Map.antt =====
-- lib/libixp/map.c: a hash table with sorted chains. The locks are not modelled: each operation
-- holds the table's lock throughout.
pub mod Chain
pub mod Refine
pub mod Walk
mod Tests
use libixp.Prelude.{
  ℕ, ◌%◌, Bool, true, false, List, [], ◌∷◌, ◌++◌, Option, none, some, get_or, set, replicate,
  length, ◌==◌, leb, not, ◌&&◌, if◌then◌else◌,
}

-- struct MapEnt; `val` may be nil. `key` is always nil and is left out, `next` is the list.
pub record MapEnt {ℓ} (V : Type ℓ) : Type ℓ where
  pub hash : ℕ
  pub val : Option V

-- `bucket` has `nhash` chains.
pub record IxpMap {ℓ} (V : Type ℓ) : Type ℓ where
  pub bucket : List (List (MapEnt V))
  pub nhash : ℕ

module _ {ℓ} {V : Type ℓ} where
  -- ixp_mapinit, on buckets that the caller has zeroed
  unfoldable pub ixp_mapinit : ℕ → IxpMap V
  ixp_mapinit nbuckets = record { bucket = replicate nbuckets []; nhash = nbuckets }

  -- The loop of map_getp: `use` reads and replaces the link `*e` at which the loop stops.
  unfoldable pub at_link {κ} :
      {A : Type κ}
      → ℕ
      → (List (MapEnt V) → A × List (MapEnt V))
      → List (MapEnt V)
      → A × List (MapEnt V)
  at_link val use_link [] = use_link []
  at_link val use_link (e ∷ es) =
      let rest = at_link val use_link es in
      if leb val e.hash then use_link (e ∷ es) else (rest.0, e ∷ rest.1)

  -- `*e && (*e)->hash == val`
  unfoldable pub exists : ℕ → List (MapEnt V) → Bool
  exists val [] = false
  exists val (e ∷ es) = e.hash == val

  -- insert
  unfoldable pub insert : ℕ → List (MapEnt V) → List (MapEnt V)
  insert val link = record { hash = val; val = none } ∷ link

  -- `e->val = val`
  unfoldable pub store : Option V → List (MapEnt V) → List (MapEnt V)
  store v [] = []
  store v (e ∷ es) = record e { val = v } ∷ es

  -- ixp_mapinsert at the link, with the entry that map_getp creates there
  unfoldable pub insert_link : ℕ → Option V → Bool → List (MapEnt V) → Bool × List (MapEnt V)
  unfolding exists insert store
  insert_link key v overwrite link =
      let existed = exists key link in
      let made = if existed then link else insert key link in
      if existed && not overwrite then (false, made) else (true, store v made)

  -- What ixp_mapget reads at the link; a link to another hash is as good as nil.
  unfoldable pub get_link : ℕ → List (MapEnt V) → Option V × List (MapEnt V)
  get_link val [] = (none, [])
  get_link val (e ∷ es) = (if e.hash == val then e.val else none, e ∷ es)

  -- ixp_maprm at the link
  unfoldable pub rm_link : ℕ → List (MapEnt V) → Option V × List (MapEnt V)
  rm_link val [] = (none, [])
  rm_link val (e ∷ es) = if e.hash == val then (e.val, es) else (none, e ∷ es)

  -- map_getp: the loop runs in the bucket of the hash, which is written back.
  unfoldable pub map_getp {κ} :
      {A : Type κ} → IxpMap V → ℕ → (List (MapEnt V) → A × List (MapEnt V)) → A × IxpMap V
  map_getp map val use_link =
      let i = val % map.nhash in
      let (a, chain) = at_link val use_link (get_or map.bucket i []) in
      (a, record map { bucket = set map.bucket i chain })

  unfoldable pub ixp_mapinsert : IxpMap V → ℕ → Option V → Bool → Bool × IxpMap V
  ixp_mapinsert map key val overwrite = map_getp map key (insert_link key val overwrite)

  unfoldable pub ixp_mapget : IxpMap V → ℕ → Option V
  ixp_mapget map val = (map_getp map val (get_link val)).0

  unfoldable pub ixp_maprm : IxpMap V → ℕ → Option V × IxpMap V
  ixp_maprm map val = map_getp map val (rm_link val)

  -- The two loops of ixp_mapexec over the buckets and over a chain; `run` acts on a state.
  unfoldable pub exec_chain {κ} : {S : Type κ} → (S → Option V → S) → List (MapEnt V) → S → S
  exec_chain run [] s = s
  exec_chain run (e ∷ es) s = exec_chain run es (run s e.val)

  unfoldable pub exec_buckets {κ} :
      {S : Type κ} → (S → Option V → S) → List (List (MapEnt V)) → S → S
  exec_buckets run [] s = s
  exec_buckets run (c ∷ cs) s = exec_buckets run cs (exec_chain run c s)

  unfoldable pub ixp_mapexec {κ} : {S : Type κ} → IxpMap V → (S → Option V → S) → S → S
  ixp_mapexec map run s = exec_buckets run map.bucket s

  -- ixp_mapfree: the state that `destroy` left, and the table with its entries freed.
  unfoldable pub ixp_mapfree {κ} : {S : Type κ} → IxpMap V → (S → Option V → S) → S → S × IxpMap V
  ixp_mapfree map destroy s =
      (exec_buckets destroy map.bucket s, record map { bucket = replicate (length map.bucket) [] })
