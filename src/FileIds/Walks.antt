-- ===== src/FileIds/Walks.antt =====
-- The loop of ixp_srv_walkandclone in lib/libixp/srv_util.c.
use libixp.Prelude.{
  ℕ, suc, ◌+◌, ◌≤◌, ◌<◌, ◌≡◌, refl, ap, ◌∙◌, List, [], ◌∷◌, ◌++◌, Option, none, some, false, arith,
  All, length, occurrences, occurrences-append, ◌⊎◌, inl, inr, Bool-cases,
}
use mathlib.Core.Path.{subst}
use libixp.Request.{Req, same_string}
use libixp.FileIds.{Pool, FileId, file_at, store_file, ixp_srv_freefile}
use libixp.FileIds.Counts.{
  Chain, Kept, Chain-kept, IsPool, file_at-store_file, file_at-store_file_ne, Holding-store_file,
  owned-file,
}
use libixp.FileIds.Released.{not_free, freefile-IsPool}
use libixp.FileIds.Walking.{
  Lookup, dot, dot_dot, up_to, down_to, walk_step, walk_loop, WalkState, store_qid,
}

-- What lookup gives: nothing, or a new file id with a reference.
abbrev pub IsFound : Pool → List ℕ → Option ℕ × Pool → Type 0
IsFound s owned (none, s') = IsPool s' owned × Kept owned s s'
IsFound s owned (some t, s') =
    IsPool s' (t ∷ owned)
    × (occurrences t owned ≡ 0)
    × ((file_at s' t).next ≡ none)
    × Kept owned s s'

-- The service's lookup keeps the counts right.
abbrev pub IsLookup : Lookup → Type 0
IsLookup lookup =
    (s : Pool) (owned : List ℕ) (file : ℕ) (name : Option (List ℕ))
    → IsPool s owned
    → 0 < occurrences file owned
    → IsFound s owned (lookup s file name)

-- A file id with the list behind it, of at most `n`, each with a reference beside those of `rest`.
pub record PathTo (s : Pool) (file : ℕ) (rest : List ℕ) (n : ℕ) : Type 0 where
  pub parents : List ℕ
  pub short : length parents ≤ n
  pub chain : Chain s (file_at s file).next parents
  pub pool : IsPool s (file ∷ parents ++ rest)

-- After a step: a file id with its list, or nothing and the list as it was.
abbrev pub IsStep : Pool → ℕ → List ℕ → ℕ → Option (Option ℕ × Pool) → Type 0
IsStep s file rest n none = ⊥
IsStep s file rest n (some (none, s')) = PathTo s' file rest n × Kept rest s s'
IsStep s file rest n (some (some f, s')) = PathTo s' f rest n × Kept rest s s'

Kept-rest : (s s' : Pool) (xs rest : List ℕ) → Kept (xs ++ rest) s s' → Kept rest s s'
Kept-rest s s' xs rest k y lt = k y (omega (arith, lt, occurrences-append y xs rest))

pub Chain-owned :
    (s s' : Pool) (o : Option ℕ) (xs rest : List ℕ)
    → Kept (xs ++ rest) s s'
    → Chain s o xs
    → Chain s' o xs
Chain-owned s s' o xs rest k c =
    Chain-kept s s' o xs (λ y lt. k y (omega (arith, lt, occurrences-append y xs rest))) c

pub parents-Kept :
    (s s' : Pool) (file : ℕ) (rest parents : List ℕ)
    → Chain s (file_at s file).next parents
    → Kept (file ∷ parents ++ rest) s s'
    → Chain s' (file_at s' file).next parents
parents-Kept s s' file rest parents c k =
    rw (k file (ground arith))
      (Chain-owned s s' (file_at s file).next parents rest (λ y lt. k y (ground (arith, lt))) c)

PathTo-Kept :
    (s s' : Pool) (file : ℕ) (rest parents : List ℕ) (n : ℕ)
    → length parents ≤ n
    → Chain s (file_at s file).next parents
    → IsPool s' (file ∷ parents ++ rest)
    → Kept (file ∷ parents ++ rest) s s'
    → PathTo s' file rest n
PathTo-Kept s s' file rest parents n le c h k = record {
  parents = parents;
  short = le;
  chain = parents-Kept s s' file rest parents c k;
  pool = h;
}

down-Path :
    (s t : Pool) (file : ℕ) (rest : List ℕ) (u : ℕ) (parents : List ℕ) (n : ℕ)
    → length parents ≤ n
    → Chain s (file_at s file).next parents
    → IsPool t (u ∷ file ∷ parents ++ rest)
    → occurrences u (file ∷ parents ++ rest) ≡ 0
    → Kept (file ∷ parents ++ rest) s t
    → PathTo (store_file u (record (file_at t u) { next = some file }) t) u rest (suc n)
      × Kept rest s (store_file u (record (file_at t u) { next = some file }) t)
down-Path s t file rest u parents n le c h z k =
    let owned = file ∷ parents ++ rest in
    let f = record (file_at t u) { next = some file } in
    let lt = owned-file t (u ∷ owned) [] h u (ground arith) in
    let kept : Kept owned s (store_file u f t) = λ y g.
      ap (λ j. j.next) (file_at-store_file_ne t u f y (λ e. ground (arith, z, g, e))) ∙ k y g in
    (
      record {
        parents = file ∷ parents;
        short = omega (arith, le);
        chain = rw (file_at-store_file t u f lt) (refl, parents-Kept s _ file rest parents c kept);
        pool =
            Holding-store_file t (u ∷ owned) [] h u f (u ∷ owned) [] lt
              (not_free t (u ∷ owned) h u (ground arith)) (h.counts u) (h.bounded u)
              (λ y ne. (refl, refl)) (inl (ground arith, refl));
      },
      Kept-rest s _ (file ∷ parents) rest kept,
    )

up-Path :
    (s : Pool) (file : ℕ) (rest : List ℕ) (f : ℕ) (parents : List ℕ) (n : ℕ)
    → length parents ≤ n
    → some f ≡ (file_at s file).next
    → Chain s (file_at s file).next parents
    → IsPool s (file ∷ parents ++ rest)
    → PathTo (ixp_srv_freefile file s) f rest (suc n) × Kept rest s (ixp_srv_freefile file s)
up-Path s file rest f [] m le e c h = cc
up-Path s file rest f (y ∷ ys) m le e (n, c) h =
    let (k, kept) = freefile-IsPool s file (y ∷ ys ++ rest) h in
    let same : y ≡ f = cc in
    (
      subst (λ g. PathTo (ixp_srv_freefile file s) g rest (suc m)) same
          (PathTo-Kept s (ixp_srv_freefile file s) y rest ys (suc m) (omega (arith, le)) c k kept),
      Kept-rest s (ixp_srv_freefile file s) (y ∷ ys) rest kept,
    )

PathTo-more :
    (s : Pool) (file : ℕ) (rest : List ℕ) (n m : ℕ)
    → n ≤ m
    → PathTo s file rest n
    → PathTo s file rest m
PathTo-more s file rest n m le p = record {
  parents = p.parents;
  short = omega (arith, p.short, le);
  chain = p.chain;
  pool = p.pool;
}

up_to-Path :
    (s : Pool) (file : ℕ) (rest : List ℕ) (n : ℕ) (o : Option ℕ)
    → o ≡ (file_at s file).next
    → PathTo s file rest n
    → PathTo (up_to file s o).1 (up_to file s o).0 rest (suc n) × Kept rest s (up_to file s o).1
unfolding up_to
up_to-Path s file rest n none e p =
    (PathTo-more s file rest n (suc n) (omega arith) p, λ y lt. refl)
up_to-Path s file rest n (some f) e p = up-Path s file rest f p.parents n p.short e p.chain p.pool

down_to-IsStep :
    (s : Pool) (file : ℕ) (rest : List ℕ) (n : ℕ) (name : List ℕ) (r : Option ℕ × Pool)
    → same_string name dot ≡ false
    → (p : PathTo s file rest n) → IsFound s (file ∷ p.parents ++ rest) r
    → IsStep s file rest (suc n) (down_to name file r)
unfolding down_to
down_to-IsStep s file rest n name (none, t) nd p (h, k) = (
  PathTo-Kept s t file rest p.parents (suc n) (omega (arith, p.short)) p.chain h k,
  Kept-rest s t (file ∷ p.parents) rest k,
)
down_to-IsStep s file rest m name (some u, t) nd p (h, z, n, k) =
    rw (n, nd) (down-Path s t file rest u p.parents m p.short p.chain h z k)

abbrev pub NotDot : List ℕ → Type 0
NotDot name = same_string name dot ≡ false

-- What the loop leaves: a file id with a list of at most `n` behind it, and the request's ifcall.
pub record IsWalk (rest : List ℕ) (n : ℕ) (s : Pool) (r : Req) (w : WalkState) : Type 0 where
  pub path : PathTo w.pool w.file rest n
  pub kept : Kept rest s w.pool
  pub same : w.req.ifcall ≡ r.ifcall

abbrev pub WalkReturns : List ℕ → ℕ → Pool → Req → Option WalkState → Type 0
WalkReturns rest n s r none = ⊥
WalkReturns rest n s r (some w) = IsWalk rest n s r w

store_qid-ifcall : (i : ℕ) (f : FileId) (r : Req) → (store_qid i f r).ifcall ≡ r.ifcall
unfolding store_qid
store_qid-ifcall i f r = refl

pub WalkReturns-step :
    (rest : List ℕ) (n : ℕ) (s s' : Pool) (r r' : Req) (o : Option WalkState)
    → r'.ifcall ≡ r.ifcall
    → Kept rest s s'
    → WalkReturns rest n s' r' o
    → WalkReturns rest n s r o
WalkReturns-step rest n s s' r r' none e k h = h
WalkReturns-step rest n s s' r r' (some w) e k h = record {
  path = h.path;
  kept = λ y lt. h.kept y lt ∙ k y lt;
  same = h.same ∙ e;
}

IsStep-cases :
    (s : Pool) (file : ℕ) (rest : List ℕ) (n : ℕ) (o : Option (Option ℕ × Pool))
    → IsStep s file rest n o
    → ((t : Pool) × (o ≡ some (none, t)) × PathTo t file rest n × Kept rest s t)
      ⊎ ((f : ℕ) × (t : Pool) × (o ≡ some (some f, t)) × PathTo t f rest n × Kept rest s t)
IsStep-cases s file rest n (some (none, t)) (p, k) = inl (t, refl, p, k)
IsStep-cases s file rest n (some (some f, t)) (p, k) = inr (f, t, refl, p, k)
IsStep-cases s file rest n none h = absurd h

module _ (lookup : Lookup) (law : IsLookup lookup) where
  walk_step-IsStep :
      (name : List ℕ) (file : ℕ) (rest : List ℕ) (n : ℕ) (s : Pool)
      → same_string name dot ≡ false
      → PathTo s file rest n
      → IsStep s file rest (suc n) (walk_step lookup name file s)
  unfolding walk_step
  walk_step-IsStep name file rest n s nd p = elim (Bool-cases (same_string name dot_dot)) [
    | inl t ↦ rw t (up_to-Path s file rest n _ refl p)
    | inr t ↦ rw t (
        down_to-IsStep s file rest n name (lookup s file (some name)) nd p
          (law s (file ∷ p.parents ++ rest) file (some name) p.pool (ground arith)))
  ]

  -- `m` is the length that the list behind the last file can have.
  pub walk_loop-Returns :
      (names : List (List ℕ)) (i file : ℕ) (rest : List ℕ) (n m : ℕ) (r : Req) (s : Pool)
      → All NotDot names
      → m ≡ n + length names
      → PathTo s file rest n
      → WalkReturns rest m s r (walk_loop lookup i names file r s)
  unfolding walk_loop
  walk_loop-Returns [] i file rest n m r s a e p = record {
    path = PathTo-more s file rest n m (omega (arith, e)) p;
    kept = λ y lt. refl;
    same = refl;
  }
  walk_loop-Returns (name ∷ names) i file rest n m r s (nd, a) e p =
      elim (IsStep-cases s file rest (suc n) _ (walk_step-IsStep name file rest n s nd p)) [
        | inl (t, st, q, k) ↦
            rw (WalkReturns, st)
              (record {
                path = PathTo-more t file rest (suc n) m (omega (arith, e)) q;
                kept = k;
                same = refl;
              })
        | inr (f, t, st, q, k) ↦
            rw (WalkReturns, st)
              (WalkReturns-step rest m s t r (store_qid i (file_at t f) r) _
                (store_qid-ifcall i (file_at t f) r) k
                (walk_loop-Returns names (suc i) f rest (suc n) m (store_qid i (file_at t f) r) t a
                  (omega (arith, e)) q))
      ]
