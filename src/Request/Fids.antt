-- ===== src/Request/Fids.antt =====
-- The fids of a connection: the map from their numbers and what its pointers point to.
use libixp.Prelude.{
  ℕ, zero, suc, ◌+◌, ◌-◌, ◌≤◌, ◌<◌, ◌≡◌, refl, sym, ap, ◌∙◌, Bool, true, false, not, ◌&&◌, List, [],
  ◌∷◌, ◌++◌, Option, none, some, get_or, set, length, ◌==◌, if◌then◌else◌, arith, inl, inr,
  Bool-cases, Option-cases, get_or-set_ne, get_or-set_self, lt→ltb, length-append, ==_iff,
}
use libixp.Map.{IxpMap, ixp_mapinsert}
use libixp.Map.Chain.{found}
use libixp.Map.Refine.{view, IsMap, mapinsert_lem}
use libixp.Request.{Fid, Conn, no_qid, keep_fid, createfid, decref_p9conn}

-- What stands under a fid's number: nothing, or a pointer to a live fid with that number.
abbrev pub IsEntry : List (Option Fid) → ℕ → Option (Option ℕ) → Type 0
IsEntry fids k none = Unit
IsEntry fids k (some none) = ⊥
IsEntry fids k (some (some p)) = (f : Fid) × (get_or fids p none ≡ some f) × (f.fid ≡ k)

pub record IsConn (c : Conn) : Type 0 where
  pub map_ok : IsMap c.fidmap
  pub entries : (k : ℕ) → IsEntry c.fids k (view c.fidmap k)
  pub counted : 0 < c.ref

-- Past the end there is no fid.
get_or_past : (xs : List (Option Fid)) (p : ℕ) → length xs ≤ p → get_or xs p none ≡ none
get_or_past [] p h = refl
get_or_past (x ∷ xs) zero h = absurd (omega (arith, h))
get_or_past (x ∷ xs) (suc p) h = get_or_past xs p (omega (arith, h))

get_or_before :
    (xs ys : List (Option Fid)) (p : ℕ)
    → p < length xs
    → get_or (xs ++ ys) p none ≡ get_or xs p none
get_or_before [] ys p h = absurd (omega (arith, h))
get_or_before (x ∷ xs) ys zero h = refl
get_or_before (x ∷ xs) ys (suc p) h = get_or_before xs ys p (omega (arith, h))

get_or_last : (xs : List (Option Fid)) (x : Option Fid) → get_or (xs ++ x ∷ []) (length xs) none ≡ x
get_or_last [] x = refl
get_or_last (y ∷ ys) x = get_or_last ys x

-- A live pointer is an index.
pub live_index {ℓ} :
    {A : Type ℓ} (xs : List (Option A)) (p : ℕ) (f : A) → get_or xs p none ≡ some f → p < length xs
live_index [] p f h = absurd (cc h)
live_index (x ∷ xs) zero f h = omega arith
live_index (x ∷ xs) (suc p) f h = omega (arith, live_index xs p f h)

-- An entry stays one if the fids up to the end stay.
IsEntry-keep :
    (xs ys : List (Option Fid)) (k : ℕ) (e : Option (Option ℕ))
    → ((p : ℕ) → p < length xs → get_or ys p none ≡ get_or xs p none)
    → IsEntry xs k e
    → IsEntry ys k e
IsEntry-keep xs ys k none same h = tt
IsEntry-keep xs ys k (some none) same h = h
IsEntry-keep xs ys k (some (some p)) same (f, e, n) = (f, same p (live_index xs p f e) ∙ e, n)

keep_fid-true :
    (p : ℕ) (c : Conn) (x : Bool × IxpMap ℕ)
    → x.0 ≡ true
    → keep_fid p c x ≡ some (some p, record c { fidmap = x.1 })
unfolding keep_fid
keep_fid-true p c (true, m) h = refl
keep_fid-true p c (false, m) h = absurd (cc h)

keep_fid-false :
    (p : ℕ) (c : Conn) (x : Bool × IxpMap ℕ)
    → x.0 ≡ false
    → 1 < c.ref
    → keep_fid p c x
      ≡ some (none, record c { fidmap = x.1; fids = set c.fids p none; ref = c.ref - 1 })
unfolding keep_fid decref_p9conn
keep_fid-false p c (true, m) h lt = absurd (cc h)
keep_fid-false p c (false, m) h lt = rw (lt→ltb 0 (c.ref - 1) (omega (arith, lt))) refl

and_true :
    (b : Bool) (x y : Option (Option ℕ)) → (if b then x else y) ≡ (if b && true then x else y)
and_true true x y = refl
and_true false x y = refl

and_false : (b : Bool) (x y : Option (Option ℕ)) → y ≡ (if b && false then x else y)
and_false true x y = refl
and_false false x y = refl

-- The fid that createfid makes.
abbrev pub new_fid : ℕ → Fid
new_fid fid = record { fid = fid; qid = no_qid; omode = 255; iounit = 0 }

-- What createfid leaves for a number that is taken, and for one that is free.
pub record Created (taken : Bool) (fid : ℕ) (c : Conn) (res : Option ℕ) (c' : Conn) : Type 0 where
  pub keeps : IsConn c'
  pub result : res ≡ (if taken then none else some (length c.fids))
  pub refs : c'.ref ≡ (if taken then c.ref else c.ref + 1)
  pub views :
      (j : ℕ)
      → view c'.fidmap j
        ≡ (if (fid == j) && not taken then some (some (length c.fids)) else view c.fidmap j)
  pub fresh : get_or c'.fids (length c.fids) none ≡ (if taken then none else some (new_fid fid))
  pub others : (p : ℕ) → p < length c.fids → get_or c'.fids p none ≡ get_or c.fids p none

module _ (c : Conn) (h : IsConn c) (fid : ℕ) where
  create_free :
      view c.fidmap fid ≡ none
      → (c' : Conn) × (createfid fid c ≡ some (some (length c.fids), c'))
        × Created false fid c (some (length c.fids)) c'
  unfolding createfid
  create_free e =
      let p = length c.fids in
      let ins = ixp_mapinsert c.fidmap fid (some p) false in
      let lem = mapinsert_lem c.fidmap h.map_ok fid (some p) false in
      let views : (j : ℕ) → view ins.1 j ≡ (if fid == j then some (some p) else view c.fidmap j) =
        λ j. lem.2 j ∙ rw e refl in
      let before : (q : ℕ)
          → q < p
          → get_or (c.fids ++ some (new_fid fid) ∷ []) q none ≡ get_or c.fids q none =
        get_or_before c.fids (some (new_fid fid) ∷ []) in
      let last = get_or_last c.fids (some (new_fid fid)) in
      (
        record c { fidmap = ins.1; fids = c.fids ++ some (new_fid fid) ∷ []; ref = c.ref + 1 },
        keep_fid-true p _ ins (lem.1 ∙ rw e refl),
        record {
          keeps = record {
            map_ok = lem.0;
            entries = λ k. rw (views k) (elim (Bool-cases (fid == k)) [
              | inl t ↦ rw t (new_fid fid, last, (==_iff fid k).0 t)
              | inr f ↦ rw f (
                  IsEntry-keep c.fids (c.fids ++ some (new_fid fid) ∷ []) k (view c.fidmap k) before
                    (h.entries k))
            ]);
            counted = omega (arith, h.counted);
          };
          result = refl;
          refs = refl;
          views = λ j. views j ∙ and_true (fid == j) (some (some p)) (view c.fidmap j);
          fresh = last;
          others = before;
        },
      )

  create_taken :
      (old : Option ℕ)
      → view c.fidmap fid ≡ some old
      → (c' : Conn) × (createfid fid c ≡ some (none, c')) × Created true fid c none c'
  unfolding createfid
  create_taken old e =
      let p = length c.fids in
      let ins = ixp_mapinsert c.fidmap fid (some p) false in
      let lem = mapinsert_lem c.fidmap h.map_ok fid (some p) false in
      let grown = c.fids ++ some (new_fid fid) ∷ [] in
      let views : (j : ℕ) → view ins.1 j ≡ view c.fidmap j = λ j. elim (Bool-cases (fid == j)) [
        | inl t ↦ lem.2 j ∙ rw (t, e) (sym e ∙ ap (view c.fidmap) ((==_iff fid j).0 t))
        | inr f ↦ lem.2 j ∙ rw f refl
      ] in
      let before : (q : ℕ) → q < p → get_or (set grown p none) q none ≡ get_or c.fids q none =
        λ q lt.
          get_or-set_ne grown p q none none (omega (arith, lt))
          ∙ get_or_before c.fids (some (new_fid fid) ∷ []) q lt in
      (
        record c { fidmap = ins.1; fids = set grown p none; ref = c.ref + 1 - 1 },
        keep_fid-false p _ ins (lem.1 ∙ rw e refl) (omega (arith, h.counted)),
        record {
          keeps = record {
            map_ok = lem.0;
            entries = λ k.
                rw (views k)
                  (IsEntry-keep c.fids (set grown p none) k (view c.fidmap k) before (h.entries k));
            counted = omega (arith, h.counted);
          };
          result = refl;
          refs = omega arith;
          views = λ j. views j ∙ and_false (fid == j) (some (some p)) (view c.fidmap j);
          fresh =
              get_or-set_self grown p none none
                (omega (arith, length-append c.fids (some (new_fid fid) ∷ [])));
          others = before;
        },
      )

  -- On a connection whose map of fids is well formed createfid returns. If the number is taken it
  -- returns nil, and the map, the count of references and the fids are as they were; otherwise it
  -- returns a pointer to a new fid with the number, not open, which the map then holds under the
  -- number, and counts one reference more. The connection stays well formed.
  pub createfid-Created :
      (res : Option ℕ) × (c' : Conn) × (createfid fid c ≡ some (res, c'))
      × Created (found (view c.fidmap fid)) fid c res c'
  createfid-Created = elim (Option-cases (view c.fidmap fid)) [
    | inl e ↦ let (c', eq, made) = create_free e in (some (length c.fids), c', eq, rw e made)
    | inr (old, e) ↦ let (c', eq, made) = create_taken old e in (none, c', eq, rw e made)
  ]
