-- ===== src/Request/Destroy.antt =====
-- destroyfid of lib/libixp/request.c.
use libixp.Prelude.{
  ℕ, ◌+◌, ◌-◌, ◌<◌, ◌≡◌, ◌≢◌, refl, sym, ◌∙◌, List, Option, none, some, get_or, set, ◌==◌,
  if◌then◌else◌, arith, inl, inr, Bool-cases, get_or-set_ne, get_or-set_self, lt→ltb, ==_iff,
}
use libixp.Map.{IxpMap, ixp_maprm}
use libixp.Map.Chain.{found}
use libixp.Map.Refine.{view, maprm_lem}
use libixp.Request.{Fid, Conn, drop_at, drop_fid, destroyfid, decref_p9conn}
use libixp.Request.Fids.{IsEntry, IsConn, live_index}

-- The map without the number's entry, the pointer that it had freed, and the rest of the connection.
pub record Destroyed (fid : ℕ) (c : Conn) (res : ℕ) (c' : Conn) : Type 0 where
  pub keeps : IsConn c'
  pub refs : c'.ref + res ≡ c.ref
  pub rest : c' ≡ record c { fidmap = c'.fidmap; fids = c'.fids; ref = c'.ref }
  pub views : (j : ℕ) → view c'.fidmap j ≡ (if fid == j then none else view c.fidmap j)
  pub result : res ≡ (if found (view c.fidmap fid) then 1 else 0)
  pub freed : (p : ℕ) → view c.fidmap fid ≡ some (some p) → get_or c'.fids p none ≡ none
  pub others :
      (p : ℕ)
      → (f : Fid) → f.fid ≢ fid
      → get_or c.fids p none ≡ some f
      → get_or c'.fids p none ≡ some f

drop_none :
    (c : Conn) (x : Option ℕ × IxpMap ℕ)
    → x.0 ≡ none
    → drop_fid c x ≡ some (0, record c { fidmap = x.1 })
unfolding drop_fid
drop_none c (none, m) h = refl
drop_none c (some p, m) h = absurd (cc h)

drop_some :
    (c : Conn) (x : Option ℕ × IxpMap ℕ) (p : ℕ) (f : Fid)
    → x.0 ≡ some p
    → get_or c.fids p none ≡ some f
    → 1 < c.ref
    → drop_fid c x ≡ some (1, record c { fidmap = x.1; ref = c.ref - 1; fids = set c.fids p none })
unfolding drop_fid drop_at decref_p9conn
drop_some c (none, m) p f h live lt = absurd (cc h)
drop_some c (some q, m) p f h live lt =
    let eq : q ≡ p = cc h in rw (eq, live, lt→ltb 0 (c.ref - 1) (omega (arith, lt))) refl

-- An entry for another number stays one when a fid is freed.
IsEntry-free :
    (xs : List (Option Fid)) (p : ℕ) (f : Fid) (k : ℕ) (e : Option (Option ℕ))
    → get_or xs p none ≡ some f
    → f.fid ≢ k
    → IsEntry xs k e
    → IsEntry (set xs p none) k e
IsEntry-free xs p f k none live ne h = tt
IsEntry-free xs p f k (some none) live ne h = h
IsEntry-free xs p f k (some (some q)) live ne (g, e, n) =
    (g, get_or-set_ne xs p q none none (λ same. ne (cc (live, e, same, n))) ∙ e, n)

module _ (c : Conn) (h : IsConn c) (fid : ℕ) where
  destroy_none :
      view c.fidmap fid ≡ none
      → (c' : Conn) × (destroyfid c fid ≡ some (0, c')) × Destroyed fid c 0 c'
  unfolding destroyfid
  destroy_none e =
      let rm = ixp_maprm c.fidmap fid in
      let lem = maprm_lem c.fidmap h.map_ok fid in
      (
        record c { fidmap = rm.1 },
        drop_none c rm (lem.1 ∙ rw e refl),
        record {
          keeps = record {
            map_ok = lem.0;
            entries = λ k.
                rw (lem.2 k)
                  (elim (Bool-cases (fid == k)) [ inl t ↦ rw t tt | inr f ↦ rw f (h.entries k) ]);
            counted = h.counted;
          };
          refs = omega arith;
          rest = refl;
          views = lem.2;
          result = rw e refl;
          freed = λ p some_p. absurd (cc (e, some_p));
          others = λ p f ne live. live;
        },
      )

  destroy_some :
      (p : ℕ)
      → view c.fidmap fid ≡ some (some p)
      → 1 < c.ref
      → (f : Fid) → get_or c.fids p none ≡ some f
      → f.fid ≡ fid
      → (c' : Conn) × (destroyfid c fid ≡ some (1, c')) × Destroyed fid c 1 c'
  unfolding destroyfid
  destroy_some p e lt f live num =
      let rm = ixp_maprm c.fidmap fid in
      let lem = maprm_lem c.fidmap h.map_ok fid in
      (
        record c { fidmap = rm.1; ref = c.ref - 1; fids = set c.fids p none },
        drop_some c rm p f (lem.1 ∙ rw e refl) live lt,
        record {
          keeps = record {
            map_ok = lem.0;
            entries = λ k. rw (lem.2 k) (elim (Bool-cases (fid == k)) [
              | inl t ↦ rw t tt
              | inr differ ↦ rw differ (
                  IsEntry-free c.fids p f k (view c.fidmap k) live
                    (λ same. cc ((==_iff fid k).1 (sym num ∙ same), differ)) (h.entries k))
            ]);
            counted = omega (arith, lt);
          };
          refs = omega (arith, lt);
          rest = refl;
          views = lem.2;
          result = rw e refl;
          freed = λ q some_q.
              let eq : p ≡ q = cc (e, some_q) in
              rw⁻¹ eq (get_or-set_self c.fids p none none (live_index c.fids p f live));
          others = λ q g ne live'.
              get_or-set_ne c.fids p q none none (λ same. ne (cc (live, live', same, num))) ∙ live';
        },
      )

  -- With what stands under the number.
  destroy_entry :
      (e : Option (Option ℕ))
      → view c.fidmap fid ≡ e
      → IsEntry c.fids fid e
      → 1 < c.ref
      → (res : ℕ) × (c' : Conn) × (destroyfid c fid ≡ some (res, c')) × Destroyed fid c res c'
  destroy_entry none e entry lt = let (c', eq, d) = destroy_none e in (0, c', eq, d)
  destroy_entry (some none) e entry lt = elim entry [ ]
  destroy_entry (some (some p)) e (f, live, num) lt =
      let (c', eq, d) = destroy_some p e lt f live num in (1, c', eq, d)

  -- On a connection whose map of fids is well formed, with a reference beside the fid's, destroyfid
  -- returns. It answers whether the map has the number; then that entry is gone, its fid is freed and
  -- one reference is dropped. All other entries and fids stay, and the connection stays well formed.
  pub destroyfid-Destroyed :
      1 < c.ref
      → (res : ℕ) × (c' : Conn) × (destroyfid c fid ≡ some (res, c')) × Destroyed fid c res c'
  destroyfid-Destroyed lt = destroy_entry (view c.fidmap fid) refl (h.entries fid) lt
