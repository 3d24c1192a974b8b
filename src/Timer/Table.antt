-- ===== src/Timer/Table.antt =====
-- The timers of a server as a table by id, and the order of their list.
use libixp.Prelude.{
  ℕ, ◌+◌, ◌-◌, ◌%◌, ◌^◌, ◌≤◌, ◌≡◌, refl, Bool, true, false, List, [], ◌∷◌, Option, none, some, ◌==◌,
  arith, if◌then◌else◌,
}
use libixp.Timer.{Timer, Timers, insert, ixp_settimer, remove, ixp_unsettimer}

module _ {A : Type 0} where
  -- The timer with an id.
  unfoldable pub get : ℕ → List (Timer A) → Option (Timer A)
  get id [] = none
  get id (t ∷ ts) = if t.id == id then some t else get id ts

  abbrev pub is_some : Option (Timer A) → Bool
  is_some none = false
  is_some (some t) = true

  -- The deadlines do not rise along the list, and the first is at most `hi`.
  abbrev pub IsDescending : ℕ → List (Timer A) → Type 0
  IsDescending hi [] = Unit
  IsDescending hi (t ∷ ts) = (t.msec ≤ hi) × IsDescending t.msec ts

  -- No two timers have the same id.
  abbrev pub IsDistinct : List (Timer A) → Type 0
  IsDistinct [] = Unit
  IsDistinct (t ∷ ts) = (get t.id ts ≡ none) × IsDistinct ts

  pub record IsTimers (srv : Timers A) : Type 0 where
    pub descending : IsDescending (2 ^ 64 - 1) srv.timer
    pub distinct : IsDistinct srv.timer
    pub unused : (id : ℕ) → srv.lastid ≤ id → get id srv.timer ≡ none

  IsDescending-weaken :
      (ts : List (Timer A)) (hi lo : ℕ) → IsDescending lo ts → lo ≤ hi → IsDescending hi ts
  IsDescending-weaken [] hi lo h le = tt
  IsDescending-weaken (t ∷ ts) hi lo h le = (omega (arith, h.0), h.1)

  insert-IsDescending :
      (t : Timer A) (ts : List (Timer A)) (hi : ℕ)
      → t.msec ≤ hi
      → IsDescending hi ts
      → IsDescending hi (insert t ts)
  unfolding insert
  insert-IsDescending t [] hi le h = (le, tt)
  insert-IsDescending t (x ∷ xs) hi le h = ground (arith, h.0, h.1, insert-IsDescending t xs x.msec)

  get-insert :
      (t : Timer A) (ts : List (Timer A)) (j : ℕ)
      → get t.id ts ≡ none
      → get j (insert t ts) ≡ (if t.id == j then some t else get j ts)
  unfolding insert get
  get-insert t [] j h = refl
  get-insert t (x ∷ xs) j h = ground (arith, get-insert t xs j)

  insert-IsDistinct :
      (t : Timer A) (ts : List (Timer A))
      → get t.id ts ≡ none
      → IsDistinct ts
      → IsDistinct (insert t ts)
  unfolding insert get
  insert-IsDistinct t [] h d = (refl, tt)
  insert-IsDistinct t (x ∷ xs) h d =
      ground (arith, h, d.0, d.1, insert-IsDistinct t xs, get-insert t xs x.id)

  remove_below :
      (id : ℕ) (ts : List (Timer A)) (hi : ℕ)
      → IsDescending hi ts
      → IsDescending hi (remove id ts).1
  unfolding remove
  remove_below id [] hi h = tt
  remove_below id (x ∷ xs) hi h =
      ground
        (arith, h.0, h.1, remove_below id xs x.msec h.1, IsDescending-weaken xs hi x.msec h.1 h.0)

  get-remove :
      (id : ℕ) (ts : List (Timer A)) (j : ℕ)
      → IsDistinct ts
      → get j (remove id ts).1 ≡ (if id == j then none else get j ts)
  unfolding remove get
  get-remove id [] j d = ground arith
  get-remove id (x ∷ xs) j d = ground (arith, d.0, get-remove id xs j d.1)

  remove-IsDistinct : (id : ℕ) (ts : List (Timer A)) → IsDistinct ts → IsDistinct (remove id ts).1
  unfolding remove get
  remove-IsDistinct id [] d = tt
  remove-IsDistinct id (x ∷ xs) d =
      ground (arith, d.0, d.1, remove-IsDistinct id xs d.1, get-remove id xs x.id d.1)

  remove-found : (id : ℕ) (ts : List (Timer A)) → (remove id ts).0 ≡ is_some (get id ts)
  unfolding remove get
  remove-found id [] = refl
  remove-found id (x ∷ xs) = ground (arith, remove-found id xs)

  module _ (srv : Timers A) (h : IsTimers srv) where
    -- ixp_settimer returns an id that no timer of the server has, and adds a timer with that id, the
    -- action given and the deadline `msec` from now, a 64-bit number; every other id keeps its
    -- timer. The list is still ordered, and all its ids differ.
    pub settimer_lem :
        (now msec : ℕ) (action : A)
        → let r = ixp_settimer srv now msec action in
          IsTimers r.1
          × (get r.0 srv.timer ≡ none)
          × ((j : ℕ)
              → get j r.1.timer ≡ (
                  if r.0 == j
                  then some (record { msec = (now + msec) % 2 ^ 64; id = r.0; action = action })
                  else get j srv.timer))
    unfolding ixp_settimer
    settimer_lem now msec action =
        let t : Timer A = record {
          msec = (now + msec) % 2 ^ 64;
          id = srv.lastid;
          action = action;
        } in
        let fresh : get srv.lastid srv.timer ≡ none = h.unused srv.lastid (omega arith) in
        (
          record {
            descending = insert-IsDescending t srv.timer (2 ^ 64 - 1) (omega arith) h.descending;
            distinct = insert-IsDistinct t srv.timer fresh h.distinct;
            unused = λ id le. ground (arith, get-insert t srv.timer id fresh, h.unused id);
          },
          fresh,
          λ j. get-insert t srv.timer j fresh,
        )

    -- ixp_unsettimer tells whether there is a timer with the id, removes that timer and no other, and
    -- keeps the list ordered and its ids different.
    pub unsettimer_lem :
        (id : ℕ)
        → let r = ixp_unsettimer srv id in
          IsTimers r.1
          × (r.0 ≡ is_some (get id srv.timer))
          × ((j : ℕ) → get j r.1.timer ≡ (if id == j then none else get j srv.timer))
    unfolding ixp_unsettimer
    unsettimer_lem id = (
      record {
        descending = remove_below id srv.timer (2 ^ 64 - 1) h.descending;
        distinct = remove-IsDistinct id srv.timer h.distinct;
        unused = λ j le. ground (arith, get-remove id srv.timer j h.distinct, h.unused j le);
      },
      remove-found id srv.timer,
      λ j. get-remove id srv.timer j h.distinct,
    )
