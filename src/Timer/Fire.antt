-- ===== src/Timer/Fire.antt =====
-- ixp_nexttimer, for functions that leave the list of timers alone.
use libixp.Prelude.{
  ℕ, suc, ◌+◌, ◌-◌, ◌^◌, ◌≤◌, ◌<◌, ◌≡◌, refl, sym, ap, append-nil, List, [], ◌∷◌, ◌++◌, Option,
  some, ltb, ltb→lt, ltb→ge, arith, length, if◌then◌else◌, Bool-cases, inl, inr,
}
use libixp.Timer.{Timer, Timers, Fired, next_head, also, ixp_nexttimer}
use libixp.Timer.Table.{IsDescending, IsTimers}

zero_right : (k : ℕ) → k + 0 ≡ k
zero_right k = omega arith

module _ {A : Type 0} where
  -- Each timer is due at its own reading of the clock, from the k-th on.
  abbrev pub AreDue : (ℕ → ℕ) → ℕ → List (Timer A) → Type 0
  AreDue clock k [] = Unit
  AreDue clock k (t ∷ ts) = (t.msec ≤ clock k) × AreDue clock (suc k) ts

  -- The rounds stopped at the end of the list, or at a timer that is not yet due.
  abbrev pub HasStopped : ℕ → ℕ → List (Timer A) → Type 0
  HasStopped time ret [] = ret ≡ 0
  HasStopped time ret (t ∷ ts) = (time < t.msec) × (ret ≡ t.msec - time)

  -- `ts` is the list at the k-th reading; the functions leave the list as it is.
  pub record Outcome (clock : ℕ → ℕ) (k : ℕ) (ts : List (Timer A)) (o : Option (Fired A))
      : Type 0 where
    pub result : Fired A
    pub returns : o ≡ some result
    pub splits : result.called ++ result.srv.timer ≡ ts
    pub due : AreDue clock k result.called
    pub stopped : HasStopped (clock (k + length result.called)) result.ret result.srv.timer

  -- One timer more that is due.
  fire_one :
      (clock : ℕ → ℕ) (k : ℕ) (t : Timer A) (ts : List (Timer A)) (o : Option (Fired A))
      → t.msec ≤ clock k
      → Outcome clock (suc k) ts o
      → Outcome clock k (t ∷ ts) (also t o)
  fire_one clock k t ts o le h = record {
    result = record h.result { called = t ∷ h.result.called };
    returns = ap (also t) h.returns;
    splits = ap (λ l. t ∷ l) h.splits;
    due = (le, h.due);
    stopped =
        let shift : k + suc (length h.result.called) ≡ suc k + length h.result.called =
          omega arith in
        rw shift h.stopped;
  }

  wait :
      (clock : ℕ → ℕ) (k : ℕ) (srv : Timers A) (t : Timer A) (ts : List (Timer A))
      → clock k < t.msec
      → Outcome clock k (t ∷ ts) (
          some
            (record { ret = t.msec - clock k; called = []; srv = record srv { timer = t ∷ ts } }))
  wait clock k srv t ts lt = record {
    result = record { ret = t.msec - clock k; called = []; srv = record srv { timer = t ∷ ts } };
    returns = refl;
    splits = refl;
    due = tt;
    stopped = rw (zero_right k) (lt, refl);
  }

  module _ (clock : ℕ → ℕ) (run : Timer A → Timers A → Timers A)
      (quiet : (t : Timer A) (s : Timers A) → (run t s).timer ≡ s.timer) where
    fires :
        (ts : List (Timer A)) (k : ℕ) (srv : Timers A)
        → srv.timer ≡ ts
        → Outcome clock k ts (ixp_nexttimer (suc (length ts)) clock k run srv)
    unfolding ixp_nexttimer next_head
    fires [] k srv e = rw e (record {
      result = record { ret = 0; called = []; srv = record srv { timer = [] } };
      returns = refl;
      splits = refl;
      due = tt;
      stopped = refl;
    })
    fires (t ∷ ts) k srv e =
        let rest = record srv { timer = ts } in
        let ih = fires ts (suc k) (run t rest) (quiet t rest) in
        rw e (elim (Bool-cases (ltb (clock k) t.msec)) [
          | inl later ↦ rw later (wait clock k srv t ts (ltb→lt (clock k) t.msec later))
          | inr now ↦ rw now (fire_one clock k t ts _ (ltb→ge (clock k) t.msec now) ih)
        ])

    -- With a round for each timer and one more, ixp_nexttimer returns: it calls the functions of a
    -- first part of the list, each due at the reading before its call, and leaves the rest, which is
    -- empty, with 0 as the result, or begins with a timer that was not due at the last reading, with
    -- the time that is left to it as the result. The functions leave the list alone.
    pub nexttimer-Outcome :
        (srv : Timers A) (k : ℕ)
        → Outcome clock k srv.timer (ixp_nexttimer (suc (length srv.timer)) clock k run srv)
    nexttimer-Outcome srv k = fires srv.timer k srv refl

  -- The latest deadline.
  abbrev pub latest : List (Timer A) → ℕ
  latest [] = 0
  latest (t ∷ ts) = let rest = latest ts in if ltb t.msec rest then rest else t.msec

  latest-append :
      (xs : List (Timer A)) (y : Timer A) (ys : List (Timer A)) → y.msec ≤ latest (xs ++ y ∷ ys)
  latest-append [] y ys = ground arith
  latest-append (x ∷ xs) y ys = ground (arith, latest-append xs y ys)

  latest_below : (ts : List (Timer A)) (hi : ℕ) → IsDescending hi ts → latest ts ≤ hi
  latest_below [] hi h = omega arith
  latest_below (t ∷ ts) hi h = ground (arith, h.0, latest_below ts t.msec h.1)

  -- What ixp_nexttimer does at one time `now`, by the latest of the deadlines alone.
  pub AllOrNone : ℕ → Timers A → Fired A → Type 0
  AllOrNone now srv r =
      (latest srv.timer ≤ now → (r.called ≡ srv.timer) × (r.srv.timer ≡ []) × (r.ret ≡ 0))
      × (now < latest srv.timer
          → (r.called ≡ []) × (r.srv.timer ≡ srv.timer) × (r.ret ≡ latest srv.timer - now))

  by_latest :
      (now ret : ℕ) (k hi : ℕ) (called rest : List (Timer A))
      → IsDescending hi (called ++ rest)
      → AreDue (λ i. now) k called
      → HasStopped now ret rest
      → (latest (called ++ rest) ≤ now → (called ≡ called ++ rest) × (rest ≡ []) × (ret ≡ 0))
        × (now < latest (called ++ rest)
            → (called ≡ []) × (rest ≡ called ++ rest) × (ret ≡ latest (called ++ rest) - now))
  by_latest now ret k hi [] [] d due s = (λ _. (refl, refl, s), λ lt. absurd (omega (arith, lt)))
  by_latest now ret k hi [] (t ∷ ts) d due s = (
    λ le. absurd (omega (arith, s.0, le, latest-append [] t ts)),
    λ lt. (refl, refl, ground (arith, s.1, latest_below ts t.msec d.1)),
  )
  by_latest now ret k hi (c ∷ cs) [] d due s = (
    λ le. (sym (append-nil (c ∷ cs)), refl, s),
    λ lt. absurd (omega (arith, lt, due.0, latest_below (c ∷ cs ++ []) c.msec (omega arith, d.1))),
  )
  by_latest now ret k hi (c ∷ cs) (t ∷ ts) d due s = (
    λ le. absurd (omega (arith, le, s.0, latest-append (c ∷ cs) t ts)),
    λ lt.
        absurd
          (omega (arith, lt, due.0, latest_below (c ∷ cs ++ t ∷ ts) c.msec (omega arith, d.1))),
  )

  from_Outcome :
      (now hi : ℕ) (ts : List (Timer A)) (o : Option (Fired A))
      → IsDescending hi ts
      → (out : Outcome (λ _. now) 0 ts o)
      → (latest ts ≤ now
          → (out.result.called ≡ ts) × (out.result.srv.timer ≡ []) × (out.result.ret ≡ 0))
        × (now < latest ts
            → (out.result.called ≡ [])
              × (out.result.srv.timer ≡ ts)
              × (out.result.ret ≡ latest ts - now))
  from_Outcome now hi ts o d out =
      let r = out.result in
      rw⁻¹ out.splits
        (by_latest now r.ret 0 hi r.called r.srv.timer (rw out.splits d) out.due out.stopped)

  -- At one time `now`, with functions that leave the list alone, ixp_nexttimer returns. If the latest
  -- deadline of all has passed, it calls every timer's function, empties the list and returns 0.
  -- Otherwise it calls none, even of those that are due, and returns the time to the latest deadline.
  pub nexttimer-AllOrNone :
      (run : Timer A → Timers A → Timers A)
      → ((t : Timer A) (s : Timers A) → (run t s).timer ≡ s.timer)
      → (now : ℕ) (srv : Timers A) → IsTimers srv
      → (r : Fired A) × (ixp_nexttimer (suc (length srv.timer)) (λ _. now) 0 run srv ≡ some r)
        × AllOrNone now srv r
  unfolding AllOrNone
  nexttimer-AllOrNone run quiet now srv h =
      let o = nexttimer-Outcome (λ _. now) run quiet srv 0 in
      (o.result, o.returns, from_Outcome now (2 ^ 64 - 1) srv.timer _ h.descending o)
