-- ===== src/Timer/Tests.antt =====
-- Concrete timers: runs, and the theorems at inputs that meet their hypotheses.
use libixp.Prelude.{
  ℕ, ◌^◌, ◌≡◌, refl, true, [], ◌∷◌, ◌+◌, ◌*◌, ◌%◌, none, some, ◌==◌, if◌then◌else◌, arith,
}
use libixp.Timer.{
  Timer, Timers, Fired, insert, remove, ixp_settimer, ixp_unsettimer, next_head, ixp_nexttimer,
}
use libixp.Timer.Table.{get, is_some, IsTimers, settimer_lem, unsettimer_lem}
use libixp.Timer.Fire.{Outcome, AllOrNone, nexttimer-Outcome, nexttimer-AllOrNone}

abbrev no_timers : Timers ℕ
no_timers = record { timer = []; lastid = 1 }

-- Deadlines 50 and 20, set at the times 10 and 15.
abbrev late : Timer ℕ
late = record { msec = 50; id = 1; action = 7 }

abbrev early : Timer ℕ
early = record { msec = 20; id = 2; action = 8 }

abbrev two_timers : Timers ℕ
two_timers = record { timer = late ∷ early ∷ []; lastid = 3 }

settimer_twice : (ixp_settimer (ixp_settimer no_timers 10 40 7).1 15 5 8).1 ≡ two_timers
unfolding ixp_settimer insert
settimer_twice = refl

unsettimer_early : ixp_unsettimer two_timers 2 ≡ (true, record two_timers { timer = late ∷ [] })
unfolding ixp_unsettimer remove
unsettimer_early = refl

abbrev keep : Timer ℕ → Timers ℕ → Timers ℕ
keep t srv = srv

-- At 30 the second timer is due, and nothing is called.
nexttimer_at_30 :
    ixp_nexttimer 3 (λ _. 30) 0 keep two_timers
    ≡ some (record { ret = 20; called = []; srv = two_timers })
unfolding ixp_nexttimer next_head
nexttimer_at_30 = refl

two_timers-IsTimers : IsTimers two_timers
unfolding get
two_timers-IsTimers = record {
  descending = (omega arith, (omega arith, tt));
  distinct = (refl, (refl, tt));
  unused = λ id le. ground arith;
}

settimer_lem_example :
    let r = ixp_settimer two_timers 15 10 9 in
    IsTimers r.1
    × (get r.0 two_timers.timer ≡ none)
    × ((j : ℕ)
        → get j r.1.timer ≡ (
            if r.0 == j
            then some (record { msec = (15 + 10) % 2 ^ 64; id = r.0; action = 9 })
            else get j two_timers.timer))
settimer_lem_example = settimer_lem two_timers two_timers-IsTimers 15 10 9

unsettimer_lem_example :
    let r = ixp_unsettimer two_timers 1 in
    IsTimers r.1
    × (r.0 ≡ is_some (get 1 two_timers.timer))
    × ((j : ℕ) → get j r.1.timer ≡ (if 1 == j then none else get j two_timers.timer))
unsettimer_lem_example = unsettimer_lem two_timers two_timers-IsTimers 1

nexttimer-Outcome_example :
    Outcome
      (λ k. 45 + 10 * k)
      0
      two_timers.timer
      (ixp_nexttimer 3 (λ k. 45 + 10 * k) 0 keep two_timers)
nexttimer-Outcome_example = nexttimer-Outcome (λ k. 45 + 10 * k) keep (λ t s. refl) two_timers 0

nexttimer-AllOrNone_example :
    (r : Fired ℕ) × (ixp_nexttimer 3 (λ _. 30) 0 keep two_timers ≡ some r)
    × AllOrNone 30 two_timers r
nexttimer-AllOrNone_example =
    nexttimer-AllOrNone keep (λ t s. refl) 30 two_timers two_timers-IsTimers
