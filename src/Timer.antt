-- ===== src/Timer.antt =====
-- lib/libixp/timer.c: the timers of a server. The server's lock is not modelled: it is held but for
-- the calls of the timers' functions. ixp_msec is a parameter, the readings of the clock.
pub mod Table
pub mod Fire
mod Tests
use libixp.Prelude.{
  ℕ, zero, suc, ◌+◌, ◌-◌, ◌%◌, ◌^◌, Bool, true, false, List, [], ◌∷◌, Option, none, some, ◌==◌, ltb,
  if◌then◌else◌,
}

-- struct IxpTimer; `link` is the list, `action` is the pair of `fn` and `aux`.
pub record Timer (A : Type 0) : Type 0 where
  pub msec : ℕ
  pub id : ℕ
  pub action : A

-- `srv->timer`, and the static `lastid`
pub record Timers (A : Type 0) : Type 0 where
  pub timer : List (Timer A)
  pub lastid : ℕ

-- What ixp_nexttimer returns, the timers whose functions it called, in order, and the server.
pub record Fired (A : Type 0) : Type 0 where
  pub ret : ℕ
  pub called : List (Timer A)
  pub srv : Timers A

module _ {A : Type 0} where
  -- The loop of ixp_settimer and the insertion at the link where it stops.
  unfoldable pub insert : Timer A → List (Timer A) → List (Timer A)
  insert t [] = t ∷ []
  insert t (x ∷ xs) = let rest = insert t xs in if ltb x.msec t.msec then t ∷ x ∷ xs else x ∷ rest

  -- `now` is what ixp_msec returns; the sum is a `uint64_t`.
  unfoldable pub ixp_settimer : Timers A → ℕ → ℕ → A → ℕ × Timers A
  ixp_settimer srv now msec action =
      let time = (now + msec) % 2 ^ 64 in
      let t : Timer A = record { msec = time; id = srv.lastid; action = action } in
      (srv.lastid, record { timer = insert t srv.timer; lastid = srv.lastid + 1 })

  -- The loop of ixp_unsettimer; the flag says that a timer was found.
  unfoldable pub remove : ℕ → List (Timer A) → Bool × List (Timer A)
  remove id [] = (false, [])
  remove id (t ∷ ts) =
      let rest = remove id ts in if t.id == id then (true, ts) else (rest.0, t ∷ rest.1)

  unfoldable pub ixp_unsettimer : Timers A → ℕ → Bool × Timers A
  ixp_unsettimer srv id = let r = remove id srv.timer in (r.0, record srv { timer = r.1 })

  abbrev also : Timer A → Option (Fired A) → Option (Fired A)
  also t none = none
  also t (some r) = some (record r { called = t ∷ r.called })

  -- One round of the loop of ixp_nexttimer at the time `time`; `loop` are the rounds that follow.
  unfoldable pub next_head :
      ℕ
      → (Timer A → Timers A → Timers A)
      → (Timers A → Option (Fired A))
      → Timers A
      → List (Timer A)
      → Option (Fired A)
  next_head time run loop srv [] = some (record { ret = 0; called = []; srv = srv })
  next_head time run loop srv (t ∷ ts) =
      if ltb time t.msec
      then some (record { ret = t.msec - time; called = []; srv = srv })
      else also t (loop (run t (record srv { timer = ts })))

  -- `clock k` is the k-th reading of ixp_msec; `run` is what a timer's function does to the server.
  -- `none` is out of fuel.
  unfoldable pub ixp_nexttimer :
      ℕ → (ℕ → ℕ) → ℕ → (Timer A → Timers A → Timers A) → Timers A → Option (Fired A)
  ixp_nexttimer zero clock k run srv = none
  ixp_nexttimer (suc fuel) clock k run srv =
      next_head (clock k) run (ixp_nexttimer fuel clock (suc k) run) srv srv.timer
