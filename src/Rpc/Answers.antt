-- ===== src/Rpc/Answers.antt =====
-- An answer goes to the call with its tag (lib/libixp/rpc.c).
use mathlib.Core.Path.{subst}
use libixp.Prelude.{
  ℕ, ◌+◌, ◌-◌, ◌<◌, ◌≡◌, ◌≢◌, refl, sym, ap, ◌∙◌, true, false, none, some, get_or, set, length,
  length-set, get_or-set_self, get_or-set_ne, List, [], ◌∷◌, occurrences, suc, ◌==◌, Bool-cases,
  inl, inr, ltb, lt→ltb, ge→ltb, if◌then◌else◌, arith,
}
use libixp.Wire.Types.{Fcall}
use libixp.Rpc.{Rpc, Mux, no_rpc, on_rpc, unlink, dequeue, hand, dispatch_fcall}

-- A number that stands once in the queue no longer stands there, and the others do as before.
unlink_lem :
    (q : ℕ) (ps : List ℕ)
    → occurrences q ps ≡ 1
    → (occurrences q (unlink q ps) ≡ 0)
      × ((p : ℕ) → p ≢ q → occurrences p (unlink q ps) ≡ occurrences p ps)
unfolding unlink
unlink_lem q [] e = absurd (omega (arith, e))
unlink_lem q (x ∷ ps) e = elim (Bool-cases (x == q)) [
  | inl t ↦ rw t (ground (arith, t, e), λ p ne. ground (arith, t, ne))
  | inr t ↦
      let no : (q == x) ≡ false = ground (arith, t) in
      let rest : occurrences q ps ≡ 1 = ground (arith, e, no) in
      let (gone, left) = unlink_lem q ps rest in
      rw t (rw no gone, λ p ne. ap (λ n. if p == x then suc n else n) (left p ne))
]

module _ (f : Fcall) (m : Mux) (q i : ℕ) where
  -- What is left of the mux: the answer is the call's, which is off the queue.
  pub record Handed (m' : Mux) : Type 0 where
    pub answer : (get_or m'.rpcs q no_rpc).p ≡ some f
    pub off : (get_or m'.rpcs q no_rpc).queued ≡ false
    pub gone : occurrences q m'.sleep ≡ 0
    pub sleepers : (p : ℕ) → p ≢ q → occurrences p m'.sleep ≡ occurrences p m.sleep
    pub wait : m'.wait ≡ m.wait
    pub others : (p : ℕ) → p ≢ q → get_or m'.rpcs p no_rpc ≡ get_or m.rpcs p no_rpc

  abbrev given : Rpc → Rpc
  given r = record r { p = some f }

  abbrev taken : Rpc → Rpc
  taken r = record r { queued = false }

  off_queue : q < length m.rpcs → occurrences q m.sleep ≡ 1 → Handed (dequeue q (on_rpc q given m))
  unfolding on_rpc dequeue
  off_queue lt once_there =
      let r1 = given (get_or m.rpcs q no_rpc) in
      let once = get_or-set_self m.rpcs q r1 no_rpc lt in
      let lt' : q < length (set m.rpcs q r1) = omega (arith, lt, length-set m.rpcs q r1) in
      let r2 = taken (get_or (set m.rpcs q r1) q no_rpc) in
      let twice = get_or-set_self (set m.rpcs q r1) q r2 no_rpc lt' in
      record {
        answer = ap (λ (r : Rpc). r.p) twice ∙ ap (λ (r : Rpc). r.p) once;
        off = ap (λ (r : Rpc). r.queued) twice;
        gone = let (there, left) = unlink_lem q m.sleep once_there in there;
        sleepers = let (there, left) = unlink_lem q m.sleep once_there in left;
        wait = refl;
        others = λ p ne.
            get_or-set_ne (set m.rpcs q r1) q p r2 no_rpc (λ eq. ne (sym eq))
            ∙ get_or-set_ne m.rpcs q p r1 no_rpc (λ eq. ne (sym eq));
      }

  hand-Handed :
      q < length m.rpcs
      → (get_or m.rpcs q no_rpc).queued ≡ true
      → occurrences q m.sleep ≡ 1
      → Handed (hand f m (some q))
  unfolding hand
  hand-Handed lt waits there =
      subst Handed (sym (ap (λ b. if b then dequeue q (on_rpc q given m) else m) waits))
        (off_queue lt there)

  -- An answer whose tag is that of a call that is marked as waiting and stands once in the queue is
  -- handed to that call and to no other: the call is no longer in the queue, every other call stands
  -- there as before, and the table of tags is the same.
  pub dispatch-Handed :
      f.tag ≡ i + m.mintag
      → i < length m.wait
      → get_or m.wait i none ≡ some q
      → q < length m.rpcs
      → (get_or m.rpcs q no_rpc).queued ≡ true
      → occurrences q m.sleep ≡ 1
      → Handed (dispatch_fcall f m)
  unfolding dispatch_fcall
  dispatch-Handed tag small has lt waits there =
      let at : f.tag - m.mintag ≡ i = omega (arith, tag) in
      let low : ltb f.tag m.mintag ≡ false = ge→ltb f.tag m.mintag (omega (arith, tag)) in
      rw (low, at, lt→ltb i (length m.wait) small, has) (hand-Handed lt waits there)
