-- ===== src/Server/Handles.antt =====
-- ixp_server_close and handle_conns of lib/libixp/server.c.
use libixp.Prelude.{
  ℕ, zero, suc, ◌≤◌, ◌≡◌, ◌≢◌, refl, sym, ap, ◌∙◌, true, false, ◌&&◌, Bool-cases, inl, inr, List,
  [], ◌∷◌, ◌++◌, append-nil, append_assoc, All, length, Option, none, some, ◌==◌, if◌then◌else◌,
  arith,
}
use mathlib.Core.Path.{subst}
use libixp.Server.{
  ServerConn, Server, head_conn, conn_at, is_in, selectable, handle_conn, handle_from, handle_conns,
}

-- The connections that a pointer leads through, each with a number of its own.
abbrev pub Reach : Server → Option ℕ → List ServerConn → Type 0
Reach s o [] = o ≡ none
Reach s o (c ∷ cs) =
    (o ≡ some c.id)
    × All (λ d. d.id ≢ c.id) cs
    × ((n : Option ℕ) × (conn_at c.id s.conn ≡ some (c, n)) × Reach s n cs)

-- A read function may listen, and hang up its own connection, but no other; it calls no read function
-- and leaves the set.
abbrev pub KeepsOthers : (ℕ → Server → Server) → Type 0
KeepsOthers on_read =
    (s : Server) (i : ℕ)
    → ((o : Option ℕ) (cs : List ServerConn)
        → All (λ d. d.id ≢ i) cs
        → Reach s o cs
        → Reach (on_read i s) o cs)
      × ((on_read i s).calls ≡ s.calls)
      × ((on_read i s).rd ≡ s.rd)

module _ (fd_setsize : ℕ) (on_read : ℕ → Server → Server) where
  -- Those of the connections whose file descriptor is ready.
  abbrev pub ready : List ServerConn → List ℕ → List ℕ
  ready [] rd = []
  ready (c ∷ cs) rd =
      let rest = ready cs rd in
      if selectable fd_setsize c.fd && is_in c.fd rd then c.id ∷ rest else rest

  -- Each connection whose file descriptor is ready has a read function.
  abbrev pub Readable : List ℕ → List ServerConn → Type 0
  Readable rd cs =
      All (λ c. (selectable fd_setsize c.fd && is_in c.fd rd) ≡ true → c.read ≡ true) cs

  abbrev pub IsHandled : Server → List ServerConn → Option Server → Type 0
  IsHandled s cs none = ⊥
  IsHandled s cs (some t) = (t.calls ≡ s.calls ++ ready cs s.rd) × (t.rd ≡ s.rd)

  Reach-calls :
      (s : Server) (xs : List ℕ) (o : Option ℕ) (cs : List ServerConn)
      → Reach s o cs
      → Reach (record s { calls = xs }) o cs
  Reach-calls s xs o [] h = h
  Reach-calls s xs o (c ∷ cs) (e, a, (n, at, h)) = (e, a, (n, at, Reach-calls s xs n cs h))

  handle_from-step :
      (fuel i : ℕ) (s t : Server) (c : ServerConn) (n : Option ℕ)
      → conn_at i s.conn ≡ some (c, n)
      → handle_conn fd_setsize on_read c s ≡ some t
      → handle_from fd_setsize on_read (suc fuel) (some i) s
        ≡ handle_from fd_setsize on_read fuel n t
  unfolding handle_from
  handle_from-step fuel i s t c n e ec = rw (handle_from, e, ec) refl

  IsHandled-more :
      (s t : Server) (c : ServerConn) (cs : List ServerConn) (xs : List ℕ) (o : Option Server)
      → t.calls ≡ s.calls ++ xs
      → t.rd ≡ s.rd
      → xs ++ ready cs s.rd ≡ ready (c ∷ cs) s.rd
      → IsHandled t cs o
      → IsHandled s (c ∷ cs) o
  IsHandled-more s t c cs xs none calls rd e h = h
  IsHandled-more s t c cs xs (some u) calls rd e (h, k) = (
    h
        ∙ ap (λ r. t.calls ++ ready cs r) rd
        ∙ ap (λ l. l ++ ready cs s.rd) calls
        ∙ append_assoc s.calls xs (ready cs s.rd)
        ∙ ap (λ l. s.calls ++ l) e,
    k ∙ rd,
  )

  handle_conn_ready :
      (c : ServerConn) (s : Server)
      → (selectable fd_setsize c.fd && is_in c.fd s.rd) ≡ true
      → c.read ≡ true
      → handle_conn fd_setsize on_read c s
        ≡ some (on_read c.id (record s { calls = s.calls ++ c.id ∷ [] }))
  unfolding handle_conn
  handle_conn_ready c s t reads = rw (t, reads) refl

  handle_conn_idle :
      (c : ServerConn) (s : Server)
      → (selectable fd_setsize c.fd && is_in c.fd s.rd) ≡ false
      → handle_conn fd_setsize on_read c s ≡ some s
  unfolding handle_conn
  handle_conn_idle c s t = rw t refl

  handle_from-IsHandled :
      (keeps : KeepsOthers on_read) (cs : List ServerConn) (fuel : ℕ) (o : Option ℕ) (s : Server)
      → Reach s o cs
      → Readable s.rd cs
      → length cs ≤ fuel
      → IsHandled s cs (handle_from fd_setsize on_read fuel o s)
  unfolding handle_from
  handle_from-IsHandled keeps [] fuel o s h can le = rw h (sym (append-nil s.calls), refl)
  handle_from-IsHandled keeps (c ∷ cs) zero o s h can le = absurd (omega (arith, le))
  handle_from-IsHandled keeps (c ∷ cs) (suc fuel) o s (e, a, (n, at, h)) (can, more) le =
      let rest = λ (t : Server) (r : Reach t n cs) (rd : t.rd ≡ s.rd).
        handle_from-IsHandled keeps cs fuel n t r (subst (λ x. Readable x cs) (sym rd) more)
          (omega (arith, le)) in
      subst (λ p. IsHandled s (c ∷ cs) (handle_from fd_setsize on_read (suc fuel) p s)) (sym e)
        (elim (Bool-cases (selectable fd_setsize c.fd && is_in c.fd s.rd)) [
          | inl t ↦
              let s1 = record s { calls = s.calls ++ c.id ∷ [] } in
              let (reach, calls, rd) = keeps s1 c.id in
              let step =
                handle_from-step fuel c.id s (on_read c.id s1) c n at
                  (handle_conn_ready c s t (can t)) in
              subst (IsHandled s (c ∷ cs)) (sym step) (
                IsHandled-more s (on_read c.id s1) c cs (c.id ∷ []) _ calls rd (rw t refl) (
                  rest (on_read c.id s1)
                    (reach n cs a (Reach-calls s (s.calls ++ c.id ∷ []) n cs h)) rd))
          | inr t ↦
              let step = handle_from-step fuel c.id s s c n at (handle_conn_idle c s t) in
              subst (IsHandled s (c ∷ cs)) (sym step) (
                IsHandled-more s s c cs [] _ (sym (append-nil s.calls)) refl (rw t refl)
                  (rest s h refl))
        ])

  -- If each connection of the list has a number of its own, each whose file descriptor select takes and
  -- is in the set has a read function, and a read function hangs up no other connection, calls none and
  -- leaves the set, then handle_conns returns, with the list's length as fuel. It calls the read
  -- function of each connection whose file descriptor select takes and is in the set, once and in the
  -- order of the list, and of no other.
  pub handle_conns-IsHandled :
      (keeps : KeepsOthers on_read) (fuel : ℕ) (s : Server)
      → Reach s (head_conn s.conn) s.conn
      → Readable s.rd s.conn
      → length s.conn ≤ fuel
      → IsHandled s s.conn (handle_conns fd_setsize on_read fuel s)
  unfolding handle_conns
  handle_conns-IsHandled keeps fuel s h can le =
      handle_from-IsHandled keeps s.conn fuel (head_conn s.conn) s h can le

  handle_from_out : (i : ℕ) (s : Server) → handle_from fd_setsize on_read 0 (some i) s ≡ none
  unfolding handle_from
  handle_from_out i s = refl

  handle_from_gone :
      (fuel i : ℕ) (s : Server)
      → conn_at i s.conn ≡ none
      → handle_from fd_setsize on_read fuel (some i) s ≡ none
  unfolding handle_from
  handle_from_gone zero i s e = refl
  handle_from_gone (suc fuel) i s e = rw (handle_from, e) refl

  -- Where the first connection's file descriptor is ready, and its read function hangs up the next one,
  -- the loop uses a freed connection.
  pub handle_conns_freed :
      (fuel : ℕ) (s : Server) (c d : ServerConn) (cs : List ServerConn)
      → s.conn ≡ c ∷ d ∷ cs
      → (selectable fd_setsize c.fd && is_in c.fd s.rd) ≡ true
      → c.read ≡ true
      → conn_at d.id (on_read c.id (record s { calls = s.calls ++ c.id ∷ [] })).conn ≡ none
      → handle_conns fd_setsize on_read fuel s ≡ none
  unfolding handle_conns
  handle_conns_freed zero s c d cs e t reads gone =
      ap (λ o. handle_from fd_setsize on_read 0 o s) (ap head_conn e) ∙ handle_from_out c.id s
  handle_conns_freed (suc fuel) s c d cs e t reads gone =
      let self : (c.id == c.id) ≡ true = ground arith in
      let at : conn_at c.id s.conn ≡ some (c, some d.id) = rw (e, self) refl in
      let head : head_conn s.conn ≡ some c.id = ap head_conn e in
      ap (λ o. handle_from fd_setsize on_read (suc fuel) o s) head
      ∙ handle_from-step fuel c.id s _ c (some d.id) at (handle_conn_ready c s t reads)
      ∙ handle_from_gone fuel d.id _ gone
