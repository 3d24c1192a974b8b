-- ===== src/Server/Closes.antt =====
-- ixp_server_close of lib/libixp/server.c.
use libixp.Prelude.{
  ℕ, zero, suc, ◌≤◌, ◌≡◌, refl, sym, ap, ◌∙◌, true, Bool-cases, inl, inr, List, [], ◌∷◌, ◌++◌,
  append-nil, append_assoc, map, length, Option, none, some, ◌==◌, arith,
}
use mathlib.Core.Path.{subst}
use libixp.Server.{
  ServerConn, Server, head_conn, conn_at, without_conn, ixp_hangup, hangup_at, close_conn,
  close_from, ixp_server_close,
}

-- A close function leaves the list of connections, and closes none.
abbrev pub KeepsConns : (ℕ → Server → Server) → Type 0
KeepsConns on_close =
    (i : ℕ) (s : Server) → ((on_close i s).conn ≡ s.conn) × ((on_close i s).closed ≡ s.closed)

abbrev pub fds_of : List ServerConn → List ℕ
fds_of cs = map (λ c. c.fd) cs

abbrev pub IsClosed : Server → List ServerConn → Option Server → Type 0
IsClosed s cs none = ⊥
IsClosed s cs (some t) = (t.conn ≡ []) × (t.closed ≡ s.closed ++ fds_of cs)

module _ (fd_setsize : ℕ) (on_close : ℕ → Server → Server) where
  close_conn-keeps :
      (keeps : KeepsConns on_close) (c : ServerConn) (s : Server)
      → ((close_conn fd_setsize on_close c s).conn ≡ s.conn)
        × ((close_conn fd_setsize on_close c s).closed ≡ s.closed ++ c.fd ∷ [])
  close_conn-keeps keeps c s = elim (Bool-cases c.close) [
    | inl t ↦ rw t ((keeps c.id s).0, ap (λ l. l ++ c.fd ∷ []) (keeps c.id s).1)
    | inr t ↦ rw t (refl, refl)
  ]

  hangup_lem :
      (s : Server) (c : ServerConn) (cs : List ServerConn) (n : Option ℕ)
      → conn_at c.id s.conn ≡ some (c, n)
      → without_conn c.id s.conn ≡ cs
      → ixp_hangup fd_setsize on_close c.id s
        ≡ some (close_conn fd_setsize on_close c (record s { conn = cs }))
  unfolding ixp_hangup
  hangup_lem s c cs n at cut =
      ap (λ o. hangup_at fd_setsize on_close c.id o s) at
      ∙ ap (λ l. some (close_conn fd_setsize on_close c (record s { conn = l }))) cut

  close_from_nil : (fuel : ℕ) (s : Server) → close_from fd_setsize on_close fuel none s ≡ some s
  unfolding close_from
  close_from_nil zero s = refl
  close_from_nil (suc fuel) s = refl

  close_from-step :
      (fuel : ℕ) (s : Server) (c : ServerConn) (cs : List ServerConn)
      → s.conn ≡ c ∷ cs
      → close_from fd_setsize on_close (suc fuel) (some c.id) s
        ≡ close_from fd_setsize on_close fuel
            (head_conn cs)
            (close_conn fd_setsize on_close c (record s { conn = cs }))
  unfolding close_from
  close_from-step fuel s c cs e =
      let self : (c.id == c.id) ≡ true = ground arith in
      let at : conn_at c.id s.conn ≡ some (c, head_conn cs) = rw (e, self) refl in
      let cut : without_conn c.id s.conn ≡ cs = rw (e, self) refl in
      rw (close_from, at, hangup_lem s c cs (head_conn cs) at cut) refl

  IsClosed-more :
      (s t : Server) (c : ServerConn) (cs : List ServerConn) (o : Option Server)
      → t.closed ≡ s.closed ++ c.fd ∷ []
      → IsClosed t cs o
      → IsClosed s (c ∷ cs) o
  IsClosed-more s t c cs none e h = h
  IsClosed-more s t c cs (some u) e (k, h) =
      (k, h ∙ ap (λ l. l ++ fds_of cs) e ∙ append_assoc s.closed (c.fd ∷ []) (fds_of cs))

  close_from-IsClosed :
      (keeps : KeepsConns on_close) (cs : List ServerConn) (fuel : ℕ) (s : Server)
      → s.conn ≡ cs
      → length cs ≤ fuel
      → IsClosed s cs (close_from fd_setsize on_close fuel (head_conn cs) s)
  close_from-IsClosed keeps [] fuel s e le =
      subst (IsClosed s []) (sym (close_from_nil fuel s)) (e, sym (append-nil s.closed))
  close_from-IsClosed keeps (c ∷ cs) zero s e le = absurd (omega (arith, le))
  close_from-IsClosed keeps (c ∷ cs) (suc fuel) s e le =
      let t = close_conn fd_setsize on_close c (record s { conn = cs }) in
      let (conn, closed) = close_conn-keeps keeps c (record s { conn = cs }) in
      subst (IsClosed s (c ∷ cs)) (sym (close_from-step fuel s c cs e)) (
        IsClosed-more s t c cs _ closed
          (close_from-IsClosed keeps cs fuel t conn (omega (arith, le))))

  -- If the close functions leave the list of connections and close none, ixp_server_close returns, with
  -- the list's length as fuel. No connection is left, and the file descriptor of each one was closed,
  -- once and in the order of the list.
  pub server_close-IsClosed :
      (keeps : KeepsConns on_close) (fuel : ℕ) (s : Server)
      → length s.conn ≤ fuel
      → IsClosed s s.conn (ixp_server_close fd_setsize on_close fuel s)
  unfolding ixp_server_close
  server_close-IsClosed keeps fuel s le = close_from-IsClosed keeps s.conn fuel s refl le
