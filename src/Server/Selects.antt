-- ===== src/Server/Selects.antt =====
-- prepare_select of lib/libixp/server.c.
use libixp.Prelude.{
  ℕ, ◌≤◌, ◌<◌, ◌≡◌, refl, sym, ap, ◌∙◌, ◌⊎◌, Bool, true, false, ◌&&◌, Bool-cases, inl, inr, List,
  [], ◌∷◌, ◌++◌, append-nil, append_assoc, All, Option, none, some, ltb, ltb→lt, ltb→ge,
  if◌then◌else◌, arith,
}
use mathlib.Core.Path.{subst}
use libixp.Server.{ServerConn, Server, selectable, select_conn, select_all, prepare_select, above}

abbrev pub AtMost : Option ℕ → ℕ → Type 0
AtMost none fd = ⊥
AtMost (some m) fd = fd ≤ m

-- The greatest of the file descriptors, if there is one, is one of them.
abbrev pub Member : ℕ → List ℕ → Type 0
Member x [] = ⊥
Member x (y ∷ ys) = (x ≡ y) ⊎ Member x ys

All-snoc : (P : ℕ → Type 0) (xs : List ℕ) (y : ℕ) → All P xs → P y → All P (xs ++ y ∷ [])
All-snoc P [] y h p = (p, tt)
All-snoc P (x ∷ xs) y (q, h) p = (q, All-snoc P xs y h p)

Member-snoc : (xs : List ℕ) (y : ℕ) → Member y (xs ++ y ∷ [])
Member-snoc [] y = inl refl
Member-snoc (x ∷ xs) y = inr (Member-snoc xs y)

Member-more : (x : ℕ) (xs ys : List ℕ) → Member x xs → Member x (xs ++ ys)
Member-more x [] ys h = absurd h
Member-more x (y ∷ xs) ys (inl e) = inl e
Member-more x (y ∷ xs) ys (inr h) = inr (Member-more x xs ys h)

All-AtMost : (m n : ℕ) (xs : List ℕ) → m ≤ n → All (AtMost (some m)) xs → All (AtMost (some n)) xs
All-AtMost m n [] le h = tt
All-AtMost m n (x ∷ xs) le (p, h) = (omega (arith, p, le), All-AtMost m n xs le h)

All-none : (xs : List ℕ) → All (AtMost none) xs → xs ≡ []
All-none [] h = refl
All-none (x ∷ xs) (p, h) = absurd p

abbrev pub IsGreatest : Option ℕ → List ℕ → Type 0
IsGreatest none xs = xs ≡ []
IsGreatest (some m) xs = Member m xs × All (AtMost (some m)) xs

IsGreatest-snoc :
    (o : Option ℕ) (xs : List ℕ) (y : ℕ)
    → IsGreatest o xs
    → IsGreatest (if above o y then some y else o) (xs ++ y ∷ [])
IsGreatest-snoc none xs y e = rw e (inl refl, (omega arith, tt))
IsGreatest-snoc (some m) xs y (h, a) = elim (Bool-cases (ltb m y)) [
  | inl t ↦
      let lt = ltb→lt m y t in
      rw t
        (Member-snoc xs y, All-snoc _ xs y (All-AtMost m y xs (omega (arith, lt)) a) (omega arith))
  | inr t ↦
      let le = ltb→ge m y t in
      rw t (Member-more m xs (y ∷ []) h, All-snoc _ xs y a (omega (arith, le)))
]

module _ (fd_setsize : ℕ) where
  -- The file descriptors that a select is to wait for.
  abbrev pub waiting_fds : List ServerConn → List ℕ
  waiting_fds [] = []
  waiting_fds (c ∷ cs) =
      let rest = waiting_fds cs in
      if c.read && selectable fd_setsize c.fd then c.fd ∷ rest else rest

  and_right : (a b : Bool) → (a && b) ≡ true → b ≡ true
  and_right true b e = e
  and_right false b e = cc

  below_size : (r : Bool) (fd : ℕ) → (r && selectable fd_setsize fd) ≡ true → fd < fd_setsize
  unfolding selectable
  below_size r fd e = ltb→lt fd fd_setsize (and_right _ _ (and_right r _ e))

  waiting_fds-All : (cs : List ServerConn) → All (λ fd. fd < fd_setsize) (waiting_fds cs)
  waiting_fds-All [] = tt
  waiting_fds-All (c ∷ cs) = elim (Bool-cases (c.read && selectable fd_setsize c.fd)) [
    | inl t ↦ rw t (below_size c.read c.fd t, waiting_fds-All cs)
    | inr t ↦ rw t (waiting_fds-All cs)
  ]

  -- After the loop over `cs`, which begins with `u`, all of `all` has been added to `s`.
  abbrev Selected : List ServerConn → List ServerConn → Server → Server → Type 0
  Selected all cs s u =
      IsGreatest (select_all fd_setsize cs u).maxfd (select_all fd_setsize cs u).rd
      × ((select_all fd_setsize cs u).rd ≡ s.rd ++ waiting_fds all)
      × ((select_all fd_setsize cs u).conn ≡ s.conn)

  select_all-IsGreatest :
      (cs : List ServerConn) (s : Server) → IsGreatest s.maxfd s.rd → Selected cs cs s s
  unfolding select_all
  select_all-IsGreatest [] s h = (h, sym (append-nil s.rd), refl)
  select_all-IsGreatest (c ∷ cs) s h = elim (Bool-cases (c.read && selectable fd_setsize c.fd)) [
    | inl t ↦
        let s' : Server = record s {
          maxfd = if above s.maxfd c.fd then some c.fd else s.maxfd;
          rd = s.rd ++ c.fd ∷ [];
        } in
        let taken : select_conn fd_setsize c s ≡ s' = rw t refl in
        let fds : waiting_fds (c ∷ cs) ≡ c.fd ∷ waiting_fds cs = rw t refl in
        let (g, r, k) = select_all-IsGreatest cs s' (IsGreatest-snoc s.maxfd s.rd c.fd h) in
        subst (Selected (c ∷ cs) cs s) (sym taken)
          (g, r ∙ append_assoc s.rd (c.fd ∷ []) (waiting_fds cs) ∙ ap (λ l. s.rd ++ l) (sym fds), k)
    | inr t ↦
        let left : select_conn fd_setsize c s ≡ s = rw t refl in
        let fds : waiting_fds (c ∷ cs) ≡ waiting_fds cs = rw t refl in
        let (g, r, k) = select_all-IsGreatest cs s h in
        subst (Selected (c ∷ cs) cs s) (sym left) (g, r ∙ ap (λ l. s.rd ++ l) (sym fds), k)
  ]

  -- prepare_select puts into the set the file descriptors of the connections that have a read function
  -- and a file descriptor that select takes, in the order of the list, all of them below FD_SETSIZE;
  -- `maxfd` is the greatest of them, and -1 if there is none.
  pub prepare_select-IsGreatest :
      (s : Server)
      → IsGreatest (prepare_select fd_setsize s).maxfd (prepare_select fd_setsize s).rd
        × ((prepare_select fd_setsize s).rd ≡ waiting_fds s.conn)
        × All (λ fd. fd < fd_setsize) (prepare_select fd_setsize s).rd
  unfolding prepare_select
  prepare_select-IsGreatest s =
      let (g, r, k) = select_all-IsGreatest s.conn (record s { maxfd = none; rd = [] }) refl in
      (g, r, rw r (waiting_fds-All s.conn))
