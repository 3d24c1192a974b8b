-- ===== src/Server.antt =====
-- lib/libixp/server.c: the connections of a server, without the clock of ixp_serverloop.
pub mod Selects
pub mod Handles
pub mod Closes
mod Tests
use libixp.Prelude.{
  ℕ, zero, suc, ◌+◌, ◌^◌, Bool, true, false, ◌&&◌, List, [], ◌∷◌, ◌++◌, Option, none, some, ltb,
  ◌==◌, if◌then◌else◌,
}

-- IxpConn; a pointer to one is its number, and a function pointer whether it is not nil. `fd` is an
-- `int`, as 32 bits.
pub record ServerConn : Type 0 where
  pub id : ℕ
  pub fd : ℕ
  pub read : Bool
  pub close : Bool

-- IxpServer, the list from `conn` on being that of the connections which are not freed. `maxfd` is nil
-- where it is -1, `rd` the file descriptors of the set. `calls` has the connections whose read function
-- was called, and `closed` the file descriptors that were closed.
pub record Server : Type 0 where
  pub conn : List ServerConn
  pub maxfd : Option ℕ
  pub rd : List ℕ
  pub fresh : ℕ
  pub calls : List ℕ
  pub closed : List ℕ

abbrev pub head_conn : List ServerConn → Option ℕ
head_conn [] = none
head_conn (c ∷ cs) = some c.id

-- What a pointer to a connection gives, with its `next`; nil is a freed one.
abbrev pub conn_at : ℕ → List ServerConn → Option (ServerConn × Option ℕ)
conn_at i [] = none
conn_at i (c ∷ cs) = let rest = conn_at i cs in if c.id == i then some (c, head_conn cs) else rest

abbrev pub without_conn : ℕ → List ServerConn → List ServerConn
without_conn i [] = []
without_conn i (c ∷ cs) = let rest = without_conn i cs in if c.id == i then cs else c ∷ rest

abbrev pub is_in : ℕ → List ℕ → Bool
is_in x [] = false
is_in x (y ∷ ys) = let rest = is_in x ys in if x == y then true else rest

-- `s->maxfd < c->fd`
abbrev pub above : Option ℕ → ℕ → Bool
above none fd = true
above (some m) fd = ltb m fd

-- FD_SETSIZE is the system's; the functions of the connections are the service's.
module _ (fd_setsize : ℕ) where
  -- `fd >= 0 && fd < FD_SETSIZE`
  unfoldable pub selectable : ℕ → Bool
  selectable fd = ltb fd (2 ^ 31) && ltb fd fd_setsize

  unfoldable pub ixp_listen : ℕ → Bool → Bool → Server → Option ℕ × Server
  unfolding selectable
  ixp_listen fd read close s =
      if selectable fd
      then (
        some s.fresh,
        record s {
          conn = record { id = s.fresh; fd = fd; read = read; close = close } ∷ s.conn;
          fresh = suc s.fresh;
        },
      )
      else (none, s)

  abbrev pub select_conn : ServerConn → Server → Server
  select_conn c s =
      if c.read && selectable c.fd
      then record s {
        maxfd = if above s.maxfd c.fd then some c.fd else s.maxfd;
        rd = s.rd ++ c.fd ∷ [];
      }
      else s

  unfoldable pub select_all : List ServerConn → Server → Server
  select_all [] s = s
  select_all (c ∷ cs) s = select_all cs (select_conn c s)

  unfoldable pub prepare_select : Server → Server
  prepare_select s = select_all s.conn (record s { maxfd = none; rd = [] })

  module _ (on_close : ℕ → Server → Server) where
    abbrev pub close_conn : ServerConn → Server → Server
    close_conn c s =
        let s' = if c.close then on_close c.id s else s in
        record s' { closed = s'.closed ++ c.fd ∷ [] }

    abbrev pub hangup_at : ℕ → Option (ServerConn × Option ℕ) → Server → Option Server
    hangup_at i none s = none
    hangup_at i (some (c, n)) s = some (close_conn c (record s { conn = without_conn i s.conn }))

    -- `none` is a failed assertion.
    unfoldable pub ixp_hangup : ℕ → Server → Option Server
    ixp_hangup i s = hangup_at i (conn_at i s.conn) s

    -- The loop of ixp_server_close, on fuel; `none` is also the use of a freed connection.
    unfoldable pub close_from : ℕ → Option ℕ → Server → Option Server
    close_from fuel none s = some s
    close_from zero (some i) s = none
    close_from (suc fuel) (some i) s = elim (conn_at i s.conn) [
      | none ↦ none
      | some (c, next) ↦ elim (ixp_hangup i s) [ none ↦ none | some s' ↦ close_from fuel next s' ]
    ]

    unfoldable pub ixp_server_close : ℕ → Server → Option Server
    ixp_server_close fuel s = close_from fuel (head_conn s.conn) s

  module _ (on_read : ℕ → Server → Server) where
    abbrev pub call_read : ℕ → Server → Server
    call_read i s = on_read i (record s { calls = s.calls ++ i ∷ [] })

    -- The body of the loop of handle_conns; select has left in `rd` what is ready.
    -- `none` is the call of a nil read function.
    unfoldable pub handle_conn : ServerConn → Server → Option Server
    handle_conn c s =
        if selectable c.fd && is_in c.fd s.rd
        then if c.read then some (call_read c.id s) else none
        else some s

    -- On fuel; `none` is also the use of a freed connection.
    unfoldable pub handle_from : ℕ → Option ℕ → Server → Option Server
    handle_from fuel none s = some s
    handle_from zero (some i) s = none
    handle_from (suc fuel) (some i) s = elim (conn_at i s.conn) [
      | none ↦ none
      | some (c, next) ↦ elim (handle_conn c s) [ none ↦ none | some s' ↦ handle_from fuel next s' ]
    ]

    unfoldable pub handle_conns : ℕ → Server → Option Server
    handle_conns fuel s = handle_from fuel (head_conn s.conn) s
