-- ===== src/Server/Tests.antt =====
-- Tests of the server (lib/libixp/server.c), and examples for its theorems.
use libixp.Prelude.{ℕ, ◌<◌, ◌≡◌, refl, true, false, [], ◌∷◌, Option, none, some, All, arith}
use libixp.Server.{
  Server, ixp_listen, prepare_select, handle_conns, handle_from, handle_conn, ixp_server_close,
  ixp_hangup, selectable,
}
use libixp.Server.Selects.{IsGreatest, waiting_fds, prepare_select-IsGreatest}
use libixp.Server.Handles.{KeepsOthers, IsHandled, handle_conns-IsHandled}
use libixp.Server.Closes.{IsClosed, server_close-IsClosed}

abbrev no_server : Server
no_server = record { conn = []; maxfd = none; rd = []; fresh = 0; calls = []; closed = [] }

abbrev server_of : Option ℕ × Server → Server
server_of (c, s) = s

-- Connections on 5 and 9, and one on 7 that is only closed.
abbrev three : Server
three = server_of (
    ixp_listen 1024 7 false true (
      server_of (ixp_listen 1024 9 true true (server_of (ixp_listen 1024 5 true false no_server)))))

abbrev idle : ℕ → Server → Server
idle i s = s

idle-KeepsOthers : KeepsOthers idle
idle-KeepsOthers s i = (λ o cs a h. h, refl, refl)

prepare_select-IsGreatest_example :
    IsGreatest (prepare_select 1024 three).maxfd (prepare_select 1024 three).rd
    × ((prepare_select 1024 three).rd ≡ waiting_fds 1024 three.conn)
    × All (λ fd. fd < 1024) (prepare_select 1024 three).rd
prepare_select-IsGreatest_example = prepare_select-IsGreatest 1024 three

-- The file descriptor 5 is ready.
abbrev five_ready : Server
five_ready = record three { rd = 5 ∷ [] }

handle_conns-IsHandled_example :
    IsHandled 1024 idle five_ready five_ready.conn (handle_conns 1024 idle 3 five_ready)
unfolding ixp_listen selectable
handle_conns-IsHandled_example =
    handle_conns-IsHandled 1024 idle idle-KeepsOthers 3 five_ready
      (
        refl,
        ((λ e. absurd (omega (arith, e))), ((λ e. absurd (omega (arith, e))), tt)),
        (
          some 1,
          refl,
          (
            refl,
            ((λ e. absurd (omega (arith, e))), tt),
            (some 0, refl, (refl, tt, (none, refl, refl))),
          ),
        ),
      )
      ((λ e. absurd (cc e)), ((λ e. absurd (cc e)), ((λ e. refl), tt))) (omega arith)

server_close-IsClosed_example : IsClosed three three.conn (ixp_server_close 1024 idle 3 three)
unfolding ixp_listen
server_close-IsClosed_example =
    server_close-IsClosed 1024 idle (λ i s. (refl, refl)) 3 three (omega arith)

-- A read function that hangs up connection 0, whichever is ready.
abbrev hangs_up : ℕ → Server → Server
hangs_up i s = elim (ixp_hangup 1024 idle 0 s) [ none ↦ s | some t ↦ t ]

-- The connection that it hangs up is the next one, and the loop then uses it.
hang_up_next : handle_conns 1024 hangs_up 9 (record three { rd = 9 ∷ [] }) ≡ none
unfolding handle_conns handle_from handle_conn ixp_hangup ixp_listen selectable
hang_up_next = refl
