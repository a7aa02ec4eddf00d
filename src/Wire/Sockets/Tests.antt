-- ===== src/Wire/Sockets/Tests.antt =====
-- src/network/network.c: the sockets of one node.
use user_level_dsm.Wire.Sockets.{
  Sockets, ServerEnv, network_server_init, network_shutdown, close_sockets, server_socket,
  link_sockets,
}
use user_level_dsm.Wire.Sockets.Closing.{closed_once, server_closed_lem, times}
use user_level_dsm.Prelude.{some, none, ◌≡◌, ◌++◌, true, false, [], ◌∷◌, refl}
use user_level_dsm.Types.{is_success}

-- A node with a connection on descriptor 5 and one pending on 6, before its server is made.
abbrev no_server : Sockets
no_server = record {
  server_sockfd = none;
  server_port = 0;
  running = false;
  links =
      record { id = 0; port = 0; sockfd = none; connected = false }
      ∷ record { id = 1; port = 9000; sockfd = some 5; connected = true }
      ∷ [];
  pending = 6 ∷ [];
  backup_sockfd = none;
  backup_port = 0;
  accept_threads = 0;
  initialized = true;
  closed = [];
}

abbrev no_thread : ServerEnv
no_thread = record { socket = some 4; reuses = true; binds = true; listens = true; creates = false }

not_linked : times 4 (link_sockets no_server.links) ≡ 0
unfolding link_sockets
not_linked = refl

server_closed_lem_example :
    (is_success (network_server_init no_thread no_server 5000).0 ≡ false)
    × (times 4 (close_sockets (network_server_init no_thread no_server 5000).1).closed ≡ 2)
server_closed_lem_example =
    server_closed_lem no_thread no_server 5000 4 refl refl refl not_linked refl refl

closed_once_example :
    (close_sockets (network_shutdown no_server)).closed
    ≡ no_server.closed
      ++ (server_socket no_server ++ link_sockets no_server.links)
      ++ no_server.pending
closed_once_example = closed_once no_server
