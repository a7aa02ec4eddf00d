-- ===== src/Wire/Sockets.antt =====
-- src/network/network.c and the end of the context in src/core/dsm_context.c: the sockets of a node.
-- A descriptor that is -1 is `none`. What the calls of the operating system answer are parameters;
-- `closed` lists the descriptors that have been closed, in order. Of the threads only the start of the
-- accept thread is kept. Socket options that may fail without consequences are left out.
pub mod Closing
mod Tests
use user_level_dsm.Types.{Status, success, network_error, init_error, invalid_argument, max_nodes}
use user_level_dsm.Prelude.{
  some, Bool, List, false, Option, ℕ, ◌+◌, true, ◌++◌, none, if◌then◌else◌, ◌∷◌, ltb, ◌&&◌, leb,
  not, [], map, length, set,
}

-- A slot of `network.nodes`: the connection.
pub record Link : Type 0 where
  pub id : ℕ
  pub port : ℕ
  pub sockfd : Option ℕ
  pub connected : Bool

-- What these functions read and write of the global context.
pub record Sockets : Type 0 where
  pub server_sockfd : Option ℕ
  pub server_port : ℕ
  pub running : Bool
  pub links : List Link
  pub pending : List ℕ
  pub backup_sockfd : Option ℕ
  pub backup_port : ℕ
  pub accept_threads : ℕ
  pub initialized : Bool
  pub closed : List ℕ

abbrev pub close : ℕ → Sockets → Sockets
close fd n = record n { closed = n.closed ++ fd ∷ [] }

-- The answers to `socket`, `setsockopt`, `bind`, `listen` and `pthread_create`.
pub record ServerEnv : Type 0 where
  pub socket : Option ℕ
  pub reuses : Bool
  pub binds : Bool
  pub listens : Bool
  pub creates : Bool

abbrev pub with_server : (fd port : ℕ) → Sockets → Sockets
with_server fd port n = record n { server_sockfd = some fd; server_port = port; running = true }

abbrev pub with_acceptor : Sockets → Sockets
with_acceptor n = record n { accept_threads = n.accept_threads + 1 }

-- The server as it listens: without its thread the socket is closed, but stays on record.
unfoldable pub start_accepting : (creates : Bool) → (fd : ℕ) → Sockets → Status × Sockets
start_accepting creates fd n =
    if creates then (success, with_acceptor n) else (init_error, close fd n)

unfoldable pub network_server_init : ServerEnv → Sockets → (port : ℕ) → Status × Sockets
network_server_init env n port = elim env.socket [
  | none ↦ (network_error, n)
  | some fd ↦
      if env.reuses && (env.binds && env.listens)
      then start_accepting env.creates fd (with_server fd port n)
      else (network_error, close fd n)
]

-- What `accept` answers.
pub data Accepted : Type 0 where
  interrupted : Accepted
  failed : Accepted
  client : ℕ → Accepted

-- One round of the accept thread: whether it goes on.
unfoldable pub accept_round : Sockets → Accepted → Bool × Sockets
accept_round n interrupted = (false, n)
accept_round n failed = (true, n)
accept_round n (client fd) =
    if ltb (length n.pending) max_nodes
    then (true, record n { pending = n.pending ++ fd ∷ [] })
    else (true, close fd n)

-- The thread ends when the server is gone; the answers that it gets are a list.
unfoldable pub accept_thread : Sockets → List Accepted → Sockets
accept_thread n [] = n
accept_thread n (a ∷ rest) = elim n.server_sockfd [
  | none ↦ n
  | some fd ↦
      let (goes_on, m) = accept_round n a in
      let more = accept_thread m rest in if not n.running then n else if goes_on then more else m
]

-- The connection that `network_connect_to_node` stores; the host name is left out.
abbrev pub linked : (node port fd : ℕ) → Link
linked node port fd = record { id = node; port = port; sockfd = some fd; connected = true }

unfoldable pub network_connect_to_node :
    (socket : Option ℕ) → (resolves connects : Bool) → Sockets → (node port : ℕ) → Status × Sockets
network_connect_to_node socket resolves connects n node port =
    if leb max_nodes node then (invalid_argument, n) else elim socket [
      | none ↦ (network_error, n)
      | some fd ↦
          if resolves && connects
          then (
            success,
            record n { links = set n.links node (linked node port fd); running = true },
          )
          else (network_error, close fd n)
    ]

-- The sockets of the connections; a descriptor of -1, which `poll` skips, is left out.
unfoldable pub connected_sockets : List Link → List ℕ
connected_sockets [] = []
connected_sockets (l ∷ ls) =
    let rest = connected_sockets ls in
    if l.connected then (elim l.sockfd [ some fd ↦ fd ∷ rest | none ↦ rest ]) else rest

-- What the dispatcher polls.
unfoldable pub polled : Sockets → List ℕ
polled n = connected_sockets n.links ++ n.pending

-- The descriptors that a loop over the slots closes.
unfoldable pub link_sockets : List Link → List ℕ
link_sockets [] = []
link_sockets (l ∷ ls) =
    let rest = link_sockets ls in elim l.sockfd [ some fd ↦ fd ∷ rest | none ↦ rest ]

abbrev pub server_socket : Sockets → List ℕ
server_socket n = elim n.server_sockfd [ some fd ↦ fd ∷ [] | none ↦ [] ]

-- A slot whose socket is closed.
unfoldable pub unlinked : Link → Link
unlinked l = elim l.sockfd [ some fd ↦ record l { sockfd = none; connected = false } | none ↦ l ]

unfoldable pub network_shutdown : Sockets → Sockets
network_shutdown n = record n {
  running = false;
  server_sockfd = none;
  links = map unlinked n.links;
  closed = n.closed ++ (server_socket n ++ link_sockets n.links);
}

-- The sockets in `dsm_context_cleanup`, which leaves the descriptors where they are.
unfoldable pub close_sockets : Sockets → Sockets
close_sockets n =
    if n.initialized
    then record n {
      running = false;
      initialized = false;
      closed = n.closed ++ (link_sockets n.links ++ (n.pending ++ server_socket n));
    }
    else n

-- The socket is bound to the manager's port, and does not listen yet.
unfoldable pub network_prepare_backup_server :
    (socket : Option ℕ) → (binds : Bool) → Sockets → (port : ℕ) → Status × Sockets
network_prepare_backup_server socket binds n port = elim socket [
  | none ↦ (network_error, n)
  | some fd ↦
      if binds
      then (success, record n { backup_sockfd = some fd; backup_port = port })
      else (network_error, close fd n)
]

abbrev pub activated : (fd : ℕ) → Sockets → Sockets
activated fd n = record (with_server fd n.backup_port n) { backup_sockfd = none }

unfoldable pub network_activate_backup_server :
    (listens creates : Bool) → Sockets → Status × Sockets
network_activate_backup_server listens creates n = elim n.backup_sockfd [
  | none ↦ (invalid_argument, n)
  | some fd ↦
      if not listens
      then (network_error, n)
      else if creates
      then (success, with_acceptor (activated fd n))
      else (init_error, record (activated fd n) { running = false })
]
