-- ===== src/Wire/Sockets/Closing.antt =====
-- src/network/network.c: which sockets the end of a node closes.
use mathlib.Core.List.{append-nil}
use user_level_dsm.Wire.Sockets.{
  Sockets, Link, link_sockets, unlinked, network_shutdown, close_sockets, server_socket,
  network_server_init, ServerEnv, start_accepting, close, with_acceptor, with_server,
}
use user_level_dsm.Prelude.{
  ◌≡◌, List, ◌++◌, map, ap, [], ◌∷◌, arith, refl, ℕ, some, true, none, if◌then◌else◌, ◌+◌, ◌&&◌,
  Bool-cases, ◌==◌, not, inl, inr, sym, ==_refl, ◌∙◌,
}
use user_level_dsm.Types.{is_success}

unlinked_none : (ls : List Link) → link_sockets (map unlinked ls) ≡ []
unfolding link_sockets unlinked
unlinked_none [] = refl
unlinked_none (l ∷ ls) = ground (arith, unlinked_none ls)

-- What `network_shutdown` and then `dsm_context_cleanup` close: the socket of the server and those of
-- the connections, each once, and, where the context is initialized, the pending ones after them;
-- nothing else.
pub closed_once :
    (n : Sockets)
    → (close_sockets (network_shutdown n)).closed
      ≡ n.closed
        ++ (server_socket n ++ link_sockets n.links)
        ++ (if n.initialized then n.pending else [])
unfolding close_sockets network_shutdown
closed_once n = elim (Bool-cases n.initialized) [
  | inl up ↦
      rw (up, close_sockets, unlinked_none n.links)
        (ap (λ xs. (n.closed ++ (server_socket n ++ link_sockets n.links)) ++ xs)
          (append-nil n.pending))
  | inr down ↦
      rw (down, close_sockets)
        (sym (append-nil (n.closed ++ (server_socket n ++ link_sockets n.links))))
]

-- How often a descriptor is in a list.
abbrev pub times : (fd : ℕ) → List ℕ → ℕ
times fd [] = 0
times fd (x ∷ xs) = (if x == fd then 1 else 0) + times fd xs

times-append : (fd : ℕ) (xs ys : List ℕ) → times fd (xs ++ ys) ≡ times fd xs + times fd ys
times-append fd [] ys = omega arith
times-append fd (x ∷ xs) ys = ground (arith, times-append fd xs ys)

-- The four lists that the clean-up leaves, with the descriptor in none of the middle ones.
times_closed :
    (fd : ℕ) (early links pending late : List ℕ)
    → times fd links ≡ 0
    → times fd pending ≡ 0
    → times fd (early ++ (links ++ (pending ++ late))) ≡ times fd early + times fd late
times_closed fd early links pending late l p =
    rw
      (
        times-append fd early (links ++ (pending ++ late)),
        times-append fd links (pending ++ late),
        times-append fd pending late,
        l,
        p,
      )
      (omega arith)

cleaned_times :
    (fd : ℕ) (n : Sockets)
    → n.initialized ≡ true
    → times fd (link_sockets n.links) ≡ 0
    → times fd n.pending ≡ 0
    → times fd (close_sockets n).closed ≡ times fd n.closed + times fd (server_socket n)
unfolding close_sockets
cleaned_times fd n up l p =
    rw (up, close_sockets)
      (times_closed fd n.closed (link_sockets n.links) n.pending (server_socket n) l p)

-- How often the end of a node closes the socket that `network_server_init` gets when
-- `dsm_context_cleanup` follows, whatever the other calls answer: twice when only the accept thread
-- cannot be created, and once in all other cases. The start is a success exactly when all the calls
-- are. The context is initialized and has no server, and the descriptor is no other socket's and has
-- not been closed before.
pub server_closed_lem :
    (env : ServerEnv) (n : Sockets) (port fd : ℕ)
    → n.initialized ≡ true
    → n.server_sockfd ≡ none
    → times fd n.closed ≡ 0
    → times fd (link_sockets n.links) ≡ 0
    → times fd n.pending ≡ 0
    → env.socket ≡ some fd
    → let (code, m) = network_server_init env n port in
      let listening = env.reuses && (env.binds && env.listens) in
      (is_success code ≡ listening && env.creates)
      × (times fd (close_sockets m).closed ≡ (if listening && not env.creates then 2 else 1))
unfolding network_server_init start_accepting
server_closed_lem env n port fd up unset c l p made =
    let once : times fd (n.closed ++ fd ∷ []) ≡ 1 =
      times-append fd n.closed (fd ∷ []) ∙ rw (c, ==_refl fd) (omega arith) in
    elim (Bool-cases (env.reuses && (env.binds && env.listens))) [
      | inr fails ↦
          rw (made, fails, network_server_init)
            (refl, cleaned_times fd (close fd n) up l p ∙ rw (once, unset) (omega arith))
      | inl listening ↦ elim (Bool-cases env.creates) [
        | inl t ↦
            rw (made, listening, network_server_init)
              (rw (t, start_accepting)
                (
                  refl,
                  cleaned_times fd (with_acceptor (with_server fd port n)) up l p
                      ∙ rw (c, ==_refl fd) (omega arith),
                ))
        | inr t ↦
            rw (made, listening, network_server_init)
              (rw (t, start_accepting)
                (
                  refl,
                  cleaned_times fd (close fd (with_server fd port n)) up l p
                      ∙ rw (once, ==_refl fd) (omega arith),
                ))
      ]
    ]
