-- ===== src/Net/Listening.antt =====
-- The sockets that `createListenSocket` and `connectNonBlocking` (src/Net.cpp) give to their callers.
use flux_gate.Base.{ℕ, ◌≡◌, refl, inl, inr, ◌∷◌, ◌==◌, Result, ok, err, arith, Bool-cases}
use flux_gate.Backend.{Bytes, Endpoint}
use flux_gate.Config.Text.{codes}
use flux_gate.Worker.Queue.{same_fd}
use flux_gate.Net.Address.{Resolver, resolve_tcp_endpoint}
use flux_gate.Net.Sockets.{
  einprogress, prepare_listener, listen_at, create_listen_socket, connect_answer,
  prepare_connection, connect_non_blocking, resolved,
}
use flux_gate.Net.Balance.{
  Owes, IsSteady, Anything, IsSteady-bind, system_call-IsSteady, set_non_blocking-Steady,
  set_close_on_exec-Steady, set_tcp_no_delay-Steady, set_reuse_address-Steady, owning-Owes,
}
use flux_gate.Net.{SocketCalls, Host, NetError, Call, binds, listens}

module _ {S : Type 0} (k : SocketCalls S) where
  prepare_listener-IsSteady :
      (endpoint : Endpoint) (backlog fd : ℕ) (h : Host S)
      → IsSteady (λ a. a ≡ fd) h.trace (prepare_listener k endpoint backlog fd h)
  unfolding prepare_listener
  prepare_listener-IsSteady endpoint backlog fd h0 =
      IsSteady-bind Anything (λ a. a ≡ fd) h0.trace _ _ (set_close_on_exec-Steady k fd h0)
        λ _ h1 _.
          IsSteady-bind Anything (λ a. a ≡ fd) h1.trace _ _ (set_non_blocking-Steady k fd h1)
            λ _ h2 _.
              IsSteady-bind Anything (λ a. a ≡ fd) h2.trace _ _ (set_reuse_address-Steady k fd h2)
                λ _ h3 _.
                  IsSteady-bind Anything (λ a. a ≡ fd) h3.trace _ _
                    (system_call-IsSteady (codes "bind failed")
                      (λ _ t. binds fd endpoint.address ∷ t) (k.bind fd endpoint.address) h3
                      (λ _ f. (omega arith, omega arith)))
                    λ _ h4 _.
                      IsSteady-bind Anything (λ a. a ≡ fd) h4.trace _ _
                        (system_call-IsSteady (codes "listen failed")
                          (λ _ t. listens fd backlog ∷ t) (k.listen fd backlog) h4
                          (λ _ f. (omega arith, omega arith)))
                        λ _ h5 _. (refl, λ f. (refl, refl))

  listen_at-Owes :
      (backlog : ℕ) (endpoint : Endpoint) (h : Host S)
      → Owes (λ fd f. same_fd f fd) h.trace (listen_at k backlog endpoint h)
  unfolding listen_at
  listen_at-Owes backlog endpoint h =
      owning-Owes k (λ fd. fd) (codes "socket failed") endpoint
        (prepare_listener k endpoint backlog) h (prepare_listener-IsSteady endpoint backlog)

  resolved-Owes :
      {A : Type 0} (f : A → Call S ℕ) (r : Result NetError A) (h : Host S)
      → ((a : A) → Owes (λ fd g. same_fd g fd) h.trace (f a h))
      → Owes (λ fd g. same_fd g fd) h.trace (resolved k f r h)
  resolved-Owes f (ok a) h g = g a
  resolved-Owes f (err e) h g = λ f. omega arith

  -- On every branch `createListenSocket` closes each socket that it opens, but for the one that
  -- it returns.
  pub create_listen_socket-Owes :
      (r : Resolver) (host : Bytes) (port backlog : ℕ) (h : Host S)
      → Owes (λ fd f. same_fd f fd) h.trace (create_listen_socket k r host port backlog h)
  unfolding create_listen_socket
  create_listen_socket-Owes r host port backlog h =
      resolved-Owes (listen_at k backlog) (resolve_tcp_endpoint r host port) h
        (λ endpoint. listen_at-Owes backlog endpoint h)

  connect_answer-IsSteady :
      (fd : ℕ) (endpoint : Endpoint) (h : Host S) (r : Result ℕ (Unit {0}) × S)
      → IsSteady (λ a. a.fd ≡ fd) h.trace (connect_answer k fd endpoint h r)
  connect_answer-IsSteady fd endpoint h (ok u, s) = (refl, λ f. (omega arith, omega arith))
  connect_answer-IsSteady fd endpoint h (err e, s) = elim (Bool-cases (e == einprogress)) [
    | inl going ↦ rw going (refl, λ f. (omega arith, omega arith))
    | inr bad ↦ rw bad (λ f. (refl, refl))
  ]

  prepare_connection-IsSteady :
      (endpoint : Endpoint) (fd : ℕ) (h : Host S)
      → IsSteady (λ a. a.fd ≡ fd) h.trace (prepare_connection k endpoint fd h)
  unfolding prepare_connection
  prepare_connection-IsSteady endpoint fd h0 =
      IsSteady-bind Anything (λ a. a.fd ≡ fd) h0.trace _ _ (set_close_on_exec-Steady k fd h0)
        λ _ h1 _.
          IsSteady-bind Anything (λ a. a.fd ≡ fd) h1.trace _ _ (set_non_blocking-Steady k fd h1)
            λ _ h2 _.
              IsSteady-bind Anything (λ a. a.fd ≡ fd) h2.trace _ _ (set_tcp_no_delay-Steady k fd h2)
                λ _ h3 _.
                  connect_answer-IsSteady fd endpoint h3 (k.connect fd endpoint.address h3.kernel)

  pub connect_non_blocking-Owes :
      (endpoint : Endpoint) (h : Host S)
      → Owes (λ c f. same_fd f c.fd) h.trace (connect_non_blocking k endpoint h)
  unfolding connect_non_blocking
  connect_non_blocking-Owes endpoint h =
      owning-Owes k (λ c. c.fd) (codes "upstream socket failed") endpoint
        (prepare_connection k endpoint) h (prepare_connection-IsSteady endpoint)
