-- ===== src/Net/Sockets.antt =====
-- The sockets of src/Net.cpp: their options, `createListenSocket`, `connectNonBlocking` and
-- `waitForConnect`.
use Prim.Native.Nat.{bit_or}
use flux_gate.Base.{
  ℕ, zero, suc, Bool, true, false, not, ◌∷◌, ◌++◌, Option, none, some, ◌==◌, if◌then◌else◌, Result,
  ok, err,
}
use flux_gate.Backend.{Bytes, Endpoint}
use flux_gate.Config.Text.{codes}
use flux_gate.Io.{eintr}
use flux_gate.Net.Address.{Resolver, family, resolve_tcp_endpoint}
use flux_gate.Net.{
  FlagSet, status, descriptor, reuse_address, no_delay, SocketCalls, opens, sets_flags, sets_option,
  binds, listens, connects, finds_error, Host, NetError, system_error, Call, pure, ◌>>=◌, ◌>>◌,
  system_call, close_fd, owning,
}

-- Linux numbers of the flags and of the error of a connect under way.
abbrev pub o_nonblock : ℕ
o_nonblock = 2048

abbrev pub fd_cloexec : ℕ
fd_cloexec = 1

abbrev pub einprogress : ℕ
einprogress = 115

pub record ConnectResult : Type 0 where
  pub fd : ℕ
  pub connecting : Bool

module _ {S : Type 0} (k : SocketCalls S) where
  -- Read the flags, write them with one more.
  unfoldable pub add_flag : Bytes → FlagSet → ℕ → ℕ → Call S (Unit {0})
  unfolding system_call
  add_flag action set flag fd = do
    flags ← system_call action (λ _ t. t) (k.get_flags set fd)
    system_call action (λ _ t. sets_flags set fd (bit_or flags flag) ∷ t)
        (k.set_flags set fd (bit_or flags flag))

  unfoldable pub set_non_blocking : ℕ → Call S (Unit {0})
  unfolding add_flag
  set_non_blocking fd = add_flag (codes "fcntl(O_NONBLOCK) failed") status o_nonblock fd

  unfoldable pub set_close_on_exec : ℕ → Call S (Unit {0})
  unfolding add_flag
  set_close_on_exec fd = add_flag (codes "fcntl(FD_CLOEXEC) failed") descriptor fd_cloexec fd

  unfoldable pub set_tcp_no_delay : ℕ → Call S (Unit {0})
  unfolding system_call
  set_tcp_no_delay fd =
      system_call (codes "setsockopt(TCP_NODELAY) failed") (λ _ t. sets_option no_delay fd ∷ t)
        (k.set_option no_delay fd)

  unfoldable pub set_reuse_address : ℕ → Call S (Unit {0})
  unfolding system_call
  set_reuse_address fd =
      system_call (codes "setsockopt(SO_REUSEADDR) failed")
        (λ _ t. sets_option reuse_address fd ∷ t) (k.set_option reuse_address fd)

  unfoldable pub open_socket : Bytes → Endpoint → Call S ℕ
  unfolding system_call
  open_socket action endpoint =
      system_call action (λ fd t. opens fd ∷ t) (k.socket (family endpoint.address))

  -- What follows the socket in `createListenSocket`.
  unfoldable pub prepare_listener : Endpoint → ℕ → ℕ → Call S ℕ
  unfolding set_close_on_exec set_non_blocking set_reuse_address system_call
  prepare_listener endpoint backlog fd = do
    set_close_on_exec fd
    set_non_blocking fd
    set_reuse_address fd
    system_call (codes "bind failed") (λ _ t. binds fd endpoint.address ∷ t)
        (k.bind fd endpoint.address)
    system_call (codes "listen failed") (λ _ t. listens fd backlog ∷ t) (k.listen fd backlog)
    pure fd

  unfoldable pub listen_at : ℕ → Endpoint → Call S ℕ
  unfolding open_socket owning prepare_listener
  listen_at backlog endpoint = do
    fd ← open_socket (codes "socket failed") endpoint
    owning k fd (prepare_listener endpoint backlog fd)

  abbrev pub resolved : {A B : Type 0} → (A → Call S B) → Result NetError A → Call S B
  resolved f (ok a) h = f a h
  resolved f (err e) h = (err e, h)

  unfoldable pub create_listen_socket : Resolver → Bytes → ℕ → ℕ → Call S ℕ
  unfolding listen_at resolve_tcp_endpoint
  create_listen_socket r host port backlog =
      resolved (listen_at backlog) (resolve_tcp_endpoint r host port)

  -- From the answer of `connect`: under way is no error.
  abbrev pub connect_answer :
      ℕ → Endpoint → Host S → Result ℕ (Unit {0}) × S → Result NetError ConnectResult × Host S
  connect_answer fd endpoint h (ok u, s) = (
    ok (record { fd = fd; connecting = false }),
    record { kernel = s; trace = connects fd endpoint.address false ∷ h.trace },
  )
  connect_answer fd endpoint h (err e, s) =
      if e == einprogress
      then (
        ok (record { fd = fd; connecting = true }),
        record { kernel = s; trace = connects fd endpoint.address true ∷ h.trace },
      )
      else (
        err (system_error (codes "connect to " ++ endpoint.text ++ codes " failed") e),
        record h { kernel = s },
      )

  unfoldable pub prepare_connection : Endpoint → ℕ → Call S ConnectResult
  unfolding set_close_on_exec set_non_blocking set_tcp_no_delay
  prepare_connection endpoint fd = do
    set_close_on_exec fd
    set_non_blocking fd
    set_tcp_no_delay fd
    λ h. connect_answer fd endpoint h (k.connect fd endpoint.address h.kernel)

  unfoldable pub connect_non_blocking : Endpoint → Call S ConnectResult
  unfolding open_socket owning prepare_connection
  connect_non_blocking endpoint = do
    fd ← open_socket (codes "upstream socket failed") endpoint
    owning k fd (prepare_connection endpoint fd)

  -- The loop of `waitForConnect` around poll(), on fuel; none without an answer.
  unfoldable pub poll_until : ℕ → ℕ → ℕ → Host S → Option (Result ℕ ℕ) × Host S
  poll_until zero fd timeout h = (none, h)
  poll_until (suc fuel) fd timeout h =
      let again =
        poll_until fuel fd timeout (record h { kernel = (k.poll fd timeout h.kernel).1 }) in
      elim (k.poll fd timeout h.kernel).0 [
        | ok n ↦ (some (ok n), record h { kernel = (k.poll fd timeout h.kernel).1 })
        | err e ↦
            if e == eintr
            then again
            else (some (err e), record h { kernel = (k.poll fd timeout h.kernel).1 })
      ]

  -- `getsockopt(SO_ERROR)`, read once the socket is ready.
  abbrev pub error_answer : ℕ → Host S → Result ℕ ℕ × S → Option Bool × Host S
  error_answer fd h (ok e, s) =
      (some (e == 0), record { kernel = s; trace = finds_error fd e ∷ h.trace })
  error_answer fd h (err e, s) = (some false, record h { kernel = s })

  unfoldable pub after_poll : ℕ → Option (Result ℕ ℕ) × Host S → Option Bool × Host S
  after_poll fd (none, h) = (none, h)
  after_poll fd (some (err e), h) = (some false, h)
  after_poll fd (some (ok zero), h) = (some false, h)
  after_poll fd (some (ok (suc n)), h) = error_answer fd h (k.so_error fd h.kernel)

  -- The scope of `socketFd`; poll() is tried once more than signals may interrupt it.
  unfoldable pub await_connect : ℕ → ConnectResult → Host S → Option Bool × Host S
  unfolding poll_until after_poll close_fd
  await_connect timeout r h =
      let ended : Option Bool × Host S =
        if not r.connecting
        then (some true, h)
        else after_poll r.fd (poll_until (suc (k.signals h.kernel)) r.fd timeout h) in
      (ended.0, close_fd k r.fd ended.1)

  abbrev pub connected : ℕ → Result NetError ConnectResult × Host S → Option Bool × Host S
  connected timeout (ok r, h) = await_connect timeout r h
  connected timeout (err e, h) = (some false, h)

  -- `waitForConnect`: none only if the fuel of poll() runs out.
  unfoldable pub wait_for_connect : Endpoint → ℕ → Host S → Option Bool × Host S
  unfolding connect_non_blocking await_connect
  wait_for_connect endpoint timeout h = connected timeout (connect_non_blocking endpoint h)
