-- ===== src/Net/Balance.antt =====
-- The sockets that the calls of src/Net.cpp open and close.
use Prim.Native.Nat.{bit_or}
use flux_gate.Base.{ℕ, ◌+◌, ◌≡◌, refl, ◌∙◌, List, [], ◌∷◌, Result, ok, err, arith}
use flux_gate.Backend.{Bytes, Endpoint}
use flux_gate.Config.Text.{codes}
use flux_gate.Worker.Queue.{same_fd}
use flux_gate.Net.{
  FlagSet, SocketOption, reuse_address, no_delay, SocketCalls, Deed, opens, sets_flags, sets_option,
  binds, listens, connects, finds_error, closes, Host, NetError, Call, continue_with, ◌>>=◌,
  answered, system_call, close_fd, released, owning,
}
use flux_gate.Net.Address.{family}
use flux_gate.Net.Sockets.{
  add_flag, set_non_blocking, set_close_on_exec, set_tcp_no_delay, set_reuse_address, open_socket,
}

-- How often a descriptor has been opened, and closed.
abbrev pub opening : ℕ → Deed → ℕ
opening f (opens fd) = same_fd f fd
opening f (sets_flags set fd flags) = 0
opening f (sets_option option fd) = 0
opening f (binds fd address) = 0
opening f (listens fd backlog) = 0
opening f (connects fd address connecting) = 0
opening f (finds_error fd e) = 0
opening f (closes fd) = 0

abbrev pub closing : ℕ → Deed → ℕ
closing f (opens fd) = 0
closing f (sets_flags set fd flags) = 0
closing f (sets_option option fd) = 0
closing f (binds fd address) = 0
closing f (listens fd backlog) = 0
closing f (connects fd address connecting) = 0
closing f (finds_error fd e) = 0
closing f (closes fd) = same_fd f fd

abbrev pub opened : ℕ → List Deed → ℕ
opened f [] = 0
opened f (d ∷ t) = opening f d + opened f t

abbrev pub shut : ℕ → List Deed → ℕ
shut f [] = 0
shut f (d ∷ t) = closing f d + shut f t

-- From one trace to another every descriptor that is opened is closed, but for `f ↦ n f`.
abbrev pub Leaves : (ℕ → ℕ) → List Deed → List Deed → Type 0
Leaves n t t' = (f : ℕ) → opened f t' + shut f t ≡ shut f t' + opened f t + n f

-- A call that returns owes its caller the descriptors of its result, one that throws none.
abbrev pub Owes : {S A : Type 0} → (A → ℕ → ℕ) → List Deed → Result NetError A × Host S → Type 0
Owes due t (ok a, h) = Leaves (due a) t h.trace
Owes due t (err e, h) = Leaves (λ f. 0) t h.trace

abbrev SameSockets : List Deed → List Deed → Type 0
SameSockets t t' = (f : ℕ) → (opened f t' ≡ opened f t) × (shut f t' ≡ shut f t)

-- A call that opens and closes nothing, and returns what is in `P`.
abbrev pub IsSteady :
    {S A : Type 0} → (A → Type 0) → List Deed → Result NetError A × Host S → Type 0
IsSteady P t (ok a, h) = P a × SameSockets t h.trace
IsSteady P t (err e, h) = SameSockets t h.trace

abbrev pub Anything : {A : Type 0} → A → Type 0
Anything a = Unit {0}

module _ {S : Type 0} where
  IsSteady-trans :
      {A : Type 0} (P : A → Type 0) (s t : List Deed) (r : Result NetError A × Host S)
      → SameSockets s t
      → IsSteady P t r
      → IsSteady P s r
  IsSteady-trans P s t (ok a, h) e g = (g.0, λ f. ((g.1 f).0 ∙ (e f).0, (g.1 f).1 ∙ (e f).1))
  IsSteady-trans P s t (err x, h) e g = λ f. ((g f).0 ∙ (e f).0, (g f).1 ∙ (e f).1)

  pub IsSteady-bind :
      {A B : Type 0} (P : A → Type 0) (Q : B → Type 0) (t : List Deed) (f : A → Call S B)
      (r : Result NetError A × Host S)
      → IsSteady P t r
      → ((a : A) (h : Host S) → P a → IsSteady Q h.trace (f a h))
      → IsSteady Q t (continue_with f r)
  IsSteady-bind P Q t f (ok a, h) g k = IsSteady-trans Q t h.trace (f a h) g.1 (k a h g.0)
  IsSteady-bind P Q t f (err e, h) g k = g

  answered-IsSteady :
      {A : Type 0} (action : Bytes) (deed : A → List Deed → List Deed) (h : Host S)
      (r : Result ℕ A × S)
      → ((a : A) → SameSockets h.trace (deed a h.trace))
      → IsSteady Anything h.trace (answered action deed h r)
  answered-IsSteady action deed h (ok a, s) g = (tt, g a)
  answered-IsSteady action deed h (err e, s) g = λ f. (refl, refl)

  pub system_call-IsSteady :
      {A : Type 0} (action : Bytes) (deed : A → List Deed → List Deed) (c : S → Result ℕ A × S)
      (h : Host S)
      → ((a : A) → SameSockets h.trace (deed a h.trace))
      → IsSteady Anything h.trace (system_call action deed c h)
  unfolding system_call
  system_call-IsSteady action deed c h g = answered-IsSteady action deed h (c h.kernel) g

  -- A call that needs no more than that.
  abbrev pub Steady : {A : Type 0} → Call S A → Type 0
  Steady c = (h : Host S) → IsSteady Anything h.trace (c h)

  module _ (k : SocketCalls S) (fd : ℕ) where
    add_flag-Steady :
        (action : Bytes) (set : FlagSet) (flag : ℕ) → Steady (add_flag k action set flag fd)
    unfolding add_flag
    add_flag-Steady action set flag h =
        IsSteady-bind Anything Anything h.trace _ _
          (system_call-IsSteady action (λ _ t. t) (k.get_flags set fd) h (λ a f. (refl, refl)))
          (λ flags g _.
            system_call-IsSteady action (λ _ t. sets_flags set fd (bit_or flags flag) ∷ t)
              (k.set_flags set fd (bit_or flags flag)) g (λ a f. (omega arith, omega arith)))

    pub set_non_blocking-Steady : Steady (set_non_blocking k fd)
    unfolding set_non_blocking
    set_non_blocking-Steady = add_flag-Steady _ _ _

    pub set_close_on_exec-Steady : Steady (set_close_on_exec k fd)
    unfolding set_close_on_exec
    set_close_on_exec-Steady = add_flag-Steady _ _ _

    option-Steady :
        (action : Bytes) (option : SocketOption)
        → Steady (system_call action (λ _ t. sets_option option fd ∷ t) (k.set_option option fd))
    option-Steady action option h =
        system_call-IsSteady action (λ _ t. sets_option option fd ∷ t) (k.set_option option fd) h
          (λ a f. (omega arith, omega arith))

    pub set_tcp_no_delay-Steady : Steady (set_tcp_no_delay k fd)
    unfolding set_tcp_no_delay
    set_tcp_no_delay-Steady = option-Steady (codes "setsockopt(TCP_NODELAY) failed") no_delay

    pub set_reuse_address-Steady : Steady (set_reuse_address k fd)
    unfolding set_reuse_address
    set_reuse_address-Steady = option-Steady (codes "setsockopt(SO_REUSEADDR) failed") reuse_address

    -- What follows a new socket, in the scope of its owner.
    pub released-Owes :
        {A : Type 0} (due : A → ℕ) (t : List Deed) (r : Result NetError A × Host S)
        → IsSteady (λ a. due a ≡ fd) (opens fd ∷ t) r
        → Owes (λ a f. same_fd f (due a)) t (released k fd r)
    unfolding close_fd
    released-Owes due t (ok a, h) (e, g) = rw e (λ f. omega (arith, (g f).0, (g f).1))
    released-Owes due t (err x, h) g = λ f. omega (arith, (g f).0, (g f).1)

  -- With a socket that is opened: what its owner does with it.
  pub owning-Owes :
      {A : Type 0} (k : SocketCalls S) (due : A → ℕ) (action : Bytes) (endpoint : Endpoint)
      (body : ℕ → Call S A) (h : Host S)
      → ((fd : ℕ) (g : Host S) → IsSteady (λ a. due a ≡ fd) g.trace (body fd g))
      → Owes
          (λ a f. same_fd f (due a))
          h.trace
          ((open_socket k action endpoint >>= λ fd. owning k fd (body fd)) h)
  unfolding open_socket system_call owning
  owning-Owes k due action endpoint body h steady =
      opened_then (k.socket (family endpoint.address) h.kernel)
    where
      opened_then :
          (r : Result ℕ ℕ × S)
          → Owes
              (λ a f. same_fd f (due a))
              h.trace
              (continue_with
                (λ fd. owning k fd (body fd))
                (answered action (λ fd t. opens fd ∷ t) h r))
      opened_then (ok fd, s) =
          let g : Host S = record { kernel = s; trace = opens fd ∷ h.trace } in
          released-Owes k fd due h.trace (body fd g) (steady fd g)
      opened_then (err e, s) = λ f. omega arith
