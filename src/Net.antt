-- ===== src/Net.antt =====
-- src/Net.cpp, the system calls: an interface to a kernel with states `S`, and the calls that throw
-- `systemError`. `trace` records the calls that succeed, newest first; the code does not read it.
pub mod Address
pub mod Sockets
pub mod Balance
pub mod Listening
pub mod Polling
pub mod Waiting
pub mod Resolved
pub mod Tests
use flux_gate.Base.{ℕ, suc, ◌<◌, ◌≡◌, List, ◌∷◌, Bool, ◌==◌, if◌then◌else◌, Result, ok, err}
use flux_gate.Backend.{Bytes}
use flux_gate.Io.{eintr}

-- The flags of F_GETFL and F_SETFL, and those of F_GETFD and F_SETFD.
pub data FlagSet : Type 0 where
  status descriptor : FlagSet

pub data SocketOption : Type 0 where
  reuse_address no_delay : SocketOption

-- An error is the `errno`. `poll` of one descriptor for POLLOUT returns how many are ready;
-- `signals` bounds the calls that signals may still interrupt.
pub record SocketCalls (S : Type 0) : Type 0 where
  pub socket : ℕ → S → Result ℕ ℕ × S
  pub get_flags : FlagSet → ℕ → S → Result ℕ ℕ × S
  pub set_flags : FlagSet → ℕ → ℕ → S → Result ℕ (Unit {0}) × S
  pub set_option : SocketOption → ℕ → S → Result ℕ (Unit {0}) × S
  pub bind : ℕ → Bytes → S → Result ℕ (Unit {0}) × S
  pub listen : ℕ → ℕ → S → Result ℕ (Unit {0}) × S
  pub connect : ℕ → Bytes → S → Result ℕ (Unit {0}) × S
  pub poll : ℕ → ℕ → S → Result ℕ ℕ × S
  pub so_error : ℕ → S → Result ℕ ℕ × S
  pub close : ℕ → S → S
  pub signals : S → ℕ

-- poll(2) is interrupted finitely often.
abbrev pub PollFits : {S : Type 0} → SocketCalls S → S → Result ℕ ℕ × S → Type 0
PollFits k s (ok n, s') = Unit {0}
PollFits k s (err e, s') = e ≡ eintr → k.signals s' < k.signals s

pub record IsSocketCalls {S : Type 0} (k : SocketCalls S) : Type 0 where
  pub poll_fits : (s : S) (fd timeout : ℕ) → PollFits k s (k.poll fd timeout s)

-- What a call that succeeds has done.
pub data Deed : Type 0 where
  opens : ℕ → Deed
  sets_flags : FlagSet → ℕ → ℕ → Deed
  sets_option : SocketOption → ℕ → Deed
  binds : ℕ → Bytes → Deed
  listens : ℕ → ℕ → Deed
  connects : ℕ → Bytes → Bool → Deed
  finds_error : ℕ → ℕ → Deed
  closes : ℕ → Deed

pub record Host (S : Type 0) : Type 0 where
  pub kernel : S
  pub trace : List Deed

-- `std::runtime_error`: a call's text with its `errno`, and the two of `resolveTcpEndpoint`.
pub data NetError : Type 0 where
  system_error : Bytes → ℕ → NetError
  unresolved : Bytes → ℕ → NetError
  no_address : Bytes → NetError

-- A function that makes system calls and may throw.
abbrev pub Call : Type 0 → Type 0 → Type 0
Call S A = Host S → Result NetError A × Host S

module _ {S : Type 0} where
  abbrev pub pure : {A : Type 0} → A → Call S A
  pure a h = (ok a, h)

  abbrev pub continue_with :
      {A B : Type 0} → (A → Call S B) → Result NetError A × Host S → Result NetError B × Host S
  continue_with f (ok a, h) = f a h
  continue_with f (err e, h) = (err e, h)

  infixl 5 ◌>>=◌ ◌>>◌
  abbrev pub ◌>>=◌ : {A B : Type 0} → Call S A → (A → Call S B) → Call S B
  (m >>= f) h = continue_with f (m h)

  abbrev pub ◌>>◌ : {A B : Type 0} → Call S A → Call S B → Call S B
  (m >> n) h = continue_with (λ _. n) (m h)

  -- With what the kernel answers: the deed, or the error with the text.
  abbrev pub answered :
      {A : Type 0}
      → Bytes
      → (A → List Deed → List Deed)
      → Host S
      → Result ℕ A × S
      → Result NetError A × Host S
  answered action deed h (ok a, s) = (ok a, record { kernel = s; trace = deed a h.trace })
  answered action deed h (err e, s) = (err (system_error action e), record h { kernel = s })

  unfoldable pub system_call :
      {A : Type 0} → Bytes → (A → List Deed → List Deed) → (S → Result ℕ A × S) → Call S A
  system_call action deed f h = answered action deed h (f h.kernel)

  unfoldable pub close_fd : SocketCalls S → ℕ → Host S → Host S
  close_fd k fd h = record { kernel = k.close fd h.kernel; trace = closes fd ∷ h.trace }

  -- The scope of a `UniqueFd` that a return releases and an exception destroys.
  abbrev pub released :
      {A : Type 0} → SocketCalls S → ℕ → Result NetError A × Host S → Result NetError A × Host S
  released k fd (ok a, h) = (ok a, h)
  released k fd (err e, h) = (err e, close_fd k fd h)

  unfoldable pub owning : {A : Type 0} → SocketCalls S → ℕ → Call S A → Call S A
  unfolding close_fd
  owning k fd m h = released k fd (m h)
