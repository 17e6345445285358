-- ===== src/Io.antt =====
-- The system calls that src/ProxySession.cpp and src/Worker.cpp make, as an interface: the kernel
-- is a parameter, with the laws of recv(2), send(2) and signal(7) that the code relies on. The
-- trace of a world records the calls that move bytes, newest first; the code does not read it.
use flux_gate.Base.{ℕ, suc, ◌≤◌, ◌<◌, ◌≡◌, List, [], ◌∷◌, ◌++◌, Option, length, ◌==◌, if◌then◌else◌}
use flux_gate.Pool.{Pool}
use flux_gate.Metrics.{Metrics}

-- Linux numbers of the errors that the code tests for.
abbrev pub eintr : ℕ
eintr = 4

abbrev pub eagain : ℕ
eagain = 11

abbrev pub ewouldblock : ℕ
ewouldblock = 11

-- `received` with no byte is the return value 0; `failed` is -1 with its `errno`.
pub data RecvReply : Type 0 where
  received : List ℕ → RecvReply
  failed : ℕ → RecvReply

pub data SendReply : Type 0 where
  sent : ℕ → SendReply
  failed : ℕ → SendReply

-- The calls of a kernel with states `S`. `so_error` is `getsockopt(SO_ERROR)`, `none` its failure;
-- `signals` bounds the calls that signals may still interrupt.
pub record Kernel (S : Type 0) : Type 0 where
  pub recv : S → ℕ → ℕ → RecvReply × S
  pub send : S → ℕ → List ℕ → SendReply × S
  pub so_error : S → ℕ → Option ℕ × S
  pub shut_write : S → ℕ → S
  pub now : S → ℕ
  pub signals : S → ℕ

-- What `recv` and `send` promise: no more bytes than asked for, and finitely many interruptions.
abbrev pub RecvFits : {S : Type 0} → Kernel S → S → ℕ → RecvReply × S → Type 0
RecvFits k s room (received xs, s') = (length xs ≤ room) × (k.signals s' ≤ k.signals s)
RecvFits k s room (failed e, s') =
    (k.signals s' ≤ k.signals s) × (e ≡ eintr → k.signals s' < k.signals s)

abbrev pub SendFits : {S : Type 0} → Kernel S → S → List ℕ → SendReply × S → Type 0
SendFits k s xs (sent n, s') = (n ≤ length xs) × (k.signals s' ≤ k.signals s)
SendFits k s xs (failed e, s') =
    (k.signals s' ≤ k.signals s) × (e ≡ eintr → k.signals s' < k.signals s)

pub record IsKernel {S : Type 0} (k : Kernel S) : Type 0 where
  pub recv_fits : (s : S) (fd room : ℕ) → RecvFits k s room (k.recv s fd room)
  pub send_fits : (s : S) (fd : ℕ) (xs : List ℕ) → SendFits k s xs (k.send s fd xs)

pub data Call : Type 0 where
  reads writes : ℕ → List ℕ → Call
  shuts : ℕ → Call

pub record World (S : Type 0) : Type 0 where
  pub kernel : S
  pub pool : Pool
  pub metrics : Metrics
  pub trace : List Call

-- The bytes read from a descriptor, and those written to it, in order.
abbrev pub bytes_read : ℕ → List Call → List ℕ
bytes_read fd [] = []
bytes_read fd (reads f xs ∷ t) = if f == fd then bytes_read fd t ++ xs else bytes_read fd t
bytes_read fd (writes f xs ∷ t) = bytes_read fd t
bytes_read fd (shuts f ∷ t) = bytes_read fd t

abbrev pub bytes_written : ℕ → List Call → List ℕ
bytes_written fd [] = []
bytes_written fd (reads f xs ∷ t) = bytes_written fd t
bytes_written fd (writes f xs ∷ t) =
    if f == fd then bytes_written fd t ++ xs else bytes_written fd t
bytes_written fd (shuts f ∷ t) = bytes_written fd t

-- How often the write end of a descriptor has been shut.
abbrev pub shuts_of : ℕ → List Call → ℕ
shuts_of fd [] = 0
shuts_of fd (reads f xs ∷ t) = shuts_of fd t
shuts_of fd (writes f xs ∷ t) = shuts_of fd t
shuts_of fd (shuts f ∷ t) = let before = shuts_of fd t in if f == fd then suc before else before
