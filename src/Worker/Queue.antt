-- ===== src/Worker/Queue.antt =====
-- The queue between the acceptor and a worker: `Worker::enqueue` (src/Worker.cpp).
use flux_gate.Base.{
  ℕ, ◌+◌, ◌≡◌, ◌⊎◌, inl, inr, refl, Bool, true, false, not, List, [], ◌∷◌, ◌++◌, Option, none, some,
  length, leb, ◌==◌, if◌then◌else◌, mul64, arith, ==_refl, Bool-cases,
}
use flux_gate.Backend.{Bytes}
use flux_gate.Io.{eagain}

pub record AcceptedClient : Type 0 where
  pub fd : ℕ
  pub address : Bytes

-- What `enqueue` reads and writes of a worker.
pub record Inbox : Type 0 where
  pub running : Bool
  pub backlog : ℕ
  pub queue : List AcceptedClient

-- The write to the eventfd: done, or failed with an error.
abbrev pub WakeReply : Type 0
WakeReply = Option ℕ

abbrev pub woken : WakeReply → Bool
woken none = true
woken (some e) = e == eagain

-- `Worker::enqueue`: whether the worker takes the client.
unfoldable pub enqueue : Inbox → AcceptedClient → WakeReply → Bool × Inbox
enqueue w client wake =
    if not w.running
    then (false, w)
    else if leb (mul64 w.backlog 4) (length w.queue)
    then (false, w)
    else (woken wake, record w { queue = w.queue ++ (client ∷ []) })

abbrev pub same_fd : ℕ → ℕ → ℕ
same_fd f g = if f == g then 1 else 0

-- How often a descriptor stands in a queue.
abbrev pub waiting : ℕ → List AcceptedClient → ℕ
waiting f [] = 0
waiting f (c ∷ cs) = same_fd f c.fd + waiting f cs

pub same_fd_refl : (f : ℕ) → same_fd f f ≡ 1
same_fd_refl f = rw (==_refl f) refl

pub waiting-append :
    (f : ℕ) (cs : List AcceptedClient) (c : AcceptedClient)
    → waiting f (cs ++ (c ∷ [])) ≡ waiting f cs + same_fd f c.fd
waiting-append f [] c = omega arith
waiting-append f (d ∷ cs) c = omega (arith, waiting-append f cs c)

-- The client is taken when the call says so, and only then, if the wake-up is not lost.
abbrev pub Passed : ℕ → Inbox → AcceptedClient → Bool × Inbox → Type 0
Passed f w c r =
    ((r.0 ≡ true) × (waiting f r.1.queue ≡ waiting f w.queue + same_fd f c.fd))
    ⊎ ((r.0 ≡ false) × (waiting f r.1.queue ≡ waiting f w.queue))

pub enqueue-Passed :
    (f : ℕ) (w : Inbox) (c : AcceptedClient) (wake : WakeReply)
    → woken wake ≡ true
    → Passed f w c (enqueue w c wake)
unfolding enqueue
enqueue-Passed f w c wake h = elim (Bool-cases w.running) [
  | inr stopped ↦ rw stopped (inr (refl, refl))
  | inl on ↦ elim (Bool-cases (leb (mul64 w.backlog 4) (length w.queue))) [
    | inl full ↦ rw (on, full) (inr (refl, refl))
    | inr room ↦ rw (on, room) (inl (h, waiting-append f w.queue c))
  ]
]
