-- ===== src/Acceptor/Serve.antt =====
-- The loop of the main thread of src/main.cpp: poll() on the listener, then the accept loop.
use flux_gate.Base.{ℕ, ◌+◌, ◌≡◌, inl, inr, List, [], ◌∷◌, if◌then◌else◌, arith, Bool-cases, ◌==◌}
use flux_gate.Io.{eintr}
use flux_gate.Acceptor.{
  Acceptor, AcceptReply, incoming, failed, accept_client, accept_all, drains, swap_queue,
}
use flux_gate.Acceptor.Ledger.{
  placed, swap_queue-placed, swap_queue-IsReady, arrivals, AllWoken, IsReady, accept_client-IsReady,
  accept_all-placed,
}

-- A pass of the loop: `stopRequested` is set; or it is not, and poll() finds the listener readable,
-- with the replies that accept4() then has; or its time is up, or it reports another event; or it
-- fails. Or, between two passes, a worker takes its queue.
pub data MainPass : Type 0 where
  asked : MainPass
  readable : List AcceptReply → MainPass
  quiet : MainPass
  broken : ℕ → MainPass
  drained : ℕ → MainPass

pub data Ending : Type 0 where
  serving : Ending
  stopped : Ending
  threw : ℕ → Ending

-- Over the passes given: a stop or an error other than EINTR ends the loop.
unfoldable pub serve : List MainPass → Acceptor → Ending × Acceptor
serve [] a = (serving, a)
serve (asked ∷ ps) a = (stopped, a)
serve (readable rs ∷ ps) a = serve ps (accept_all rs a)
serve (quiet ∷ ps) a = serve ps a
serve (drained j ∷ ps) a = serve ps (swap_queue j a)
serve (broken e ∷ ps) a = let rest = serve ps a in if e == eintr then rest else (threw e, a)

-- How often a descriptor is accepted before the loop ends.
abbrev pub all_arrivals : ℕ → List MainPass → ℕ
all_arrivals f [] = 0
all_arrivals f (asked ∷ ps) = 0
all_arrivals f (readable rs ∷ ps) = arrivals f rs + all_arrivals f ps
all_arrivals f (quiet ∷ ps) = all_arrivals f ps
all_arrivals f (drained j ∷ ps) = all_arrivals f ps
all_arrivals f (broken e ∷ ps) = if e == eintr then all_arrivals f ps else 0

abbrev pub Wakes : MainPass → Type 0
Wakes asked = Unit {0}
Wakes (readable rs) = AllWoken rs
Wakes quiet = Unit {0}
Wakes (drained j) = Unit {0}
Wakes (broken e) = Unit {0}

abbrev pub AllWake : List MainPass → Type 0
AllWake [] = Unit {0}
AllWake (p ∷ ps) = Wakes p × AllWake ps

accept_all-IsReady : (rs : List AcceptReply) (a : Acceptor) → IsReady a → IsReady (accept_all rs a)
unfolding accept_all
accept_all-IsReady [] a r = r
accept_all-IsReady (incoming c ∷ rs) a r =
    accept_all-IsReady rs (accept_client c a) (accept_client-IsReady c a r)
accept_all-IsReady (drains j ∷ rs) a r =
    accept_all-IsReady rs (swap_queue j a) (swap_queue-IsReady j a r)
accept_all-IsReady (failed e ∷ rs) a r = elim (Bool-cases (e == eintr)) [
  | inl again ↦ rw again (accept_all-IsReady rs a r)
  | inr stop ↦ rw stop r
]

-- With at least one worker, a cursor below 2 ^ 64, and wake-ups that get through or find EAGAIN:
-- over the main thread's loop, whatever poll() and accept4() reply, whenever the workers take
-- their queues and however the loop ends, each descriptor accepted before its end is put once
-- more in the queues, among the closed ones or among those that the workers have taken, and no
-- other is.
pub serve-placed :
    (f : ℕ) (ps : List MainPass) (a : Acceptor)
    → IsReady a
    → AllWake ps
    → placed f (serve ps a).1 ≡ placed f a + all_arrivals f ps
unfolding serve
serve-placed f [] a r h = omega arith
serve-placed f (asked ∷ ps) a r h = omega arith
serve-placed f (readable rs ∷ ps) a r h = omega (
  arith,
  serve-placed f ps (accept_all rs a) (accept_all-IsReady rs a r) h.1,
  accept_all-placed f rs a r h.0,
)
serve-placed f (quiet ∷ ps) a r h = serve-placed f ps a r h.1
serve-placed f (drained j ∷ ps) a r h = omega (
  arith,
  serve-placed f ps (swap_queue j a) (swap_queue-IsReady j a r) h.1,
  swap_queue-placed j a f,
)
serve-placed f (broken e ∷ ps) a r h = elim (Bool-cases (e == eintr)) [
  | inl again ↦ rw again (serve-placed f ps a r h.1)
  | inr stop ↦ rw stop (omega arith)
]
