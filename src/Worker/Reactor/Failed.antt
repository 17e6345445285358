-- ===== src/Worker/Reactor/Failed.antt =====
-- A worker whose `epoll_wait` has failed (src/Worker.cpp).
use flux_gate.Base.{
  ◌<◌, leb-lt, mul64-eq, sym, ℕ, ◌≤◌, ◌≡◌, refl, ◌∙◌, inl, inr, Bool, true, false, List, [], ◌∷◌,
  length, leb, mul64, arith, Bool-cases,
}
use mathlib.Core.Path.{subst}
use flux_gate.Io.{Kernel}
use flux_gate.Worker.Queue.{
  AcceptedClient, Inbox, WakeReply, woken, enqueue, waiting, waiting-append, same_fd_refl,
}
use flux_gate.Worker.Reactor.{
  Setup, Answer, failed, Reactor, drain_queue, empty_queue, shut_down, after_wait, turn, stop,
  Action, posts, turns, stops, act, run_reactor,
}

enqueue-waiting :
    (f : ℕ) (w : Inbox) (client : AcceptedClient) (wake : WakeReply)
    → waiting f w.queue ≤ waiting f (enqueue w client wake).1.queue
unfolding enqueue
enqueue-waiting f w client wake = elim (Bool-cases w.running) [
  | inr stopped ↦ rw stopped (omega arith)
  | inl on ↦ elim (Bool-cases (leb (mul64 w.backlog 4) (length w.queue))) [
    | inl full ↦ rw (on, full) (omega arith)
    | inr room ↦ rw (on, room) (omega (arith, waiting-append f w.queue client))
  ]
]

-- A client that comes to an empty queue.
abbrev Waits : AcceptedClient → Bool × Inbox → Type 0
Waits client r = (r.0 ≡ true) × (1 ≤ waiting client.fd r.1.queue)

enqueue-empty :
    (w : Inbox) (client : AcceptedClient) (wake : WakeReply)
    → w.running ≡ true
    → 0 < w.backlog
    → w.backlog < 1_000_000_000_000
    → woken wake ≡ true
    → Waits client (enqueue (record w { queue = [] }) client wake)
unfolding enqueue
enqueue-empty w client wake on some_room few woke =
    let limit = mul64-eq w.backlog 4 (omega (arith, few)) in
    let room : leb (mul64 w.backlog 4) 0 ≡ false =
      leb-lt (mul64 w.backlog 4) 0 (omega (arith, limit, some_room)) in
    rw (on, room) (woke, omega (arith, same_fd_refl client.fd))

module _ {S : Type 0} (k : Kernel S) (c : Setup) where
  -- Nothing that is left to do reaches the clients that wait.
  record IsStuck (r q : Reactor S) : Type 0 where
    same_worker : q.worker ≡ r.worker
    ended : q.looping ≡ false
    left : (f : ℕ) → waiting f r.inbox.queue ≤ waiting f q.inbox.queue

  act-IsStuck : (a : Action) (r : Reactor S) → r.looping ≡ false → IsStuck r (act k c a r)
  unfolding act stop turn
  act-IsStuck (posts client wake) r over = record {
    same_worker = refl;
    ended = over;
    left = λ f. enqueue-waiting f r.inbox client wake;
  }
  act-IsStuck (turns answers reply) r over =
      rw (act, over) (record { same_worker = refl; ended = refl; left = λ f. omega arith })
  act-IsStuck stops r over = record { same_worker = refl; ended = over; left = λ f. omega arith }

  run_reactor-IsStuck :
      (actions : List Action) (r : Reactor S)
      → r.looping ≡ false
      → IsStuck r (run_reactor k c actions r)
  unfolding run_reactor
  run_reactor-IsStuck [] r over = record {
    same_worker = refl;
    ended = over;
    left = λ f. omega arith;
  }
  run_reactor-IsStuck (a ∷ more) r over =
      let h = act-IsStuck a r over in
      let g = run_reactor-IsStuck more (act k c a r) h.ended in
      record {
        same_worker = g.same_worker ∙ h.same_worker;
        ended = g.ended;
        left = λ f. omega (arith, h.left f, g.left f);
      }

  turn-failed :
      (answers : AcceptedClient → Answer) (r : Reactor S)
      → r.looping ≡ true
      → r.inbox.running ≡ true
      → turn k c answers failed r ≡ shut_down k c answers r
  unfolding turn after_wait
  turn-failed answers r on running = rw (on, running, turn) refl

  shut_down-inbox :
      (answers : AcceptedClient → Answer) (r : Reactor S)
      → (shut_down k c answers r).inbox ≡ record (r.inbox) { queue = [] }
  unfolding shut_down empty_queue drain_queue
  shut_down-inbox answers r = refl

  ended :
      (answers : AcceptedClient → Answer) (r : Reactor S)
      → (shut_down k c answers r).looping ≡ false
  unfolding shut_down
  ended answers r = refl

  -- When `epoll_wait` fails in a running worker with a backlog from 1 to 10 ^ 12 - 1, `enqueue`
  -- still takes a client whose wake-up gets through, and whatever is done after that, the worker
  -- stays as its thread left it and the client's descriptor stays in the queue.
  pub turn-enqueue :
      (answers : AcceptedClient → Answer) (client : AcceptedClient) (wake : WakeReply)
      (more : List Action) (r : Reactor S)
      → r.looping ≡ true
      → r.inbox.running ≡ true
      → 0 < r.inbox.backlog
      → r.inbox.backlog < 1_000_000_000_000
      → woken wake ≡ true
      → ((enqueue (turn k c answers failed r).inbox client wake).0 ≡ true)
        × ((run_reactor k c (posts client wake ∷ more) (turn k c answers failed r)).worker
            ≡ (turn k c answers failed r).worker)
        × (1
            ≤ waiting client.fd
                (run_reactor k c
                  (posts client wake ∷ more)
                  (turn k c answers failed r)).inbox.queue)
  unfolding run_reactor act
  turn-enqueue answers client wake more r on running some_room few woke =
      let q = shut_down k c answers r in
      let g = run_reactor-IsStuck more (act k c (posts client wake) q) (ended answers r) in
      let h =
        subst (λ w. Waits client (enqueue w client wake)) (sym (shut_down-inbox answers r))
          (enqueue-empty r.inbox client wake running some_room few woke) in
      rw (turn-failed answers r on running)
        (h.0, g.same_worker, omega (arith, h.1, g.left client.fd))
