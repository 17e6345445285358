-- ===== src/Worker/Reactor/Taken.antt =====
-- What `Worker::drainQueue` (src/Worker.cpp) keeps.
use flux_gate.Base.{ℕ, suc, ◌+◌, ◌<◌, ◌≡◌, not, List, [], ◌∷◌, length, arith, word_mod}
use flux_gate.Pool.{Lease}
use flux_gate.Io.{Kernel, IsKernel}
use flux_gate.Worker.Queue.{AcceptedClient}
use flux_gate.Worker.Sessions.{Worker}
use flux_gate.Worker.Runs.{weaken}
use flux_gate.Worker.Reactor.Served.{IsServed, IsServed-if}
use flux_gate.Worker.Reactor.Created.{create_session-IsServed}
use flux_gate.Worker.Reactor.{Setup, Answer, take_client, take_clients, close_clients}

module _ {S : Type 0} {others : List Lease} (k : Kernel S) (law : IsKernel k) (c : Setup)
    (fits : c.buffer_size < word_mod) where
  module _ (n : ℕ) (small : suc n < 1_000_000_000_000) where
    -- A descriptor that is closed as soon as it is taken.
    refused-IsServed :
        (client : AcceptedClient) (w : Worker S)
        → IsServed others n w
        → IsServed others n
            (record w { taken = client.fd ∷ w.taken; closed = client.fd ∷ w.closed })
    refused-IsServed client w r = record {
      booked = record {
        tally = r.booked.tally;
        active = r.booked.active;
        known = r.booked.known;
        few = r.booked.few;
        given = r.booked.given;
      };
      valid = r.valid;
      kept = λ f. omega (arith, r.kept f);
    }

    IsServed-weaken : (w : Worker S) → IsServed others n w → IsServed others (suc n) w
    IsServed-weaken w r = record { booked = weaken k n w r.booked; valid = r.valid; kept = r.kept }

    take_client-IsServed :
        (a : Answer) (client : AcceptedClient) (w : Worker S)
        → IsServed others n w
        → IsServed others (suc n) (take_client k c a client w)
    unfolding take_client
    take_client-IsServed a client w r =
        IsServed-if k law (suc n) (not a.running) _ _
          (IsServed-weaken _ (refused-IsServed client w r))
          (create_session-IsServed k c.buffer_size fits client a.registered n a.connect w small r)

  pub take_clients-IsServed :
      (answers : AcceptedClient → Answer) (cs : List AcceptedClient) (n m : ℕ) (w : Worker S)
      → n + length cs ≡ m
      → m < 1_000_000_000_000
      → IsServed others n w
      → IsServed others m (take_clients k c answers cs w)
  unfolding take_clients
  take_clients-IsServed answers [] n m w e small r =
      let same : n ≡ m = omega (arith, e) in rw same at r
  take_clients-IsServed answers (client ∷ cs) n m w e small r =
      take_clients-IsServed answers cs (suc n) m _ (omega (arith, e)) small
        (take_client-IsServed n (omega (arith, e, small)) (answers client) client w r)

  pub close_clients-IsServed :
      (n : ℕ) (cs : List AcceptedClient) (w : Worker S)
      → suc n < 1_000_000_000_000
      → IsServed others n w
      → IsServed others n (close_clients cs w)
  close_clients-IsServed n [] w small r = r
  close_clients-IsServed n (client ∷ cs) w small r =
      close_clients-IsServed n cs _ small (refused-IsServed n small client w r)
