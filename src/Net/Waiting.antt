-- ===== src/Net/Waiting.antt =====
-- What the answer of `waitForConnect` (src/Net.cpp) rests on.
use flux_gate.Base.{
  ℕ, suc, ◌≡◌, refl, inl, inr, Bool, true, false, List, ◌∷◌, Option, some, ◌==◌, Result, ok, err,
  arith, Bool-cases,
}
use flux_gate.Backend.{Bytes, Endpoint}
use flux_gate.Config.Text.{codes}
use flux_gate.Worker.Queue.{same_fd}
use flux_gate.Net.Sockets.{
  ConnectResult, einprogress, prepare_connection, connect_answer, connect_non_blocking,
  await_connect, connected, wait_for_connect, open_socket, set_close_on_exec, set_non_blocking,
  set_tcp_no_delay,
}
use flux_gate.Net.Balance.{Leaves, Owes}
use flux_gate.Net.Polling.{IsUp, poll_until-IsPolled, after_poll-IsTold}
use flux_gate.Net.Listening.{connect_non_blocking-Owes}
use flux_gate.Net.{
  SocketCalls, IsSocketCalls, Deed, closes, Host, NetError, Call, continue_with, owning, released,
  close_fd,
}

-- What a call that returns leaves.
abbrev Yields : {S A : Type 0} → (A → List Deed → Type 0) → Result NetError A × Host S → Type 0
Yields P (ok a, h) = P a h.trace
Yields P (err e, h) = Unit {0}

-- A connect that is not under way is done.
abbrev IsDone : Bytes → ConnectResult → List Deed → Type 0
IsDone address r t = r.connecting ≡ false → IsUp address r.fd t

-- The answer of `waitForConnect`: no socket is left open, and a yes rests on a connection.
pub record IsAnswered {S : Type 0} (address : Bytes) (t : List Deed) (r : Option Bool × Host S)
    : Type 0 where
  pub answer : Bool
  pub found : r.0 ≡ some answer
  pub steady : Leaves (λ f. 0) t r.1.trace
  pub up :
      answer ≡ true
      → (fd : ℕ) × (last : List Deed) × (r.1.trace ≡ closes fd ∷ last) × IsUp address fd last

module _ {S : Type 0} (k : SocketCalls S) where
  Yields-bind :
      {A B : Type 0} (P : B → List Deed → Type 0) (f : A → Call S B)
      (r : Result NetError A × Host S)
      → ((a : A) (h : Host S) → Yields P (f a h))
      → Yields P (continue_with f r)
  Yields-bind P f (ok a, h) g = g a h
  Yields-bind P f (err e, h) g = tt

  released-Yields :
      {A : Type 0} (P : A → List Deed → Type 0) (fd : ℕ) (r : Result NetError A × Host S)
      → Yields P r
      → Yields P (released k fd r)
  released-Yields P fd (ok a, h) g = g
  released-Yields P fd (err e, h) g = tt

  connect_answer-Yields :
      (fd : ℕ) (endpoint : Endpoint) (h : Host S) (r : Result ℕ (Unit {0}) × S)
      → Yields (IsDone endpoint.address) (connect_answer k fd endpoint h r)
  connect_answer-Yields fd endpoint h (ok u, s) = λ _. (h.trace, inl refl)
  connect_answer-Yields fd endpoint h (err e, s) = elim (Bool-cases (e == einprogress)) [
    | inl going ↦ rw going (λ c. cc)
    | inr bad ↦ rw bad tt
  ]

  prepare_connection-Yields :
      (endpoint : Endpoint) (fd : ℕ) (h : Host S)
      → Yields (IsDone endpoint.address) (prepare_connection k endpoint fd h)
  unfolding prepare_connection
  prepare_connection-Yields endpoint fd h0 =
      Yields-bind (IsDone endpoint.address) _ (set_close_on_exec k fd h0) λ _ h1.
        Yields-bind (IsDone endpoint.address) _ (set_non_blocking k fd h1) λ _ h2.
          Yields-bind (IsDone endpoint.address) _ (set_tcp_no_delay k fd h2)
            λ _ h3. connect_answer-Yields fd endpoint h3 (k.connect fd endpoint.address h3.kernel)

  connect_non_blocking-Yields :
      (endpoint : Endpoint) (h : Host S)
      → Yields (IsDone endpoint.address) (connect_non_blocking k endpoint h)
  unfolding connect_non_blocking owning
  connect_non_blocking-Yields endpoint h =
      Yields-bind (IsDone endpoint.address) _
        (open_socket k (codes "upstream socket failed") endpoint h)
        λ fd h0.
          released-Yields (IsDone endpoint.address) fd (prepare_connection k endpoint fd h0)
            (prepare_connection-Yields endpoint fd h0)

  module _ (law : IsSocketCalls k) where
    -- In the scope of the socket: what a connect leaves, until the socket is closed.
    record IsAwaited (address : Bytes) (fd : ℕ) (t : List Deed) (r : Option Bool × Host S)
        : Type 0 where
      answer : Bool
      found : r.0 ≡ some answer
      last : List Deed
      ended : r.1.trace ≡ closes fd ∷ last
      steady : Leaves (λ f. 0) t last
      up : answer ≡ true → IsUp address fd last

    await_connect-IsAwaited :
        (address : Bytes) (timeout fd : ℕ) (connecting : Bool) (h : Host S)
        → (connecting ≡ false → IsUp address fd h.trace)
        → IsAwaited address fd h.trace
            (await_connect k timeout (record { fd = fd; connecting = connecting }) h)
    unfolding await_connect close_fd
    await_connect-IsAwaited address timeout fd false h done = record {
      answer = true;
      found = refl;
      last = h.trace;
      ended = refl;
      steady = λ f. omega arith;
      up = λ _. done refl;
    }
    await_connect-IsAwaited address timeout fd true h done =
        let p = poll_until-IsPolled k law (suc (k.signals h.kernel)) fd timeout h (omega arith) in
        let told = after_poll-IsTold k law address fd h.trace _ p in
        record {
          answer = told.answer;
          found = told.found;
          last = _;
          ended = refl;
          steady = told.steady;
          up = told.up;
        }

  connected-IsAnswered :
      (law : IsSocketCalls k) (address : Bytes) (timeout : ℕ) (t : List Deed)
      (r : Result NetError ConnectResult × Host S)
      → Owes (λ c f. same_fd f c.fd) t r
      → Yields (IsDone address) r
      → IsAnswered address t (connected k timeout r)
  connected-IsAnswered law address timeout t (ok c, h) owes done =
      let a = await_connect-IsAwaited law address timeout c.fd c.connecting h done in
      record {
        answer = a.answer;
        found = a.found;
        steady = λ f. rw a.ended (omega (arith, a.steady f, owes f));
        up = λ yes. (c.fd, a.last, a.ended, a.up yes);
      }
  connected-IsAnswered law address timeout t (err e, h) owes done = record {
    answer = false;
    found = refl;
    steady = owes;
    up = λ c. cc;
  }

  -- On a kernel whose poll() is interrupted finitely often: `waitForConnect` has an answer, every
  -- socket that it opens it closes, and a yes means that the last thing it did before it closed
  -- its socket was a connect to the endpoint that succeeded at once or a read of SO_ERROR that
  -- found 0.
  pub wait_for_connect-IsAnswered :
      (law : IsSocketCalls k) (endpoint : Endpoint) (timeout : ℕ) (h : Host S)
      → IsAnswered endpoint.address h.trace (wait_for_connect k endpoint timeout h)
  unfolding wait_for_connect
  wait_for_connect-IsAnswered law endpoint timeout h =
      connected-IsAnswered law endpoint.address timeout h.trace (connect_non_blocking k endpoint h)
        (connect_non_blocking-Owes k endpoint h) (connect_non_blocking-Yields endpoint h)
