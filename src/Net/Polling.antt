-- ===== src/Net/Polling.antt =====
-- The loop of `waitForConnect` (src/Net.cpp) around poll(), and the error that it reads.
use mathlib.Core.Path.{subst}
use flux_gate.Base.{
  ℕ, zero, suc, ◌<◌, ◌≡◌, refl, ◌⊎◌, inl, inr, Bool, true, false, List, ◌∷◌, Option, none, some,
  ◌==◌, ==_iff, if◌then◌else◌, Result, ok, err, arith, Bool-cases,
}
use flux_gate.Backend.{Bytes}
use flux_gate.Io.{eintr}
use flux_gate.Net.Sockets.{poll_until, error_answer, after_poll}
use flux_gate.Net.Balance.{Leaves}
use flux_gate.Net.{SocketCalls, IsSocketCalls, PollFits, Deed, connects, finds_error, Host}

-- The connection to an address is there: a connect that is done at once, or no error of the socket.
abbrev pub IsUp : Bytes → ℕ → List Deed → Type 0
IsUp address fd t =
    (rest : List Deed) × ((t ≡ connects fd address false ∷ rest) ⊎ (t ≡ finds_error fd 0 ∷ rest))

module _ {S : Type 0} (k : SocketCalls S) where
  -- poll() has an answer, and the trace is as it was.
  pub record IsPolled (t : List Deed) (r : Option (Result ℕ ℕ) × Host S) : Type 0 where
    pub answer : Result ℕ ℕ
    pub found : r.0 ≡ some answer
    pub same : r.1.trace ≡ t

  module _ (law : IsSocketCalls k) where
    -- With what poll() answers, and what more turns of the loop do.
    answered-IsPolled :
        (fuel : ℕ) (again : Host S → Option (Result ℕ ℕ) × Host S) (h : Host S) (r : Result ℕ ℕ × S)
        → PollFits k h.kernel r
        → k.signals h.kernel < suc fuel
        → ((g : Host S) → k.signals g.kernel < fuel → IsPolled g.trace (again g))
        → IsPolled h.trace (elim r.0 [
          | ok n ↦ (some (ok n), record h { kernel = r.1 })
          | err e ↦
              if e == eintr
              then again (record h { kernel = r.1 })
              else (some (err e), record h { kernel = r.1 })
        ])
    answered-IsPolled fuel again h (ok n, s) fits enough next = record {
      answer = ok n;
      found = refl;
      same = refl;
    }
    answered-IsPolled fuel again h (err e, s) fits enough next = elim (Bool-cases (e == eintr)) [
      | inl interrupted ↦
          let less = fits ((==_iff e eintr).0 interrupted) in
          rw interrupted (next (record h { kernel = s }) (omega (arith, less, enough)))
      | inr bad ↦ rw bad (record { answer = err e; found = refl; same = refl })
    ]

    pub poll_until-IsPolled :
        (fuel fd timeout : ℕ) (h : Host S)
        → k.signals h.kernel < fuel
        → IsPolled h.trace (poll_until k fuel fd timeout h)
    unfolding poll_until
    poll_until-IsPolled zero fd timeout h enough = elim enough [ ]
    poll_until-IsPolled (suc fuel) fd timeout h enough =
        answered-IsPolled fuel (poll_until k fuel fd timeout) h (k.poll fd timeout h.kernel)
          (law.poll_fits h.kernel fd timeout) enough (poll_until-IsPolled fuel fd timeout)

    -- The answer about a connect, from a trace on.
    pub record IsTold (address : Bytes) (fd : ℕ) (t : List Deed) (r : Option Bool × Host S)
        : Type 0 where
      pub answer : Bool
      pub found : r.0 ≡ some answer
      pub steady : Leaves (λ f. 0) t r.1.trace
      pub up : answer ≡ true → IsUp address fd r.1.trace

    error_answer-IsTold :
        (address : Bytes) (fd : ℕ) (h : Host S) (r : Result ℕ ℕ × S)
        → IsTold address fd h.trace (error_answer k fd h r)
    error_answer-IsTold address fd h (ok e, s) = record {
      answer = e == 0;
      found = refl;
      steady = λ f. omega arith;
      up = λ zero_error. let z = (==_iff e 0).0 zero_error in (h.trace, inr (rw z refl));
    }
    error_answer-IsTold address fd h (err e, s) = record {
      answer = false;
      found = refl;
      steady = λ f. omega arith;
      up = λ c. cc;
    }

    pub after_poll-IsTold :
        (address : Bytes) (fd : ℕ) (t : List Deed) (o : Option (Result ℕ ℕ) × Host S)
        → IsPolled t o
        → IsTold address fd t (after_poll k fd o)
    unfolding after_poll
    after_poll-IsTold address fd t (none, h) p = absurd (cc p.found)
    after_poll-IsTold address fd t (some (err e), h) p = record {
      answer = false;
      found = refl;
      steady = λ f. rw p.same (omega arith);
      up = λ c. cc;
    }
    after_poll-IsTold address fd t (some (ok zero), h) p = record {
      answer = false;
      found = refl;
      steady = λ f. rw p.same (omega arith);
      up = λ c. cc;
    }
    after_poll-IsTold address fd t (some (ok (suc n)), h) p =
        subst (λ t'. IsTold address fd t' (error_answer k fd h (k.so_error fd h.kernel))) p.same
          (error_answer-IsTold address fd h (k.so_error fd h.kernel))
