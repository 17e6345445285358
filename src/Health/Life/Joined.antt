-- ===== src/Health/Life/Joined.antt =====
-- The end of the thread of src/HealthChecker.cpp, which `join` waits for.
use mathlib.Core.Option
use mathlib.Core.List.{map}
use flux_gate.Base.{
  ℕ, suc, ◌+◌, ◌-◌, ◌≤◌, ◌≡◌, ◌⊎◌, refl, ◌∙◌, inl, inr, Bool, true, false, List, [], ◌∷◌, length,
  ltb, arith, Bool-cases, ltb→lt,
}
use flux_gate.Health.{Thresholds, probe}
use flux_gate.Health.Rounds.{view}
use flux_gate.Health.Life.{
  Thread, no_thread, probing, looping, ended, Checker, stop, join, join_thread, pass_thread, pass,
  Step, passes, step, run_steps,
}
use flux_gate.Health.Life.Stopped.{NoStart, due, length-probe_at, stop-AtMostOnce}

-- The thread's steps to its end, among `n` backends.
abbrev steps_left : ℕ → Thread → ℕ
steps_left n no_thread = 0
steps_left n (probing i) = suc (suc (n - i))
steps_left n looping = 1
steps_left n ended = 0

steps_left-bound : (n : ℕ) (th : Thread) → steps_left n th ≤ n + 2
steps_left-bound n no_thread = omega arith
steps_left-bound n (probing i) = omega arith
steps_left-bound n looping = omega arith
steps_left-bound n ended = omega arith

join-none :
    (n : ℕ) (th : Thread) (c : Checker)
    → c.thread ≡ th
    → steps_left n th ≡ 0
    → (join_thread th c).thread ≡ no_thread
unfolding join_thread
join-none n no_thread c e z = e
join-none n (probing i) c e z = absurd (omega (arith, z))
join-none n looping c e z = absurd (omega (arith, z))
join-none n ended c e z = refl

module _ (t : Thresholds) (n : ℕ) where
  record IsNearer (m : ℕ) (c : Checker) : Type 0 where
    off : c.running ≡ false
    size : length c.health.0 ≡ n
    left : steps_left n c.thread ≤ m

  pass_thread-IsNearer :
      (m : ℕ) (a : Bool) (th : Thread) (c : Checker)
      → c.thread ≡ th
      → IsNearer (suc m) c
      → IsNearer m (pass_thread t a th c)
  unfolding pass_thread
  pass_thread-IsNearer m a no_thread c e q = record {
    off = q.off;
    size = q.size;
    left = rw e (omega arith);
  }
  pass_thread-IsNearer m a (probing i) c e q =
      let near : suc (suc (n - i)) ≤ suc m = rw e at q.left in
      elim (Bool-cases (ltb i (length c.health.0))) [
        | inl more ↦
            let lt = ltb→lt i (length c.health.0) more in
            rw more (record {
              off = q.off;
              size = length-probe_at t i a c.health ∙ q.size;
              left = omega (arith, near, lt, q.size);
            })
        | inr last ↦ rw last (record { off = q.off; size = q.size; left = omega (arith, near) })
      ]
  pass_thread-IsNearer m a looping c e q =
      rw (q.off) (record { off = refl; size = q.size; left = omega arith })
  pass_thread-IsNearer m a ended c e q = record {
    off = q.off;
    size = q.size;
    left = rw e (omega arith);
  }

  all_passes-ended :
      (answers : List Bool) (c : Checker)
      → IsNearer (length answers) c
      → (join (run_steps t (map passes answers) c)).thread ≡ no_thread
  unfolding run_steps step pass join
  all_passes-ended [] c q = join-none n c.thread c refl (omega (arith, q.left))
  all_passes-ended (a ∷ more) c q =
      all_passes-ended more (pass t a c) (pass_thread-IsNearer (length more) a c.thread c refl q)

-- Once `stop` is called, at any moment of the thread and also within a round, and `start` is not
-- called again: whatever calls of `stop` and `join` and steps of the thread follow, a backend's
-- counters and health are as they were, or the round under way had not reached it and they are
-- what one probe makes of them; and after as many more steps of the thread as there are backends,
-- and two, `join` returns with no thread left.
pub stop-steady :
    (t : Thresholds) (ss : List Step) (c : Checker) (j : ℕ) (answers : List Bool)
    → NoStart ss
    → length c.health.0 + 2 ≤ length answers
    → ((view (run_steps t ss (stop c)).health j ≡ view c.health j)
        ⊎ ((due c.thread j ≡ true)
            × ((a : Bool) × (view (run_steps t ss (stop c)).health j
                  ≡ Option.map (probe t a) (view c.health j)))))
      × ((join (run_steps t (map passes answers) (run_steps t ss (stop c)))).thread ≡ no_thread)
stop-steady t ss c j answers n enough =
    let (once, size, off) = stop-AtMostOnce t ss c j n in
    let later = run_steps t ss (stop c) in
    (
      elim once [ inl (same, d) ↦ inl same | inr (was, d, o) ↦ inr (was, o) ],
      all_passes-ended t (length c.health.0) answers later (record {
        off = off;
        size = size;
        left = omega (arith, enough, steps_left-bound (length c.health.0) later.thread);
      }),
    )
