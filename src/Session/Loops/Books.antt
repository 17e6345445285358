-- ===== src/Session/Loops/Books.antt =====
-- What the transfers of a session (src/ProxySession.cpp) leave alone: the pool and the count of failed
-- connects.
use flux_gate.Base.{
  ℕ, zero, suc, ◌≡◌, refl, ◌∙◌, inl, inr, Bool, true, false, ◌||◌, [], ◌∷◌, Option, none, some,
  ◌==◌, Bool-cases,
}
use flux_gate.Buffer.{is_empty, make_writable, writable_bytes, read_data}
use flux_gate.Metrics.{Metrics, add_client_to_backend, add_backend_to_client}
use flux_gate.Io.{eintr, eagain, ewouldblock, RecvReply, received, SendReply, sent, Kernel, World}
use flux_gate.Session.Loops.{
  IoResult, Transfer, Pass, again, done, add_bytes, after_failure, after_recv, read_pass, read_loop,
  after_send, write_pass, write_loop, fuel_for, read_into, write_from, or_error,
}

-- The same pool and the same count.
abbrev pub SameBooks : {S : Type 0} → World S → World S → Type 0
SameBooks w v = (v.pool ≡ w.pool) × (v.metrics.connect_failures ≡ w.metrics.connect_failures)

then_same : {S : Type 0} (u v w : World S) → SameBooks u v → SameBooks v w → SameBooks u w
then_same u v w a b = (b.0 ∙ a.0, b.1 ∙ a.1)

add_bytes-failures :
    (side : Bool) (m : Metrics) (n : ℕ) → (add_bytes side m n).connect_failures ≡ m.connect_failures
unfolding add_client_to_backend add_backend_to_client
add_bytes-failures true m n = refl
add_bytes-failures false m n = refl

module _ {S : Type 0} (k : Kernel S) (fd : ℕ) where
  abbrev PassSame : Transfer S → Pass S → Type 0
  PassSame t (again p u) = SameBooks t.world u.world
  PassSame t (done r u) = SameBooks t.world u.world

  abbrev LoopSame : Transfer S → Option (IoResult × Transfer S) → Type 0
  LoopSame t none = Unit {0}
  LoopSame t (some r) = SameBooks t.world r.1.world

  after_failure-Same :
      (p : Bool) (t u : Transfer S) (e : ℕ)
      → SameBooks t.world u.world
      → PassSame t (after_failure p u e)
  unfolding after_failure
  after_failure-Same p t u e h = elim (Bool-cases (e == eintr)) [
    | inl hit ↦ rw hit h
    | inr miss ↦ elim (Bool-cases (e == eagain || e == ewouldblock)) [
      | inl wait ↦ rw (miss, wait) h
      | inr bad ↦ rw (miss, bad) h
    ]
  ]

  after_recv-Same :
      (side p : Bool) (t : Transfer S) (reply : RecvReply × S)
      → PassSame t (after_recv k fd side p t reply)
  unfolding after_recv
  after_recv-Same side p t (received [], s) = (refl, refl)
  after_recv-Same side p t (received (x ∷ xs), s) = (refl, add_bytes-failures side _ _)
  after_recv-Same side p t (RecvReply.failed e, s) = after_failure-Same p t _ e (refl, refl)

  read_pass-Same : (side p : Bool) (t : Transfer S) → PassSame t (read_pass k fd side p t)
  unfolding read_pass
  read_pass-Same side p t = elim (Bool-cases (writable_bytes (make_writable t.buffer) == 0)) [
    | inl full ↦ rw full (refl, refl)
    | inr room ↦
        let b = make_writable t.buffer in
        let reply = k.recv t.world.kernel fd (writable_bytes b) in
        rw room (
          shifted (after_recv k fd side p (record t { buffer = b }) reply)
            (after_recv-Same side p (record t { buffer = b }) reply))
  ]
    where
      shifted :
          (o : Pass S) → PassSame (record t { buffer = make_writable t.buffer }) o → PassSame t o
      shifted (again q u) h = h
      shifted (done r u) h = h

  weaken :
      (t u : Transfer S) (o : Option (IoResult × Transfer S))
      → SameBooks t.world u.world
      → LoopSame u o
      → LoopSame t o
  weaken t u none a b = tt
  weaken t u (some r) a b = then_same t.world u.world r.1.world a b

  after_read :
      (fuel : ℕ) (side : Bool) (t : Transfer S) (o : Pass S)
      → ((q : Bool) (u : Transfer S) → LoopSame u (read_loop k fd fuel side q u))
      → PassSame t o
      → LoopSame t (elim o [ again q u ↦ read_loop k fd fuel side q u | done r u ↦ some (r, u) ])
  after_read fuel side t (again q u) rest h = weaken t u _ h (rest q u)
  after_read fuel side t (done r u) rest h = h

  read_loop-Same :
      (fuel : ℕ) (side p : Bool) (t : Transfer S) → LoopSame t (read_loop k fd fuel side p t)
  read_loop-Same zero side p t = unfold read_loop in tt
  read_loop-Same (suc fuel) side p t = unfolded (
      after_read fuel side t (read_pass k fd side p t) (λ q u. read_loop-Same fuel side q u)
        (read_pass-Same side p t))
    where
      unfolded :
          LoopSame t (elim (read_pass k fd side p t) [
            | again q u ↦ read_loop k fd fuel side q u
            | done r u ↦ some (r, u)
          ])
          → LoopSame t (read_loop k fd (suc fuel) side p t)
      unfolded h = unfold read_loop in h

  after_send-Same :
      (p : Bool) (t : Transfer S) (reply : SendReply × S) → PassSame t (after_send k fd p t reply)
  unfolding after_send
  after_send-Same p t (sent zero, s) = (refl, refl)
  after_send-Same p t (sent (suc n), s) = (refl, refl)
  after_send-Same p t (SendReply.failed e, s) = after_failure-Same p t _ e (refl, refl)

  write_pass-Same : (p : Bool) (t : Transfer S) → PassSame t (write_pass k fd p t)
  unfolding write_pass
  write_pass-Same p t = elim (Bool-cases (is_empty t.buffer)) [
    | inl none_left ↦ rw none_left (refl, refl)
    | inr some_left ↦
        rw some_left (after_send-Same p t (k.send t.world.kernel fd (read_data t.buffer)))
  ]

  after_write_pass :
      (fuel : ℕ) (t : Transfer S) (o : Pass S)
      → ((q : Bool) (u : Transfer S) → LoopSame u (write_loop k fd fuel q u))
      → PassSame t o
      → LoopSame t (elim o [ again q u ↦ write_loop k fd fuel q u | done r u ↦ some (r, u) ])
  after_write_pass fuel t (again q u) rest h = weaken t u _ h (rest q u)
  after_write_pass fuel t (done r u) rest h = h

  write_loop-Same : (fuel : ℕ) (p : Bool) (t : Transfer S) → LoopSame t (write_loop k fd fuel p t)
  write_loop-Same zero p t = unfold write_loop in tt
  write_loop-Same (suc fuel) p t = unfolded (
      after_write_pass fuel t (write_pass k fd p t) (λ q u. write_loop-Same fuel q u)
        (write_pass-Same p t))
    where
      unfolded :
          LoopSame t (elim (write_pass k fd p t) [
            | again q u ↦ write_loop k fd fuel q u
            | done r u ↦ some (r, u)
          ])
          → LoopSame t (write_loop k fd (suc fuel) p t)
      unfolded h = unfold write_loop in h

  or_error-Same :
      (t : Transfer S) (o : Option (IoResult × Transfer S))
      → LoopSame t o
      → SameBooks t.world (or_error t o).1.world
  or_error-Same t none h = (refl, refl)
  or_error-Same t (some r) h = h

  pub read_into-Same :
      (side : Bool) (t : Transfer S) → SameBooks t.world (read_into k fd side t).1.world
  unfolding read_into
  read_into-Same side t = or_error-Same t _ (read_loop-Same (fuel_for k t) side false t)

  pub write_from-Same : (t : Transfer S) → SameBooks t.world (write_from k fd t).1.world
  unfolding write_from
  write_from-Same t = or_error-Same t _ (write_loop-Same (fuel_for k t) false t)
