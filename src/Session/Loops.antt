-- ===== src/Session/Loops.antt =====
-- `ProxySession::readInto` and `ProxySession::writeFrom` (src/ProxySession.cpp): the loops that
-- fill and drain a buffer. A pass of a loop goes on or ends; the fuel of the loops is the number of
-- interruptions that may come, plus the bytes that can move, plus one.
pub mod Reading
pub mod Books
pub mod Writing
use flux_gate.Base.{
  ℕ, zero, suc, ◌+◌, Bool, true, false, ◌||◌, List, [], ◌∷◌, Option, none, some, length, take, ◌==◌,
  if◌then◌else◌,
}
use flux_gate.Buffer.{
  ByteBuffer, writable_bytes, readable_bytes, is_empty, read_data, fill, has_written, consume,
  make_writable,
}
use flux_gate.Metrics.{Metrics, add_client_to_backend, add_backend_to_client}
use flux_gate.Io.{
  eintr, eagain, ewouldblock, RecvReply, received, SendReply, sent, Kernel, World, reads, writes,
}

pub data IoResult : Type 0 where
  progress would_block closed error : IoResult

-- What a transfer works on: a buffer, the session's last activity, and the world.
pub record Transfer (S : Type 0) : Type 0 where
  pub buffer : ByteBuffer
  pub last_activity : ℕ
  pub world : World S

-- A pass of a loop: `continue` with `progressed`, or `return`.
pub data Pass (S : Type 0) : Type 0 where
  again : Bool → Transfer S → Pass S
  done : IoResult → Transfer S → Pass S

abbrev pub stalled : Bool → IoResult
stalled progressed = if progressed then progress else would_block

-- The metric of the direction.
abbrev pub add_bytes : Bool → Metrics → ℕ → Metrics
add_bytes true m n = add_client_to_backend m n
add_bytes false m n = add_backend_to_client m n

-- The end of a pass that failed with `errno`.
after_failure : {S : Type 0} → Bool → Transfer S → ℕ → Pass S
after_failure progressed t e =
    if e == eintr
    then again progressed t
    else if e == eagain || e == ewouldblock
    then done (stalled progressed) t
    else done error t

abbrev with_kernel : {S : Type 0} → Transfer S → S → Transfer S
with_kernel t s = record t { world = record (t.world) { kernel = s } }

module _ {S : Type 0} (k : Kernel S) (fd : ℕ) where
  pub after_recv : Bool → Bool → Transfer S → RecvReply × S → Pass S
  unfolding after_failure
  after_recv client_side progressed t (received [], s) = done closed (with_kernel t s)
  after_recv client_side progressed t (received (x ∷ xs), s) = again true (record {
    buffer = has_written (fill t.buffer (x ∷ xs)) (length (x ∷ xs));
    last_activity = k.now s;
    world = record (t.world) {
      kernel = s;
      metrics = add_bytes client_side t.world.metrics (length (x ∷ xs));
      trace = reads fd (x ∷ xs) ∷ t.world.trace;
    };
  })
  after_recv client_side progressed t (RecvReply.failed e, s) =
      after_failure progressed (with_kernel t s) e

  unfoldable pub read_pass : Bool → Bool → Transfer S → Pass S
  unfolding after_recv
  read_pass client_side progressed t =
      let b = make_writable t.buffer in
      if writable_bytes b == 0
      then done (stalled progressed) (record t { buffer = b })
      else after_recv client_side progressed (record t { buffer = b })
          (k.recv t.world.kernel fd (writable_bytes b))

  unfoldable pub read_loop : ℕ → Bool → Bool → Transfer S → Option (IoResult × Transfer S)
  read_loop zero client_side progressed t = none
  read_loop (suc fuel) client_side progressed t = elim (read_pass client_side progressed t) [
    | again p t' ↦ read_loop fuel client_side p t'
    | done r t' ↦ some (r, t')
  ]

  pub after_send : Bool → Transfer S → SendReply × S → Pass S
  unfolding after_failure
  after_send progressed t (sent zero, s) = done closed (with_kernel t s)
  after_send progressed t (sent (suc n), s) = again true (record {
    buffer = consume t.buffer (suc n);
    last_activity = k.now s;
    world = record (t.world) {
      kernel = s;
      trace = writes fd (take (suc n) (read_data t.buffer)) ∷ t.world.trace;
    };
  })
  after_send progressed t (SendReply.failed e, s) = after_failure progressed (with_kernel t s) e

  unfoldable pub write_pass : Bool → Transfer S → Pass S
  unfolding after_send
  write_pass progressed t =
      if is_empty t.buffer
      then done progress t
      else after_send progressed t (k.send t.world.kernel fd (read_data t.buffer))

  unfoldable pub write_loop : ℕ → Bool → Transfer S → Option (IoResult × Transfer S)
  write_loop zero progressed t = none
  write_loop (suc fuel) progressed t = elim (write_pass progressed t) [
    | again p t' ↦ write_loop fuel p t'
    | done r t' ↦ some (r, t')
  ]

abbrev pub fuel_for : {S : Type 0} → Kernel S → Transfer S → ℕ
fuel_for k t = suc (k.signals t.world.kernel + length t.buffer.storage)

-- The loops have a result with that fuel (`Session.Loops.Reading`, `.Writing`), so the default is never taken.
abbrev pub or_error :
    {S : Type 0} → Transfer S → Option (IoResult × Transfer S) → IoResult × Transfer S
or_error t none = (error, t)
or_error t (some r) = r

unfoldable pub read_into : {S : Type 0} → Kernel S → ℕ → Bool → Transfer S → IoResult × Transfer S
read_into k fd client_side t = or_error t (read_loop k fd (fuel_for k t) client_side false t)

unfoldable pub write_from : {S : Type 0} → Kernel S → ℕ → Transfer S → IoResult × Transfer S
write_from k fd t = or_error t (write_loop k fd (fuel_for k t) false t)
