-- ===== src/Session/Loops/Reading.antt =====
-- The loop of `ProxySession::readInto` (src/ProxySession.cpp).
use flux_gate.Base.{
  ℕ, zero, suc, ◌+◌, ◌-◌, ◌≤◌, ◌<◌, ◌≡◌, ◌≢◌, refl, sym, ap, ◌∙◌, inl, inr, Bool, false, List, [],
  ◌∷◌, ◌++◌, append-nil, append_assoc, Option, none, some, length, ◌==◌, ◌||◌, arith, length-append,
  Bool-cases, ==_refl, ==_iff,
}
use flux_gate.Buffer.{writable_bytes, make_writable, fill, has_written}
use flux_gate.Buffer.Content.{
  IsValid, capacity, content, received-IsValid, capacity-received, content-received,
  make_writable-IsValid, capacity-make_writable, content-make_writable, length-content, writable-eq,
}
use flux_gate.Io.{
  eintr, eagain, ewouldblock, RecvReply, received, RecvFits, Kernel, IsKernel, reads, bytes_read,
  bytes_written, shuts_of,
}
use flux_gate.Session.Loops.{
  IoResult, Transfer, Pass, again, done, add_bytes, with_kernel, after_failure, after_recv,
  read_pass, read_loop, fuel_for, read_into, or_error,
}

-- From `t` to `t'`, the bytes `moved` have gone from descriptor `fd` to the buffer, and nothing
-- else has been read or written.
pub record ReadFrom {S : Type 0} (fd : ℕ) (t t' : Transfer S) : Type 0 where
  pub moved : List ℕ
  pub valid : IsValid t'.buffer
  pub sized : capacity t'.buffer ≡ capacity t.buffer
  pub stored : content t'.buffer ≡ content t.buffer ++ moved
  pub taken : bytes_read fd t'.world.trace ≡ bytes_read fd t.world.trace ++ moved
  pub others : (g : ℕ) → g ≢ fd → bytes_read g t'.world.trace ≡ bytes_read g t.world.trace
  pub silent : (g : ℕ) → bytes_written g t'.world.trace ≡ bytes_written g t.world.trace
  pub unshut : (g : ℕ) → shuts_of g t'.world.trace ≡ shuts_of g t.world.trace
  pub same_pool : t'.world.pool ≡ t.world.pool

module _ {S : Type 0} (fd : ℕ) where
  ReadFrom-refl :
      (t t' : Transfer S)
      → IsValid t'.buffer
      → capacity t'.buffer ≡ capacity t.buffer
      → content t'.buffer ≡ content t.buffer
      → t'.world.trace ≡ t.world.trace
      → t'.world.pool ≡ t.world.pool
      → ReadFrom fd t t'
  ReadFrom-refl t t' v c e trace pool = record {
    moved = [];
    valid = v;
    sized = c;
    stored = e ∙ sym (append-nil (content t.buffer));
    taken = ap (bytes_read fd) trace ∙ sym (append-nil (bytes_read fd t.world.trace));
    others = λ g ne. ap (bytes_read g) trace;
    silent = λ g. ap (bytes_written g) trace;
    unshut = λ g. ap (shuts_of g) trace;
    same_pool = pool;
  }

  ReadFrom-trans : (t u w : Transfer S) → ReadFrom fd t u → ReadFrom fd u w → ReadFrom fd t w
  ReadFrom-trans t u w a b = record {
    moved = a.moved ++ b.moved;
    valid = b.valid;
    sized = b.sized ∙ a.sized;
    stored = b.stored ∙ ap (λ l. l ++ b.moved) a.stored ∙ append_assoc _ a.moved b.moved;
    taken = b.taken ∙ ap (λ l. l ++ b.moved) a.taken ∙ append_assoc _ a.moved b.moved;
    others = λ g ne. b.others g ne ∙ a.others g ne;
    silent = λ g. b.silent g ∙ a.silent g;
    unshut = λ g. b.unshut g ∙ a.unshut g;
    same_pool = b.same_pool ∙ a.same_pool;
  }

module _ {S : Type 0} (k : Kernel S) (law : IsKernel k) (fd : ℕ) (side : Bool) where
  -- What may still happen before the loop ends: interruptions, and bytes in the room left.
  abbrev measure : Transfer S → ℕ
  measure t = k.signals t.world.kernel + (capacity t.buffer - length (content t.buffer))

  -- A pass that ends has read; one that goes on has also come nearer to the end.
  abbrev PassReads : Transfer S → Pass S → Type 0
  PassReads t (done r t') = ReadFrom fd t t'
  PassReads t (again p t') = ReadFrom fd t t' × (measure t' < measure t)

  after_failure-PassReads :
      (t u : Transfer S) (p : Bool) (e : ℕ)
      → ReadFrom fd t u
      → (e ≡ eintr → measure u < measure t)
      → PassReads t (after_failure p u e)
  unfolding after_failure
  after_failure-PassReads t u p e r falls = elim (Bool-cases (e == eintr)) [
    | inl yes' ↦ rw yes' (r, falls ((==_iff e eintr).0 yes'))
    | inr no' ↦ elim (Bool-cases (e == eagain || e == ewouldblock)) [
      | inl wait ↦ rw (no', wait) r
      | inr bad ↦ rw (no', bad) r
    ]
  ]

  stay : (t : Transfer S) (s : S) → IsValid t.buffer → ReadFrom fd t (with_kernel t s)
  stay t s v = ReadFrom-refl fd t (with_kernel t s) v refl refl refl refl

  -- One successful `recv`.
  module _ (t : Transfer S) (s : S) (xs : List ℕ) (v : IsValid t.buffer)
      (fits : length xs ≤ writable_bytes t.buffer) where
    abbrev taken_in : Transfer S
    taken_in = record {
      buffer = has_written (fill t.buffer xs) (length xs);
      last_activity = k.now s;
      world = record (t.world) {
        kernel = s;
        metrics = add_bytes side t.world.metrics (length xs);
        trace = reads fd xs ∷ t.world.trace;
      };
    }

    taken_in-ReadFrom : ReadFrom fd t taken_in
    taken_in-ReadFrom = record {
      moved = xs;
      valid = received-IsValid t.buffer v xs fits;
      sized = capacity-received t.buffer v xs fits;
      stored = content-received t.buffer v xs fits;
      taken = rw (==_refl fd);
      others = λ g ne. elim (Bool-cases (fd == g)) [
        | inl same ↦ absurd (ne (sym ((==_iff fd g).0 same)))
        | inr other ↦ rw other
      ];
      silent = λ g. refl;
      unshut = λ g. refl;
      same_pool = refl;
    }

    taken_in-measure :
        k.signals s ≤ k.signals t.world.kernel → 0 < length xs → measure taken_in < measure t
    taken_in-measure h pos = omega (
      arith,
      h,
      pos,
      capacity-received t.buffer v xs fits,
      ap length (content-received t.buffer v xs fits),
      length-append (content t.buffer) xs,
      room,
    )
      where
        room : length (content t.buffer) + length xs ≤ capacity t.buffer
        room =
            omega
              (arith, fits, writable-eq t.buffer v, length-content t.buffer v, v.ordered, v.fits)

  after_recv-PassReads :
      (t : Transfer S) (p : Bool) (reply : RecvReply × S)
      → IsValid t.buffer
      → RecvFits k t.world.kernel (writable_bytes t.buffer) reply
      → PassReads t (after_recv k fd side p t reply)
  unfolding after_recv
  after_recv-PassReads t p (received [], s) v fits = stay t s v
  after_recv-PassReads t p (received (x ∷ xs), s) v fits = (
    taken_in-ReadFrom t s (x ∷ xs) v fits.0,
    taken_in-measure t s (x ∷ xs) v fits.0 fits.1 (omega arith),
  )
  after_recv-PassReads t p (RecvReply.failed e, s) v fits =
      after_failure-PassReads t (with_kernel t s) p e (stay t s v) (λ q. omega (arith, fits.1 q))

  -- `makeWritable` moves no byte.
  compacted :
      (t : Transfer S)
      → IsValid t.buffer
      → ReadFrom fd t (record t { buffer = make_writable t.buffer })
  compacted t v =
      ReadFrom-refl fd t _ (make_writable-IsValid t.buffer v) (capacity-make_writable t.buffer v)
        (content-make_writable t.buffer v) refl refl

  compacted-measure :
      (t : Transfer S)
      → IsValid t.buffer
      → measure (record t { buffer = make_writable t.buffer }) ≡ measure t
  compacted-measure t v =
      omega (arith, capacity-make_writable t.buffer v, ap length (content-make_writable t.buffer v))

  from_compacted :
      (t : Transfer S) (o : Pass S)
      → IsValid t.buffer
      → PassReads (record t { buffer = make_writable t.buffer }) o
      → PassReads t o
  from_compacted t (done r t') v h = ReadFrom-trans fd t _ t' (compacted t v) h
  from_compacted t (again p t') v h =
      (ReadFrom-trans fd t _ t' (compacted t v) h.0, omega (arith, h.1, compacted-measure t v))

  read_pass-PassReads :
      (t : Transfer S) (p : Bool) → IsValid t.buffer → PassReads t (read_pass k fd side p t)
  unfolding read_pass
  read_pass-PassReads t p v = elim (Bool-cases (writable_bytes (make_writable t.buffer) == 0)) [
    | inl full ↦ rw full (compacted t v)
    | inr free ↦ rw free (
        from_compacted t _ v (
          after_recv-PassReads (record t { buffer = make_writable t.buffer }) p _
            (make_writable-IsValid t.buffer v)
            (law.recv_fits t.world.kernel fd (writable_bytes (make_writable t.buffer)))))
  ]

  abbrev pub Reads : Transfer S → Option (IoResult × Transfer S) → Type 0
  Reads t none = ⊥
  Reads t (some r) = ReadFrom fd t r.1

  weaken :
      (t u : Transfer S) (o : Option (IoResult × Transfer S))
      → ReadFrom fd t u
      → Reads u o
      → Reads t o
  weaken t u none a r = r
  weaken t u (some (r, w)) a b = ReadFrom-trans fd t u w a b

  -- After one pass, the rest of the loop.
  after_pass :
      (fuel : ℕ) (t : Transfer S) (o : Pass S)
      → ((u : Transfer S) (q : Bool)
          → IsValid u.buffer
          → measure u < fuel
          → Reads u (read_loop k fd fuel side q u))
      → measure t < suc fuel
      → PassReads t o
      → Reads t (elim o [ again q u ↦ read_loop k fd fuel side q u | done r u ↦ some (r, u) ])
  after_pass fuel t (done r u) rest h a = a
  after_pass fuel t (again q u) rest h a =
      weaken t u _ a.0 (rest u q a.0.valid (omega (arith, a.1)))

  -- With fuel above the measure the loop has a result, and has only read.
  pub read_loop-Reads :
      (fuel : ℕ) (t : Transfer S) (p : Bool)
      → IsValid t.buffer
      → measure t < fuel
      → Reads t (read_loop k fd fuel side p t)
  read_loop-Reads zero t p v h = elim h [ ]
  read_loop-Reads (suc fuel) t p v h =
      unfolded (after_pass fuel t _ (read_loop-Reads fuel) h (read_pass-PassReads t p v))
    where
      unfolded :
          Reads t (elim (read_pass k fd side p t) [
            | again q u ↦ read_loop k fd fuel side q u
            | done r u ↦ some (r, u)
          ])
          → Reads t (read_loop k fd (suc fuel) side p t)
      unfolded h = unfold read_loop in h

  some_result :
      (t : Transfer S) (o : Option (IoResult × Transfer S))
      → Reads t o
      → (o ≡ some (or_error t o)) × ReadFrom fd t (or_error t o).1
  some_result t none h = absurd h
  some_result t (some r) h = (refl, h)

  -- On a lawful kernel and from a valid buffer, `readInto` comes back: the loop ends within its
  -- fuel, and the bytes that it has taken from the descriptor, and no others, stand at the end of
  -- the buffer.
  pub read_into-ReadFrom :
      (t : Transfer S)
      → IsValid t.buffer
      → (read_loop k fd (fuel_for k t) side false t ≡ some (read_into k fd side t))
        × ReadFrom fd t (read_into k fd side t).1
  unfolding read_into
  read_into-ReadFrom t v = some_result t _ (read_loop-Reads (fuel_for k t) t false v (omega arith))
