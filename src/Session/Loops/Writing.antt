-- ===== src/Session/Loops/Writing.antt =====
-- The loop of `ProxySession::writeFrom` (src/ProxySession.cpp).
use flux_gate.Base.{
  ℕ, zero, suc, ◌+◌, ◌≤◌, ◌<◌, ◌≡◌, ◌≢◌, refl, sym, ap, ◌∙◌, inl, inr, Bool, false, List, [], ◌∷◌,
  ◌++◌, append-nil, append_assoc, Option, none, some, length, take, ◌==◌, ◌||◌, arith, length-drop,
  take-append-drop, Bool-cases, ==_refl, ==_iff,
}
use flux_gate.Buffer.{readable_bytes, is_empty, read_data, consume}
use flux_gate.Buffer.Content.{
  IsValid, capacity, content, consume-IsValid, capacity-consume, content-consume, length-content,
  read_data-content, length-read_data, readable-length,
}
use flux_gate.Io.{
  eintr, eagain, ewouldblock, SendReply, sent, SendFits, Kernel, IsKernel, writes, bytes_read,
  bytes_written, shuts_of,
}
use flux_gate.Session.Loops.{
  IoResult, Transfer, Pass, again, done, with_kernel, after_failure, after_send, write_pass,
  write_loop, fuel_for, write_from, or_error,
}

-- From `t` to `t'`, the bytes `moved` have gone from the front of the buffer to descriptor `fd`,
-- and nothing else has been read or written.
pub record WroteTo {S : Type 0} (fd : ℕ) (t t' : Transfer S) : Type 0 where
  pub moved : List ℕ
  pub valid : IsValid t'.buffer
  pub sized : capacity t'.buffer ≡ capacity t.buffer
  pub kept : content t.buffer ≡ moved ++ content t'.buffer
  pub given : bytes_written fd t'.world.trace ≡ bytes_written fd t.world.trace ++ moved
  pub others : (g : ℕ) → g ≢ fd → bytes_written g t'.world.trace ≡ bytes_written g t.world.trace
  pub silent : (g : ℕ) → bytes_read g t'.world.trace ≡ bytes_read g t.world.trace
  pub unshut : (g : ℕ) → shuts_of g t'.world.trace ≡ shuts_of g t.world.trace
  pub same_pool : t'.world.pool ≡ t.world.pool
  pub same_metrics : t'.world.metrics ≡ t.world.metrics

module _ {S : Type 0} (fd : ℕ) where
  WroteTo-refl : (t : Transfer S) (s : S) → IsValid t.buffer → WroteTo fd t (with_kernel t s)
  WroteTo-refl t s v = record {
    moved = [];
    valid = v;
    sized = refl;
    kept = refl;
    given = sym (append-nil (bytes_written fd t.world.trace));
    others = λ g ne. refl;
    silent = λ g. refl;
    unshut = λ g. refl;
    same_pool = refl;
    same_metrics = refl;
  }

  WroteTo-trans : (t u w : Transfer S) → WroteTo fd t u → WroteTo fd u w → WroteTo fd t w
  WroteTo-trans t u w a b = record {
    moved = a.moved ++ b.moved;
    valid = b.valid;
    sized = b.sized ∙ a.sized;
    kept = a.kept ∙ ap (◌++◌ a.moved) b.kept ∙ sym (append_assoc a.moved b.moved _);
    given = b.given ∙ ap (λ l. l ++ b.moved) a.given ∙ append_assoc _ a.moved b.moved;
    others = λ g ne. b.others g ne ∙ a.others g ne;
    silent = λ g. b.silent g ∙ a.silent g;
    unshut = λ g. b.unshut g ∙ a.unshut g;
    same_pool = b.same_pool ∙ a.same_pool;
    same_metrics = b.same_metrics ∙ a.same_metrics;
  }

module _ {S : Type 0} (k : Kernel S) (law : IsKernel k) (fd : ℕ) where
  -- What may still happen before the loop ends: interruptions, and bytes left to send.
  abbrev measure : Transfer S → ℕ
  measure t = k.signals t.world.kernel + length (content t.buffer)

  abbrev PassWrites : Transfer S → Pass S → Type 0
  PassWrites t (done r t') = WroteTo fd t t'
  PassWrites t (again p t') = WroteTo fd t t' × (measure t' < measure t)

  after_failure-PassWrites :
      (t u : Transfer S) (p : Bool) (e : ℕ)
      → WroteTo fd t u
      → (e ≡ eintr → measure u < measure t)
      → PassWrites t (after_failure p u e)
  unfolding after_failure
  after_failure-PassWrites t u p e r falls = elim (Bool-cases (e == eintr)) [
    | inl hit ↦ rw hit (r, falls ((==_iff e eintr).0 hit))
    | inr miss ↦ elim (Bool-cases (e == eagain || e == ewouldblock)) [
      | inl wait ↦ rw (miss, wait) r
      | inr bad ↦ rw (miss, bad) r
    ]
  ]

  -- One `send` that takes `n` bytes.
  module _ (t : Transfer S) (s : S) (n : ℕ) (v : IsValid t.buffer)
      (fits : n ≤ readable_bytes t.buffer) where
    abbrev sent_out : Transfer S
    sent_out = record {
      buffer = consume t.buffer n;
      last_activity = k.now s;
      world = record (t.world) {
        kernel = s;
        trace = writes fd (take n (read_data t.buffer)) ∷ t.world.trace;
      };
    }

    sent_out-WroteTo : WroteTo fd t sent_out
    sent_out-WroteTo = record {
      moved = take n (read_data t.buffer);
      valid = consume-IsValid t.buffer v n fits;
      sized = capacity-consume t.buffer v n fits;
      kept =
          rw (read_data-content t.buffer v, content-consume t.buffer v n fits)
            (sym (take-append-drop n (content t.buffer)));
      given = rw (==_refl fd);
      others = λ g ne. elim (Bool-cases (fd == g)) [
        | inl same ↦ absurd (ne (sym ((==_iff fd g).0 same)))
        | inr other ↦ rw other
      ];
      silent = λ g. refl;
      unshut = λ g. refl;
      same_pool = refl;
      same_metrics = refl;
    }

    sent_out-measure : k.signals s ≤ k.signals t.world.kernel → 0 < n → measure sent_out < measure t
    sent_out-measure h pos = omega (
      arith,
      h,
      pos,
      fits,
      readable-length t.buffer v,
      ap length (content-consume t.buffer v n fits),
      length-drop n (content t.buffer),
    )

  after_send-PassWrites :
      (t : Transfer S) (p : Bool) (reply : SendReply × S)
      → IsValid t.buffer
      → SendFits k t.world.kernel (read_data t.buffer) reply
      → PassWrites t (after_send k fd p t reply)
  unfolding after_send
  after_send-PassWrites t p (sent zero, s) v fits = WroteTo-refl fd t s v
  after_send-PassWrites t p (sent (suc n), s) v fits =
      let room : suc n ≤ readable_bytes t.buffer =
        omega (arith, fits.0, length-read_data t.buffer v) in
      (
        sent_out-WroteTo t s (suc n) v room,
        sent_out-measure t s (suc n) v room fits.1 (omega arith),
      )
  after_send-PassWrites t p (SendReply.failed e, s) v fits =
      after_failure-PassWrites t (with_kernel t s) p e (WroteTo-refl fd t s v)
        (λ q. omega (arith, fits.1 q))

  write_pass-PassWrites :
      (t : Transfer S) (p : Bool) → IsValid t.buffer → PassWrites t (write_pass k fd p t)
  unfolding write_pass
  write_pass-PassWrites t p v = elim (Bool-cases (is_empty t.buffer)) [
    | inl empty ↦ rw empty (WroteTo-refl fd t t.world.kernel v)
    | inr more ↦
        rw more
          (after_send-PassWrites t p _ v (law.send_fits t.world.kernel fd (read_data t.buffer)))
  ]

  abbrev pub Writes : Transfer S → Option (IoResult × Transfer S) → Type 0
  Writes t none = ⊥
  Writes t (some r) = WroteTo fd t r.1

  after_pass :
      (fuel : ℕ) (t : Transfer S) (o : Pass S)
      → ((u : Transfer S) (q : Bool)
          → IsValid u.buffer
          → measure u < fuel
          → Writes u (write_loop k fd fuel q u))
      → measure t < suc fuel
      → PassWrites t o
      → Writes t (elim o [ again q u ↦ write_loop k fd fuel q u | done r u ↦ some (r, u) ])
  after_pass fuel t (done r u) rest h a = a
  after_pass fuel t (again q u) rest h a =
      weaken (write_loop k fd fuel q u) (rest u q a.0.valid (omega (arith, a.1)))
    where
      weaken : (o : Option (IoResult × Transfer S)) → Writes u o → Writes t o
      weaken none b = b
      weaken (some (r, w)) b = WroteTo-trans fd t u w a.0 b

  -- With fuel above the measure the loop has a result, and has only written.
  pub write_loop-Writes :
      (fuel : ℕ) (t : Transfer S) (p : Bool)
      → IsValid t.buffer
      → measure t < fuel
      → Writes t (write_loop k fd fuel p t)
  write_loop-Writes zero t p v h = elim h [ ]
  write_loop-Writes (suc fuel) t p v h =
      unfolded (after_pass fuel t _ (write_loop-Writes fuel) h (write_pass-PassWrites t p v))
    where
      unfolded :
          Writes t (elim (write_pass k fd p t) [
            | again q u ↦ write_loop k fd fuel q u
            | done r u ↦ some (r, u)
          ])
          → Writes t (write_loop k fd (suc fuel) p t)
      unfolded h = unfold write_loop in h

  some_result :
      (t : Transfer S) (o : Option (IoResult × Transfer S))
      → Writes t o
      → (o ≡ some (or_error t o)) × WroteTo fd t (or_error t o).1
  some_result t none h = absurd h
  some_result t (some r) h = (refl, h)

  -- On a lawful kernel and from a valid buffer, `writeFrom` comes back: the loop ends within its
  -- fuel, and what it has sent are the first bytes of the buffer, which holds the others still.
  pub write_from-WroteTo :
      (t : Transfer S)
      → IsValid t.buffer
      → (write_loop k fd (fuel_for k t) false t ≡ some (write_from k fd t))
        × WroteTo fd t (write_from k fd t).1
  unfolding write_from
  write_from-WroteTo t v = some_result t _ (
      write_loop-Writes (fuel_for k t) t false v
        (omega (arith, length-content t.buffer v, v.ordered, v.fits)))
