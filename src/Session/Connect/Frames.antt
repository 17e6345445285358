-- ===== src/Session/Connect/Frames.antt =====
-- What the stages of `ProxySession::handleEvent` (src/ProxySession.cpp) after the connect's leave alone.
use flux_gate.Base.{
  ℕ, ◌≡◌, refl, ◌∙◌, inl, inr, true, false, not, ◌&&◌, ◌==◌, ok, err, ◌>>=◌, Bool-cases,
}
use flux_gate.Buffer.{is_empty}
use flux_gate.Io.{Kernel}
use flux_gate.Session.Loops.{IoResult, progress, would_block, closed, error, Transfer}
use flux_gate.Session.State.{Events, Live}
use flux_gate.Session.Stages.{
  Stage, client_transfer, upstream_transfer, after_client_read, after_upstream_read, after_write,
  wants_read, error_stage, client_read, client_write, upstream_read, upstream_write, transfer_stage,
}
use flux_gate.Session.Handler.{
  is_completed, shut_upstream, shut_client, update_half_close, finish_stage,
}
use flux_gate.Session.Loops.Books.{SameBooks, read_into-Same, write_from-Same}

-- The same lease, the same wait for the connect, the same pool and count of failures.
abbrev pub Same : {S : Type 0} → Live S → Live S → Type 0
Same l m =
    (m.session.backend ≡ l.session.backend)
    × (m.session.upstream_connecting ≡ l.session.upstream_connecting)
    × (m.world.pool ≡ l.world.pool)
    × (m.world.metrics.connect_failures ≡ l.world.metrics.connect_failures)

abbrev pub StageSame : {S : Type 0} → Live S → Stage S → Type 0
StageSame l (err r) = Same l r.1
StageSame l (ok m) = Same l m

pub Same-trans : {S : Type 0} (l m n : Live S) → Same l m → Same m n → Same l n
Same-trans l m n a b = (b.0 ∙ a.0, b.1 ∙ a.1, b.2 ∙ a.2, b.3 ∙ a.3)

module _ {S : Type 0} (l : Live S) where
  weaken : (m : Live S) (s : Stage S) → Same l m → StageSame m s → StageSame l s
  weaken m (err r) a b = Same-trans l m r.1 a b
  weaken m (ok n) a b = Same-trans l m n a b

  pub StageSame-bind :
      (s : Stage S) (f : Live S → Stage S)
      → StageSame l s
      → ((m : Live S) → StageSame m (f m))
      → StageSame l (s >>= f)
  StageSame-bind (err r) f h g = h
  StageSame-bind (ok m) f h g = weaken m (f m) h (g m)

  after_client_read-Same :
      (ev : Events) (r : IoResult × Transfer S)
      → SameBooks l.world r.1.world
      → StageSame l (after_client_read ev l r)
  unfolding after_client_read
  after_client_read-Same ev (error, t) h = (refl, refl, h.0, h.1)
  after_client_read-Same ev (progress, t) h = (refl, refl, h.0, h.1)
  after_client_read-Same ev (would_block, t) h = (refl, refl, h.0, h.1)
  after_client_read-Same ev (closed, t) h = (refl, refl, h.0, h.1)

  after_upstream_read-Same :
      (ev : Events) (r : IoResult × Transfer S)
      → SameBooks l.world r.1.world
      → StageSame l (after_upstream_read ev l r)
  unfolding after_upstream_read
  after_upstream_read-Same ev (error, t) h = (refl, refl, h.0, h.1)
  after_upstream_read-Same ev (progress, t) h = (refl, refl, h.0, h.1)
  after_upstream_read-Same ev (would_block, t) h = (refl, refl, h.0, h.1)
  after_upstream_read-Same ev (closed, t) h = (refl, refl, h.0, h.1)

  after_write-Same : (r : IoResult) (m : Live S) → Same l m → StageSame l (after_write r m)
  unfolding after_write
  after_write-Same error m h = h
  after_write-Same closed m h = h
  after_write-Same progress m h = h
  after_write-Same would_block m h = h

module _ {S : Type 0} (k : Kernel S) where
  pub error_stage-Same : (fd : ℕ) (ev : Events) (l : Live S) → StageSame l (error_stage k fd ev l)
  unfolding error_stage
  error_stage-Same fd ev l = elim (Bool-cases ev.failing) [
    | inr fine ↦ rw fine (refl, refl, refl, refl)
    | inl bad ↦ rw bad (refl, refl, refl, refl)
  ]

  client_read-Same : (ev : Events) (l : Live S) → StageSame l (client_read k ev l)
  unfolding client_read
  client_read-Same ev l = elim (Bool-cases (not l.session.client_read_closed && wants_read ev)) [
    | inr idle ↦ rw idle (refl, refl, refl, refl)
    | inl go ↦ rw go (
        after_client_read-Same l ev _
          (read_into-Same k l.session.client_fd true (client_transfer l)))
  ]

  upstream_read-Same : (ev : Events) (l : Live S) → StageSame l (upstream_read k ev l)
  unfolding upstream_read
  upstream_read-Same ev l =
      elim (Bool-cases (not l.session.upstream_read_closed && wants_read ev)) [
        | inr idle ↦ rw idle (refl, refl, refl, refl)
        | inl go ↦ rw go (
            after_upstream_read-Same l ev _
              (read_into-Same k l.session.upstream_fd false (upstream_transfer l)))
      ]

  client_write-Same : (ev : Events) (l : Live S) → StageSame l (client_write k ev l)
  unfolding client_write
  client_write-Same ev l =
      let h = write_from-Same k l.session.client_fd (upstream_transfer l) in
      elim (Bool-cases (ev.writable && not (is_empty l.session.upstream_to_client))) [
        | inr idle ↦ rw idle (refl, refl, refl, refl)
        | inl go ↦ rw go (after_write-Same l _ _ (refl, refl, h.0, h.1))
      ]

  upstream_write-Same : (ev : Events) (l : Live S) → StageSame l (upstream_write k ev l)
  unfolding upstream_write
  upstream_write-Same ev l =
      let h = write_from-Same k l.session.upstream_fd (client_transfer l) in
      elim (Bool-cases (ev.writable && not (is_empty l.session.client_to_upstream))) [
        | inr idle ↦ rw idle (refl, refl, refl, refl)
        | inl go ↦ rw go (after_write-Same l _ _ (refl, refl, h.0, h.1))
      ]

  pub transfer_stage-Same :
      (fd : ℕ) (ev : Events) (l : Live S) → StageSame l (transfer_stage k fd ev l)
  unfolding transfer_stage
  transfer_stage-Same fd ev l = elim (Bool-cases (fd == l.session.client_fd)) [
    | inl client ↦ rw client (
        StageSame-bind l (client_read k ev l) (client_write k ev) (client_read-Same ev l)
          (client_write-Same ev))
    | inr other ↦ rw other (elim (Bool-cases (fd == l.session.upstream_fd)) [
      | inl upstream ↦ rw upstream (
          StageSame-bind l (upstream_read k ev l) (upstream_write k ev) (upstream_read-Same ev l)
            (upstream_write-Same ev))
      | inr unknown ↦ rw unknown (refl, refl, refl, refl)
    ])
  ]

  shut_upstream-Same : (l : Live S) → Same l (shut_upstream k l)
  unfolding shut_upstream
  shut_upstream-Same l =
      elim (Bool-cases (
        l.session.client_read_closed
        && is_empty l.session.client_to_upstream
        && not l.session.upstream_write_shutdown
        && not l.session.upstream_connecting)) [
          | inr idle ↦ rw idle (refl, refl, refl, refl)
          | inl go ↦ rw go (refl, refl, refl, refl)
        ]

  shut_client-Same : (l : Live S) → Same l (shut_client k l)
  unfolding shut_client
  shut_client-Same l =
      elim (Bool-cases (
        l.session.upstream_read_closed
        && is_empty l.session.upstream_to_client
        && not l.session.client_write_shutdown)) [
          | inr idle ↦ rw idle (refl, refl, refl, refl)
          | inl go ↦ rw go (refl, refl, refl, refl)
        ]

  pub finish_stage-Same : (l : Live S) → StageSame l (finish_stage k l)
  unfolding finish_stage update_half_close
  finish_stage-Same l =
      let h =
        Same-trans l (shut_upstream k l) (shut_client k (shut_upstream k l)) (shut_upstream-Same l)
          (shut_client-Same (shut_upstream k l)) in
      elim (Bool-cases (is_completed (update_half_close k l).session)) [
        | inl over ↦ rw over h
        | inr more ↦ rw more h
      ]
