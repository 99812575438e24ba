-- ===== src/Service/Outbox.antt =====
-- internal/service/outbox/outbox.go: the relay from the outbox to the event bus. Metrics and log lines
-- are left out, and with them the age that is only a gauge. The loop of `drain` takes fuel; `false`
-- says that it ran out.
pub mod Drain
pub mod Lossless
pub mod Termination
use delta_works.Base.{
  ℕ, zero, suc, ◌*◌, ◌-◌, ◌^◌, Bool, true, false, if◌then◌else◌, ltb, List, [], ◌∷◌,
}
use delta_works.Errors.{Result, ok, err, wrap, other}
use delta_works.Domain.Order.{Time}
use delta_works.Postgres.Session.{Session, Tx, pure, raise, ◌>>=◌, attempt}
use delta_works.Postgres.OutboxStore.{
  publish_pending, deliver, unpublished_stats, delete_published_before,
}

-- Seven days, in nanoseconds.
abbrev pub retention : ℕ
retention = 7 * 24 * 3600 * 10 ^ 9

module _ {D : Type 0} where
  -- An error of the store ends the service, but not once the context is done.
  abbrev pub unless_canceled : {A B : Type 0} → Bool → B → (A → Tx D B) → Result A → Tx D B
  unless_canceled canceled b next (ok a) = next a
  unless_canceled true b next (err e) = pure b
  unless_canceled false b next (err e) = raise (wrap (other "outbox store") e)

  unfoldable pub observe_backlog : Bool → Tx D Bool
  observe_backlog canceled = do
    r ← attempt unpublished_stats
    unless_canceled canceled true (λ _. pure true) r

  -- The batches of `drain`, until one is smaller than `batch`.
  unfoldable pub drain : ℕ → Bool → ℕ → Tx D Bool
  drain zero canceled batch = pure false
  drain (suc fuel) canceled batch = do
    r ← attempt (publish_pending batch deliver)
    unless_canceled canceled true
        (λ n.
          let rest = drain fuel canceled batch in
          if ltb n batch then observe_backlog canceled else rest)
        r

  unfoldable pub cleanup : Bool → Time → Tx D Bool
  cleanup canceled now = do
    r ← attempt (delete_published_before (now - retention))
    unless_canceled canceled true (λ _. pure true) r

-- What wakes the loop of `Run`: one of its two tickers, or the end of the context. A drain or a cleanup
-- may meet that the context is done.
pub data Wake : Type 0 where
  poll_due : Bool → Wake
  cleanup_due : Bool → Time → Wake
  context_done : Wake

module _ {D : Type 0} where
  abbrev pub unless_stuck : Tx D Bool → Bool → Tx D Bool
  unless_stuck rest true = rest
  unless_stuck rest false = pure false

  -- The loop of `Run`, over what wakes it.
  unfoldable pub loop : ℕ → ℕ → List Wake → Tx D Bool
  loop fuel batch [] = pure true
  loop fuel batch (context_done ∷ wakes) = pure true
  loop fuel batch (poll_due canceled ∷ wakes) =
      drain fuel canceled batch >>= unless_stuck (loop fuel batch wakes)
  loop fuel batch (cleanup_due canceled now ∷ wakes) =
      cleanup canceled now >>= unless_stuck (loop fuel batch wakes)

  -- `Run`; the first drain does not wait for a ticker.
  unfoldable pub run : ℕ → Bool → ℕ → List Wake → Tx D Bool
  run fuel canceled batch wakes = drain fuel canceled batch >>= unless_stuck (loop fuel batch wakes)
