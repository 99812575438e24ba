-- ===== src/Examples/Relay.antt =====
-- The theorems on the relay, at two waiting messages; the session begins with nothing delivered.
use delta_works.Base.{◌≡◌, refl, inl, false, [], ◌∷◌, ◌<◌, keep, arith, List, any, true}
use delta_works.Errors.{ok}
use delta_works.Decimal.Integers.{ℤ, integers}
use delta_works.Postgres.Session.{Session, fine, reply_lost}
use delta_works.Postgres.OutboxStore.{publish_pending, deliver}
use delta_works.Postgres.OutboxStore.Delivery.{Batch, publish_pending-Batch, IsDelivered}
use delta_works.Service.Outbox.{drain, Wake, poll_due, cleanup_due, context_done, run}
use delta_works.Service.Outbox.Lossless.{IsKept, waits_as, run_loses_nothing}
use delta_works.Service.Outbox.Drain.{drain-IsDelivered}
use delta_works.Service.Outbox.Termination.{waiting, drain_ends}
use delta_works.Examples.{session}

abbrev crashing : Session ℤ
crashing = session (fine ∷ fine ∷ fine ∷ reply_lost ∷ [])

none_published : IsDelivered crashing
none_published = (inl refl, (inl refl, tt))

publish_pending-Batch_example : Batch 2 crashing (publish_pending 2 deliver crashing).1
publish_pending-Batch_example = publish_pending-Batch 2 crashing

drain-IsDelivered_example : IsDelivered (drain 3 false 1 crashing).1
drain-IsDelivered_example = drain-IsDelivered 3 false 1 crashing none_published

two_wait : waiting crashing.db < 3
unfolding keep
two_wait = omega arith

drain_ends_example : ¬ ((drain 3 false 1 crashing).0 ≡ ok false)
drain_ends_example = drain_ends 3 false 1 crashing refl two_wait

-- A poll that loses the reply of its commit, a cleanup, and another poll.
abbrev turns : List Wake
turns = poll_due false ∷ cleanup_due false 700000000000000 ∷ poll_due false ∷ context_done ∷ []

row_waits : any (waits_as 2) crashing.db.outbox ≡ true
unfolding any
row_waits = refl

run_loses_nothing_example : IsKept 2 (run 3 false 2 turns crashing).1
run_loses_nothing_example = run_loses_nothing 2 3 false 2 turns crashing row_waits
