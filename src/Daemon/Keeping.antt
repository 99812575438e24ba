-- ===== src/Daemon/Keeping.antt =====
-- internal/app and internal/service: what every transaction of the stores keeps, an interleaving
-- of them keeps.
use delta_works.Base.{refl, List, [], ◌∷◌}
use delta_works.Decimal.{Decimals}
use delta_works.Postgres.Session.{Session}
use delta_works.Service.Stores.{OrdersKeep, OutboxKeeps}
use delta_works.Daemon.{
  Transaction, creating, marking, applying, publishing, deleting, waiting, transact, interleave,
}

module _ {D : Type 0} ⦃dec : Decimals D⦄ (P : Session D → Type 0) (k : OrdersKeep P)
    (x : OutboxKeeps P) where
  kept_by_transact : (t : Transaction D) (w : Session D) → P w → P (transact t w)
  kept_by_transact (creating req) w s = (k.created req).at w s
  kept_by_transact (marking id at) w s = (k.marked id at).at w s
  kept_by_transact (applying source ev) w s = (k.applied source ev).at w s
  kept_by_transact (publishing limit) w s = (x.published limit).at w s
  kept_by_transact (deleting cutoff) w s = (x.deleted cutoff).at w s
  kept_by_transact (waiting now faults) w s = k.same w _ refl s

  pub kept_by_interleave : (ts : List (Transaction D)) (w : Session D) → P w → P (interleave ts w)
  unfolding interleave
  kept_by_interleave [] w s = s
  kept_by_interleave (t ∷ ts) w s = kept_by_interleave ts (transact t w) (kept_by_transact t w s)
