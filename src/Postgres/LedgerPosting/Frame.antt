-- ===== src/Postgres/LedgerPosting/Frame.antt =====
-- internal/adapters/postgres/ledger.go: which tables posting to the ledger leaves alone.
use delta_works.Base.{refl, List, [], ◌∷◌, String, ℕ, arith}
use delta_works.Decimal.{Decimals}
use delta_works.Domain.Order.{Event, Time, Side, buy, sell}
use delta_works.Domain.Ledger.{Closure}
use delta_works.Postgres.Schema.{
  Db, OrderRow, TransitionRow, FillRow, LotRow, Payload, LotClosureRow, UnmatchedSellRow,
}
use delta_works.Postgres.Session.Laws.{Preserves, preserves_rules}
use delta_works.Postgres.Queries.{insert_outbox}
use delta_works.Postgres.LedgerQueries.{
  lock_inventory, list_open_lots, insert_lot, insert_lot_closure, decrement_lot,
  insert_unmatched_sell,
}
use delta_works.Postgres.LedgerPosting.{
  fresh_id, open_lot_for, record_closure, record_closures, record_unmatched, close_lots,
  post_by_side, post_ledger_fill,
}

-- The tables of the order state.
abbrev pub Core : Type 0 → Type 0
Core D = List (OrderRow D) × List (TransitionRow D) × List (FillRow D)

abbrev pub core : {D : Type 0} → Db D → Core D
core db = (db.orders, db.transitions, db.fills)

module _ {D : Type 0} where
  pub insert_outbox-core : (s : String) (p : Payload D) → Preserves core (insert_outbox s p)
  unfolding insert_outbox
  insert_outbox-core s p = record { at = λ w. ground arith }

  fresh_id-core : Preserves core (fresh_id {D = D})
  unfolding fresh_id
  fresh_id-core = record { at = λ w. refl }

  lock_inventory-core : (a b c d : String) → Preserves core (lock_inventory {D = D} a b c d)
  unfolding lock_inventory
  lock_inventory-core a b c d = record { at = λ w. ground arith }

  list_open_lots-core : (a b c d : String) → Preserves core (list_open_lots {D = D} a b c d)
  unfolding list_open_lots
  list_open_lots-core a b c d = record { at = λ w. ground arith }

module _ {D : Type 0} ⦃dec : Decimals D⦄ where
  insert_lot-core : (l : LotRow D) → Preserves core (insert_lot l)
  unfolding insert_lot
  insert_lot-core l = record { at = λ w. ground arith }

  insert_lot_closure-core : (c : LotClosureRow D) → Preserves core (insert_lot_closure c)
  unfolding insert_lot_closure
  insert_lot_closure-core c = record { at = λ w. ground arith }

  decrement_lot-core : (id : String) (q : D) (t : Time) → Preserves core (decrement_lot id q t)
  unfolding decrement_lot
  decrement_lot-core id q t = record { at = λ w. ground arith }

  insert_unmatched_sell-core : (u : UnmatchedSellRow D) → Preserves core (insert_unmatched_sell u)
  unfolding insert_unmatched_sell
  insert_unmatched_sell-core u = record { at = λ w. ground arith }

  ruleset ledger_rules = (
    preserves_rules, insert_outbox-core, fresh_id-core, lock_inventory-core, list_open_lots-core,
    insert_lot-core, insert_lot_closure-core, decrement_lot-core, insert_unmatched_sell-core,
  )

  open_lot_for-core :
      (row : OrderRow D) (ev : Event D) (q : D) (i : ℕ) → Preserves core (open_lot_for row ev q i)
  unfolding open_lot_for
  open_lot_for-core row ev q i = search ledger_rules

  record_closure-core :
      (c : Closure D) (p : D) (t : Time) (i : ℕ) → Preserves core (record_closure c p t i)
  unfolding record_closure
  record_closure-core c p t i = search ledger_rules

  record_closures-core :
      (cs : List (Closure D)) (p : D) (t : Time) (i : ℕ) → Preserves core (record_closures cs p t i)
  unfolding record_closures
  record_closures-core [] p t i = search ledger_rules
  record_closures-core (c ∷ cs) p t i =
      search (ledger_rules, record_closure-core, record_closures-core cs)

  record_unmatched-core :
      (row : OrderRow D) (ev : Event D) (q : D) (i : ℕ)
      → Preserves core (record_unmatched row ev q i)
  unfolding record_unmatched
  record_unmatched-core row ev q i = search ledger_rules

  close_lots-core :
      (row : OrderRow D) (ev : Event D) (q : D) (i : ℕ) → Preserves core (close_lots row ev q i)
  unfolding close_lots
  close_lots-core row ev q i =
      search (ledger_rules, record_closures-core, record_unmatched-core) depth 9

  post_by_side-core :
      (s : Side) (row : OrderRow D) (ev : Event D) (q : D) (i : ℕ)
      → Preserves core (post_by_side s row ev q i)
  post_by_side-core buy row ev q i = open_lot_for-core row ev q i
  post_by_side-core sell row ev q i = close_lots-core row ev q i
  post_by_side-core (Side.unknown s) row ev q i = search ledger_rules

  -- Whatever a posting does, and whether it fails, orders, transitions and fills stay.
  pub post_ledger_fill-core :
      (row : OrderRow D) (ev : Event D) (q : D) (i : ℕ)
      → Preserves core (post_ledger_fill row ev q i)
  unfolding post_ledger_fill
  post_ledger_fill-core row ev q i = search (ledger_rules, post_by_side-core row.side row)
