-- ===== src/Postgres/LedgerPosting.antt =====
-- internal/adapters/postgres/ledger.go: posting one fill to the inventory of its bot, inside the
-- transaction of the event. A buy opens a lot, a sell closes lots by the FIFO selection.
pub mod Frame
use delta_works.Base.{
  ℕ, suc, Bool, true, false, not, List, [], ◌∷◌, Option, none, some, String, if◌then◌else◌, map,
}
use delta_works.Errors.{Result, ok, err, other}
use delta_works.Decimal.{Decimals, is_positive, is_negative, zero_decimal}
use delta_works.Domain.Order.{Time, Event, Side, buy, sell}
use delta_works.Domain.Ledger.{Lot, Closure, Allocation, Outcome, select}
use delta_works.Postgres.Schema.{OrderRow, LotRow, open_lot, unmatched_sell, micros}
use delta_works.Postgres.Session.{Session, Tx, pure, raise, ◌>>=◌, ◌>>◌}
use delta_works.Postgres.Queries.{insert_outbox}
use delta_works.Postgres.LedgerQueries.{
  lock_inventory, list_open_lots, insert_lot, insert_lot_closure, decrement_lot,
  insert_unmatched_sell,
}

abbrev pub subject_unmatched_sell : String
subject_unmatched_sell = "ledger.unmatched_sell"

module _ {D : Type 0} where
  -- `id.New`, which cannot fail.
  unfoldable pub fresh_id : Tx D String
  fresh_id w = (ok (w.new_id w.ids_taken), record w { ids_taken = suc w.ids_taken })

  -- A lot as the selector sees it.
  abbrev pub lot_of : LotRow D → Lot D
  lot_of l = record {
    id = l.id;
    bot_id = l.bot_id;
    venue = l.venue;
    base = l.base;
    quote = l.quote;
    qty = l.qty;
    remaining_qty = l.remaining_qty;
    cost_price = l.cost_price;
    opened_at = l.opened_at;
  }

module _ {D : Type 0} ⦃dec : Decimals D⦄ where
  abbrev pub no_outcome : Outcome D
  no_outcome = record { unmatched_qty = zero_decimal }

  unfoldable pub open_lot_for : OrderRow D → Event D → D → ℕ → Tx D (Outcome D)
  open_lot_for row ev fill_qty fill_id = do
    lot_id ← fresh_id
    insert_lot (record {
      id = lot_id;
      bot_id = row.bot_id;
      venue = row.venue;
      base = row.base;
      quote = row.quote;
      qty = fill_qty;
      remaining_qty = fill_qty;
      cost_price = ev.fill_price;
      opened_by_fill_id = fill_id;
      status = open_lot;
      opened_at = micros ev.at;
      closed_at = none;
    })
    pure no_outcome

  unfoldable pub record_closure : Closure D → D → Time → ℕ → Tx D (Unit {0})
  record_closure closure price closed_at fill_id = do
    insert_lot_closure (record {
      lot_id = closure.lot_id;
      sell_fill_id = fill_id;
      qty = closure.qty;
      price = price;
      closed_at = closed_at;
    })
    decrement_lot closure.lot_id closure.qty closed_at

  -- The loop over the closures of an allocation.
  unfoldable pub record_closures : List (Closure D) → D → Time → ℕ → Tx D (Unit {0})
  record_closures [] price closed_at fill_id = pure tt
  record_closures (c ∷ cs) price closed_at fill_id =
      record_closure c price closed_at fill_id >>= λ _. record_closures cs price closed_at fill_id

  unfoldable pub record_unmatched : OrderRow D → Event D → D → ℕ → Tx D (Unit {0})
  record_unmatched row ev qty fill_id = do
    insert_unmatched_sell (record {
      sell_fill_id = fill_id;
      bot_id = row.bot_id;
      venue = row.venue;
      base = row.base;
      quote = row.quote;
      qty = qty;
      occurred_at = micros ev.at;
    })
    insert_outbox subject_unmatched_sell (
        unmatched_sell (record {
          bot_id = row.bot_id;
          venue = row.venue;
          base = row.base;
          quote = row.quote;
          client_order_id = row.client_order_id;
          sell_fill_id = fill_id;
          unmatched_qty = qty;
        }))

  unfoldable pub close_lots : OrderRow D → Event D → D → ℕ → Tx D (Outcome D)
  close_lots row ev fill_qty fill_id = do
    rows ← list_open_lots row.bot_id row.venue row.base row.quote
    let allocation = select (map lot_of rows) fill_qty
    record_closures allocation.closures ev.fill_price (micros ev.at) fill_id
    if not (is_positive allocation.unmatched) then pure no_outcome else do
      record_unmatched row ev allocation.unmatched fill_id
      pure (record { unmatched_qty = allocation.unmatched })

  abbrev pub post_by_side : Side → OrderRow D → Event D → D → ℕ → Tx D (Outcome D)
  post_by_side buy row ev fill_qty fill_id = open_lot_for row ev fill_qty fill_id
  post_by_side sell row ev fill_qty fill_id = close_lots row ev fill_qty fill_id
  post_by_side (Side.unknown s) row ev fill_qty fill_id =
      raise (other "postgres: post ledger fill: unsupported side" ∷ [])

  unfoldable pub post_ledger_fill : OrderRow D → Event D → D → ℕ → Tx D (Outcome D)
  post_ledger_fill row ev fill_qty fill_id =
      if not (is_positive fill_qty)
      then raise (other "postgres: post ledger fill: quantity must be positive" ∷ [])
      else if is_negative ev.fill_price
      then raise (other "postgres: post ledger fill: price must not be negative" ∷ [])
      else do
        lock_inventory row.bot_id row.venue row.base row.quote
        post_by_side row.side row ev fill_qty fill_id
