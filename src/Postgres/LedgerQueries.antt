-- ===== src/Postgres/LedgerQueries.antt =====
-- The statements on lots, closures and unmatched sells (queries/ledger.sql, sqlcgen/ledger.sql.go),
-- with the checks and keys of migrations/0004_ledger.sql that they can break.
use delta_works.Base.{
  Bool, true, false, not, ◌&&◌, ◌||◌, List, [], ◌∷◌, ◌++◌, none, some, String, if◌then◌else◌, ◌==◌,
  ltb, str_eq, keep, any, update_where, text_less, sort,
}
use delta_works.Errors.{ok, err}
use delta_works.Decimal.{Decimals, sub, is_positive, is_negative, is_zero}
use delta_works.Domain.Order.{Time}
use delta_works.Postgres.Schema.{
  LotRow, LotClosureRow, UnmatchedSellRow, open_lot, closed_lot, LotStatus,
}
use delta_works.Postgres.Session.{Tx, pure, statement, db_error}
use delta_works.Postgres.Queries.{write}

abbrev pub is_open : LotStatus → Bool
is_open open_lot = true
is_open closed_lot = false

module _ {D : Type 0} where
  -- The lots of one inventory: bot, venue, base and quote.
  abbrev pub in_inventory : String → String → String → String → LotRow D → Bool
  in_inventory bot venue base quote l =
      str_eq l.bot_id bot && str_eq l.venue venue && str_eq l.base base && str_eq l.quote quote

  -- LockInventory. The advisory lock orders transactions and writes nothing.
  unfoldable pub lock_inventory : String → String → String → String → Tx D (Unit {0})
  unfolding statement
  lock_inventory bot venue base quote = statement (pure tt)

  abbrev row_older : LotRow D → LotRow D → Bool
  row_older a b =
      if a.opened_at == b.opened_at then text_less a.id b.id else ltb a.opened_at b.opened_at

  -- ListOpenLotsForUpdate.
  unfoldable pub list_open_lots : String → String → String → String → Tx D (List (LotRow D))
  unfolding statement
  list_open_lots bot venue base quote = statement λ w. (
    ok (
        sort row_older
          (keep (λ l. in_inventory bot venue base quote l && is_open l.status) w.db.lots)),
    w,
  )

module _ {D : Type 0} ⦃dec : Decimals D⦄ where
  -- InsertLot: the whole quantity remains and the lot is open.
  unfoldable pub insert_lot : LotRow D → Tx D (Unit {0})
  unfolding statement
  insert_lot lot = statement λ w.
      if not (is_positive lot.qty)
        || is_negative lot.cost_price
        || any (λ l. str_eq l.id lot.id || l.opened_by_fill_id == lot.opened_by_fill_id) w.db.lots
      then (err db_error, w)
      else (
        ok tt,
        write
            (λ db. record db {
              lots =
                  db.lots
                  ++ record lot { remaining_qty = lot.qty; status = open_lot; closed_at = none }
                    ∷ [];
            })
            w,
      )

  -- InsertLotClosure.
  unfoldable pub insert_lot_closure : LotClosureRow D → Tx D (Unit {0})
  unfolding statement
  insert_lot_closure c = statement λ w.
      if not (is_positive c.qty)
        || is_negative c.price
        || not (any (λ l. str_eq l.id c.lot_id) w.db.lots)
        || any (λ o. str_eq o.lot_id c.lot_id && o.sell_fill_id == c.sell_fill_id) w.db.lot_closures
      then (err db_error, w)
      else (ok tt, write (λ db. record db { lot_closures = db.lot_closures ++ c ∷ [] }) w)

  -- The row that DecrementLot leaves: closed when nothing remains.
  unfoldable pub decremented : D → Time → LotRow D → LotRow D
  decremented qty closed_at l =
      let rest = sub l.remaining_qty qty in
      record l {
        remaining_qty = rest;
        status = if is_zero rest then closed_lot else open_lot;
        closed_at = if is_zero rest then some closed_at else none;
      }

  -- CHECK (remaining_qty >= 0 AND remaining_qty <= qty), on the row to be written.
  abbrev pub in_range : LotRow D → Bool
  in_range l = not (is_negative l.remaining_qty) && not (is_negative (sub l.qty l.remaining_qty))

  -- DecrementLot.
  unfoldable pub decrement_lot : String → D → Time → Tx D (Unit {0})
  unfolding statement
  decrement_lot id qty at = statement λ w.
      if any (λ l. str_eq l.id id && not (in_range (decremented qty at l))) w.db.lots
      then (err db_error, w)
      else (
        ok tt,
        write
            (λ db. record db {
              lots = update_where (λ l. str_eq l.id id) (decremented qty at) db.lots;
            })
            w,
      )

  -- InsertUnmatchedSell.
  unfoldable pub insert_unmatched_sell : UnmatchedSellRow D → Tx D (Unit {0})
  unfolding statement
  insert_unmatched_sell u = statement λ w.
      if not (is_positive u.qty) || any (λ o. o.sell_fill_id == u.sell_fill_id) w.db.unmatched_sells
      then (err db_error, w)
      else (ok tt, write (λ db. record db { unmatched_sells = db.unmatched_sells ++ u ∷ [] }) w)
