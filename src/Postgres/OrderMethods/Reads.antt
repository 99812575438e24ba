-- ===== src/Postgres/OrderMethods/Reads.antt =====
-- internal/adapters/postgres/orders.go: the methods of `OrderStore` that only read.
use delta_works.Base.{refl, Option, none, some, arith}
use delta_works.Decimal.{Decimals}
use delta_works.Domain.Instrument.{VenueId}
use delta_works.Domain.Order.{ClientOrderId}
use delta_works.Postgres.Schema.{OrderRow}
use delta_works.Postgres.Session.Keeps.{LeavesDb, bind-LeavesDb}
use delta_works.Postgres.Queries.{get_order_row}
use delta_works.Postgres.OrderMethods.{get_order, found_order, list_active_rows, list_active_orders}

module _ {D : Type 0} ⦃dec : Decimals D⦄ where
  get_row-LeavesDb : (id : ClientOrderId) → LeavesDb {D = D} (get_order_row id)
  unfolding get_order_row
  get_row-LeavesDb id w = ground arith

  found_order-LeavesDb : (o : Option (OrderRow D)) → LeavesDb (found_order o)
  found_order-LeavesDb none w = refl
  found_order-LeavesDb (some row) w = refl

  pub get_order-LeavesDb : (id : ClientOrderId) → LeavesDb {D = D} (get_order id)
  unfolding get_order
  get_order-LeavesDb id = bind-LeavesDb _ _ (get_row-LeavesDb id) found_order-LeavesDb

  list_rows-LeavesDb : (venue : VenueId) → LeavesDb {D = D} (list_active_rows venue)
  unfolding list_active_rows
  list_rows-LeavesDb venue w = ground arith

  pub list_active-LeavesDb : (venue : VenueId) → LeavesDb {D = D} (list_active_orders venue)
  unfolding list_active_orders
  list_active-LeavesDb venue = bind-LeavesDb _ _ (list_rows-LeavesDb venue) (λ rows w. refl)
