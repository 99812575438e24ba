-- ===== src/Postgres/Queries.antt =====
-- The statements on orders, transitions, fills and the outbox (queries/orders.sql, outbox.sql; the
-- SQL text and its Go wrapper are in sqlcgen/). The unique indexes and checks of the migrations that
-- a statement can break, as the stores call it, are its errors.
use delta_works.Base.{
  ℕ, suc, Bool, true, false, not, ◌&&◌, List, [], ◌∷◌, ◌++◌, Option, none, some, String,
  if◌then◌else◌, str_eq, keep, find, any, update_where, length,
}
use Prim.Native.Nat.{max}
use delta_works.Errors.{ok, err}
use delta_works.Domain.Order.{Time, ClientOrderId, Side, OrderType, Status, Source, pending}
use delta_works.Postgres.Schema.{OrderRow, TransitionRow, FillRow, Payload, Db, micros}
use delta_works.Postgres.Session.{Session, Tx, statement, autocommit, db_error}

abbrev pub is_stored_side : Side → Bool
is_stored_side (Side.unknown s) = false
is_stored_side _ = true

abbrev pub is_stored_type : OrderType → Bool
is_stored_type (OrderType.unknown s) = false
is_stored_type _ = true

-- `a` is `b`, where SQL compares a nullable text: NULL equals nothing.
abbrev pub same_text : Option String → Option String → Bool
same_text none b = false
same_text (some a) none = false
same_text (some a) (some b) = str_eq a b

-- `COALESCE(a, b)`.
abbrev pub coalesce {ℓ} : {A : Type ℓ} → Option A → Option A → Option A
coalesce none b = b
coalesce (some a) b = some a

abbrev pub is_none {ℓ} : {A : Type ℓ} → Option A → Bool
is_none none = true
is_none (some a) = false

module _ {D : Type 0} where
  abbrev pub has_id : ClientOrderId → OrderRow D → Bool
  has_id id row = str_eq row.client_order_id id

  -- The unique index on (venue, venue_order_id): whether setting the missing venue order ID of the
  -- order to `v` would repeat that of another order of the venue.
  unfoldable pub venue_id_taken : ClientOrderId → Option String → List (OrderRow D) → Bool
  venue_id_taken id v rows = elim (find (has_id id) rows) [
    | none ↦ false
    | some r ↦
        any
          (λ row.
            not (has_id id row)
            && str_eq row.venue r.venue
            && same_text (coalesce r.venue_order_id v) row.venue_order_id)
          rows
  ]

  abbrev pub write : (Db D → Db D) → Session D → Session D
  write f w = record w { db = f w.db }

  -- GetOrder and GetOrderForUpdate.
  unfoldable pub get_order_row : ClientOrderId → Tx D (Option (OrderRow D))
  unfolding statement
  get_order_row id = statement λ w. (ok (find (has_id id) w.db.orders), w)

  -- The checks of the columns `side` and `type`.
  abbrev pub is_storable : OrderRow D → Bool
  is_storable row = is_stored_side row.side && is_stored_type row.type

  -- InsertPendingOrder: the number of rows inserted. A row that breaks a check is an error even if its
  -- ID has a row.
  unfoldable pub insert_pending_order : OrderRow D → Tx D ℕ
  unfolding autocommit
  insert_pending_order row = autocommit λ w.
      if not (is_storable row)
      then (err db_error, w)
      else if any (has_id row.client_order_id) w.db.orders
      then (ok 0, w)
      else (
        ok 1,
        write
            (λ db. record db {
              orders =
                  db.orders
                  ++ record row { status = pending; created_at = w.now; updated_at = w.now } ∷ [];
            })
            w,
      )

  -- AdoptVenueOrderID.
  unfoldable pub adopt_venue_order_id_row : ClientOrderId → Option String → Tx D (Unit {0})
  unfolding statement
  adopt_venue_order_id_row id v = statement λ w.
      if venue_id_taken id v w.db.orders then (err db_error, w) else (
        ok tt,
        write
            (λ db. record db {
              orders =
                  update_where (λ row. has_id id row && is_none row.venue_order_id)
                    (λ row. record row { venue_order_id = v; updated_at = w.now }) db.orders;
            })
            w,
      )

  -- The SET list of ApplyOrderUpdate.
  abbrev pub updated_order :
      Time → Status → D → Option D → Option String → Option String → OrderRow D → OrderRow D
  updated_order now status filled avg v reason row = record row {
    status = status;
    filled_qty = filled;
    avg_fill_price = avg;
    venue_order_id = coalesce row.venue_order_id v;
    reason = coalesce reason row.reason;
    updated_at = now;
  }

  -- ApplyOrderUpdate.
  unfoldable pub apply_order_update :
      ClientOrderId → Status → D → Option D → Option String → Option String → Tx D (Unit {0})
  unfolding statement
  apply_order_update id status filled avg v reason = statement λ w.
      if venue_id_taken id v w.db.orders then (err db_error, w) else (
        ok tt,
        write
            (λ db. record db {
              orders =
                  update_where (has_id id) (updated_order w.now status filled avg v reason)
                    db.orders;
            })
            w,
      )

  -- MarkCancelRequested: the number of rows updated; the first timestamp stays.
  unfoldable pub mark_cancel_requested_rows : ClientOrderId → Time → Tx D ℕ
  unfolding autocommit
  mark_cancel_requested_rows id at = autocommit λ w. (
    ok (length (keep (has_id id) w.db.orders)),
    write
        (λ db. record db {
          orders =
              update_where (has_id id)
                (λ row. record row {
                  cancel_requested_at = coalesce row.cancel_requested_at (some (micros at));
                  updated_at = w.now;
                })
                db.orders;
        })
        w,
  )

  unfoldable pub last_seq : ClientOrderId → List (TransitionRow D) → ℕ
  last_seq id [] = 0
  last_seq id (t ∷ ts) =
      if str_eq t.client_order_id id then max t.seq (last_seq id ts) else last_seq id ts

  -- The row of InsertTransition, with the next `seq` of the order.
  abbrev pub transition_row :
      Session D
      → ClientOrderId
      → Status
      → Status
      → D
      → Source
      → Option String
      → Time
      → TransitionRow D
  transition_row w id from to filled source reason at = record {
    id = w.next_transition_id;
    client_order_id = id;
    seq = suc (last_seq id w.db.transitions);
    from_status = from;
    to_status = to;
    filled_qty = filled;
    source = source;
    reason = reason;
    occurred_at = micros at;
    recorded_at = w.now;
  }

  -- InsertTransition: the row's ID comes back.
  unfoldable pub insert_transition :
      ClientOrderId → Status → Status → D → Source → Option String → Time → Tx D ℕ
  unfolding statement
  insert_transition id from to filled source reason at = statement λ w. (
    ok w.next_transition_id,
    record w {
      next_transition_id = suc w.next_transition_id;
      db = record w.db {
        transitions = w.db.transitions ++ transition_row w id from to filled source reason at ∷ [];
      };
    },
  )

  -- InsertFill: nothing is inserted, and no ID comes back, where the order already has a fill with the
  -- same venue fill ID. `fill.id` is given by the statement.
  unfoldable pub insert_fill : FillRow D → Tx D (Option ℕ)
  unfolding statement
  insert_fill fill = statement λ w.
      let w' = record w { next_fill_id = suc w.next_fill_id } in
      if any
        (λ f.
          str_eq f.client_order_id fill.client_order_id
          && same_text fill.venue_fill_id f.venue_fill_id)
        w.db.fills
      then (ok none, w')
      else (
        ok (some w.next_fill_id),
        write (λ db. record db { fills = db.fills ++ record fill { id = w.next_fill_id } ∷ [] }) w',
      )

  -- InsertOutbox.
  unfoldable pub insert_outbox : String → Payload D → Tx D (Unit {0})
  unfolding statement
  insert_outbox subject payload = statement λ w. (
    ok tt,
    record w {
      next_outbox_id = suc w.next_outbox_id;
      db = record w.db {
        outbox =
            w.db.outbox
            ++ record {
              id = w.next_outbox_id;
              subject = subject;
              payload = payload;
              created_at = w.now;
              published_at = none;
            }
              ∷ [];
      };
    },
  )
