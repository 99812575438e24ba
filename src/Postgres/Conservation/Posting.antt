-- ===== src/Postgres/Conservation/Posting.antt =====
-- internal/adapters/postgres/ledger.go and orders.go: posting a fill, and the event around it.
use delta_works.Base.{
  ℕ, ◌≡◌, refl, Bool, true, false, not, ◌||◌, List, [], ◌∷◌, ◌++◌, Option, none, some, String,
  arith, str_eq, any, ◌&&◌, update_where, ◌==◌,
}
use delta_works.Errors.{Result, ok, err}
use delta_works.Decimal.{Decimals, is_positive}
use delta_works.Domain.Order.{Time, ClientOrderId, Event, Source, Status, Side, buy, sell}
use delta_works.Domain.Order.Machine.{Decision}
use delta_works.Domain.Ledger.{Closure}
use delta_works.Postgres.Schema.{
  Db, OrderRow, FillRow, LotRow, LotClosureRow, UnmatchedSellRow, Payload, open_lot,
}
use delta_works.Postgres.Session.{Session, Tx}
use delta_works.Postgres.Session.Laws.{Preserves, bind_ok}
use delta_works.Postgres.Session.Commits.{
  Commits, Commits-Preserves, Commits-bind, Commits-if, Commits-pure, Commits-raise, commits_rules,
  transaction-Keeps,
}
use delta_works.Postgres.Queries.{
  insert_outbox, insert_fill, insert_transition, apply_order_update, adopt_venue_order_id_row,
  get_order_row,
}
use delta_works.Postgres.LedgerQueries.{
  lock_inventory, list_open_lots, insert_lot, insert_lot_closure, decrement_lot, decremented,
  insert_unmatched_sell, in_range,
}
use delta_works.Postgres.LedgerPosting.{
  fresh_id, open_lot_for, record_closure, record_closures, record_unmatched, close_lots,
  post_by_side, post_ledger_fill,
}
use delta_works.Postgres.OrderStore.{
  adopt_venue_order_id, insert_event_outbox, post_fill, post_after_insert, missing_fill,
  persist_decision, apply_to_row, with_row, apply_body, apply_event, drop_event, keep_decision,
  lift,
}
use delta_works.Postgres.Conservation.Lots.{
  IsConserved, opened-IsConserved, closed-IsConserved, has_lot,
}

-- The tables of the ledger that belong together.
abbrev pub Books : Type 0 → Type 0
Books D = List (LotRow D) × List (LotClosureRow D)

abbrev pub books : {D : Type 0} → Db D → Books D
books db = (db.lots, db.lot_closures)

module _ {D : Type 0} ⦃dec : Decimals D⦄ where
  abbrev pub ConservedDb : Db D → Type 0
  ConservedDb db = IsConserved db.lots db.lot_closures

  left : {A : Type 0} (m : Tx D A) → Preserves books m → Commits ConservedDb m
  left m k = Commits-Preserves books (λ b. IsConserved b.0 b.1) m k

  fresh_id-Commits : Commits ConservedDb fresh_id
  unfolding fresh_id
  fresh_id-Commits = left _ (record { at = λ w. refl })

  insert_outbox-Commits : (s : String) (p : Payload D) → Commits ConservedDb (insert_outbox s p)
  unfolding insert_outbox
  insert_outbox-Commits s p = left _ (record { at = λ w. ground arith })

  lock-Commits : (a b c d : String) → Commits ConservedDb (lock_inventory a b c d)
  unfolding lock_inventory
  lock-Commits a b c d = left _ (record { at = λ w. ground arith })

  list-Commits : (a b c d : String) → Commits ConservedDb (list_open_lots a b c d)
  unfolding list_open_lots
  list-Commits a b c d = left _ (record { at = λ w. ground arith })

  unmatched-Commits : (u : UnmatchedSellRow D) → Commits ConservedDb (insert_unmatched_sell u)
  unfolding insert_unmatched_sell
  unmatched-Commits u = left _ (record { at = λ w. ground arith })

  insert_fill-Commits : (f : FillRow D) → Commits ConservedDb (insert_fill f)
  unfolding insert_fill
  insert_fill-Commits f = left _ (record { at = λ w. ground arith })

  insert_transition-Commits :
      (id : ClientOrderId) (a b : Status) (q : D) (s : Source) (r : Option String) (t : Time)
      → Commits ConservedDb (insert_transition id a b q s r t)
  unfolding insert_transition
  insert_transition-Commits id a b q s r t = left _ (record { at = λ w. ground arith })

  update-Commits :
      (id : ClientOrderId) (s : Status) (q : D) (p : Option D) (v r : Option String)
      → Commits ConservedDb (apply_order_update id s q p v r)
  unfolding apply_order_update
  update-Commits id s q p v r = left _ (record { at = λ w. ground arith })

  adopt-Commits :
      (id : ClientOrderId) (v : Option String) → Commits ConservedDb (adopt_venue_order_id_row id v)
  unfolding adopt_venue_order_id_row
  adopt-Commits id v = left _ (record { at = λ w. ground arith })

  get_row-Commits : (id : ClientOrderId) → Commits ConservedDb (get_order_row id)
  unfolding get_order_row
  get_row-Commits id = left _ (record { at = λ w. ground arith })

  any_left :
      (p q : LotRow D → Bool) (ls : List (LotRow D))
      → any (λ l. p l || q l) ls ≡ false
      → any p ls ≡ false
  unfolding any
  any_left p q [] h = refl
  any_left p q (l ∷ ls) h = ground (arith, any_left p q ls)

  insert_lot_ok :
      (lot : LotRow D) (w : Session D) (a : Unit {0}) {u : Session D}
      → insert_lot lot w ≡ (ok a, u)
      → (is_positive lot.qty ≡ true)
        × (has_lot w.db.lots lot.id ≡ false)
        × (u.db.lots
            ≡ w.db.lots
              ++ record lot { remaining_qty = lot.qty; status = open_lot; closed_at = none } ∷ [])
        × (u.db.lot_closures ≡ w.db.lot_closures)
  unfolding insert_lot
  insert_lot_ok lot w a h = (
    ground arith,
    any_left (λ l. str_eq l.id lot.id) (λ l. l.opened_by_fill_id == lot.opened_by_fill_id) w.db.lots
        (ground arith),
    ground arith,
    ground arith,
  )

  insert_lot-Commits : (lot : LotRow D) → Commits ConservedDb (insert_lot lot)
  insert_lot-Commits lot = record {
    at = λ w u a h s.
        let (positive, new, lots, closures) = insert_lot_ok lot w a h in
        rw (lots, closures)
          (opened-IsConserved w.db.lots w.db.lot_closures
            (record lot { remaining_qty = lot.qty; status = open_lot; closed_at = none }) new
            positive refl s);
  }

  insert_closure_ok :
      (c : LotClosureRow D) (w : Session D) (a : Unit {0}) {u : Session D}
      → insert_lot_closure c w ≡ (ok a, u)
      → (has_lot w.db.lots c.lot_id ≡ true)
        × (u.db.lots ≡ w.db.lots)
        × (u.db.lot_closures ≡ w.db.lot_closures ++ c ∷ [])
  unfolding insert_lot_closure
  insert_closure_ok c w a h = (ground arith, ground arith, ground arith)

  decrement_ok :
      (id : String) (q : D) (t : Time) (w : Session D) (a : Unit {0}) {u : Session D}
      → decrement_lot id q t w ≡ (ok a, u)
      → (any (λ l. str_eq l.id id && not (in_range (decremented q t l))) w.db.lots ≡ false)
        × (u.db.lots ≡ update_where (λ l. str_eq l.id id) (decremented q t) w.db.lots)
        × (u.db.lot_closures ≡ w.db.lot_closures)
  unfolding decrement_lot
  decrement_ok id q t w a h = (ground arith, ground arith, ground arith)

  closure_of : Closure D → D → Time → ℕ → LotClosureRow D
  closure_of c p t i = record {
    lot_id = c.lot_id;
    sell_fill_id = i;
    qty = c.qty;
    price = p;
    closed_at = t;
  }

  record_closure-Commits :
      (c : Closure D) (p : D) (t : Time) (i : ℕ) → Commits ConservedDb (record_closure c p t i)
  unfolding record_closure closure_of
  record_closure-Commits c p t i = record {
    at = λ w u a h s.
        let (b, v, e, k) = bind_ok (insert_lot_closure (closure_of c p t i)) _ w h in
        let (there, lots, closures) = insert_closure_ok (closure_of c p t i) w b e in
        let (enough, lots', closures') = decrement_ok c.lot_id c.qty t v a k in
        rw (lots', closures', lots, closures)
          (closed-IsConserved w.db.lots w.db.lot_closures (closure_of c p t i) t there
            (rw lots at enough) s);
  }

  ruleset posting_rules = (
    commits_rules, fresh_id-Commits, insert_outbox-Commits, lock-Commits, list-Commits,
    unmatched-Commits, insert_lot-Commits, record_closure-Commits, insert_fill-Commits,
    insert_transition-Commits, update-Commits, adopt-Commits, get_row-Commits,
  )

  open_lot-Commits :
      (row : OrderRow D) (ev : Event D) (q : D) (i : ℕ)
      → Commits ConservedDb (open_lot_for row ev q i)
  unfolding open_lot_for
  open_lot-Commits row ev q i = search posting_rules

  closures-Commits :
      (cs : List (Closure D)) (p : D) (t : Time) (i : ℕ)
      → Commits ConservedDb (record_closures cs p t i)
  unfolding record_closures
  closures-Commits [] p t i = search posting_rules
  closures-Commits (c ∷ cs) p t i = search (posting_rules, closures-Commits cs)

  record_unmatched-Commits :
      (row : OrderRow D) (ev : Event D) (q : D) (i : ℕ)
      → Commits ConservedDb (record_unmatched row ev q i)
  unfolding record_unmatched
  record_unmatched-Commits row ev q i = search posting_rules

  close_lots-Commits :
      (row : OrderRow D) (ev : Event D) (q : D) (i : ℕ)
      → Commits ConservedDb (close_lots row ev q i)
  unfolding close_lots
  close_lots-Commits row ev q i =
      search (posting_rules, closures-Commits, record_unmatched-Commits) depth 9

  post_by_side-Commits :
      (s : Side) (row : OrderRow D) (ev : Event D) (q : D) (i : ℕ)
      → Commits ConservedDb (post_by_side s row ev q i)
  post_by_side-Commits buy row ev q i = open_lot-Commits row ev q i
  post_by_side-Commits sell row ev q i = close_lots-Commits row ev q i
  post_by_side-Commits (Side.unknown s) row ev q i = search posting_rules

  post_ledger_fill-Commits :
      (row : OrderRow D) (ev : Event D) (q : D) (i : ℕ)
      → Commits ConservedDb (post_ledger_fill row ev q i)
  unfolding post_ledger_fill
  post_ledger_fill-Commits row ev q i = search (posting_rules, post_by_side-Commits row.side row)

  missing_fill-Commits : (o : Option ℕ) → Commits ConservedDb (missing_fill o)
  missing_fill-Commits none = search posting_rules
  missing_fill-Commits (some i) = search posting_rules

  after_insert-Commits :
      (row : OrderRow D) (ev : Event D) (q : D) (t : ℕ) (o : Option ℕ)
      → Commits ConservedDb (post_after_insert row ev q t o)
  after_insert-Commits row ev q t (some i) = search (posting_rules, post_ledger_fill-Commits)
  after_insert-Commits row ev q t none =
      search (posting_rules, post_ledger_fill-Commits, missing_fill-Commits) depth 9

  post_fill-Commits :
      (row : OrderRow D) (ev : Event D) (q : D) (t : ℕ) → Commits ConservedDb (post_fill row ev q t)
  unfolding post_fill
  post_fill-Commits row ev q t = search (posting_rules, after_insert-Commits)

  outbox-Commits :
      (row : OrderRow D) (source : Source) (ev : Event D) (d : Decision D) (q : D)
      → Commits ConservedDb (insert_event_outbox row source ev d q)
  unfolding insert_event_outbox
  outbox-Commits row source ev d q = search posting_rules

  persist-Commits :
      (row : OrderRow D) (source : Source) (ev : Event D) (d : Decision D)
      → Commits ConservedDb (persist_decision row source ev d)
  unfolding persist_decision
  persist-Commits row source ev d =
      search (posting_rules, post_fill-Commits, outbox-Commits) depth 12

  adopt_order-Commits :
      (row : OrderRow D) (v : String) → Commits ConservedDb (adopt_venue_order_id row v)
  unfolding adopt_venue_order_id
  adopt_order-Commits row v = search posting_rules

  lift-Commits : {A : Type 0} (r : Result A) → Commits ConservedDb (lift r)
  lift-Commits (ok a) = Commits-pure a
  lift-Commits (err e) = Commits-raise e

  drop-Commits :
      (row : OrderRow D) (ev : Event D) (d : Decision D) → Commits ConservedDb (drop_event row ev d)
  drop-Commits row ev d = search (posting_rules, adopt_order-Commits)

  keep-Commits :
      (row : OrderRow D) (source : Source) (ev : Event D) (d : Decision D)
      → Commits ConservedDb (keep_decision row source ev d)
  keep-Commits row source ev d = search (posting_rules, persist-Commits)

  apply_row-Commits :
      (row : OrderRow D) (source : Source) (ev : Event D)
      → Commits ConservedDb (apply_to_row row source ev)
  unfolding apply_to_row
  apply_row-Commits row source ev =
      Commits-bind _ _ (lift-Commits _)
        (λ d. Commits-if _ _ _ (drop-Commits row ev d) (keep-Commits row source ev d))

  with_row-Commits :
      (o : Option (OrderRow D)) (source : Source) (ev : Event D)
      → Commits ConservedDb (with_row o source ev)
  with_row-Commits none source ev = Commits-raise _
  with_row-Commits (some row) source ev = apply_row-Commits row source ev

  -- Whatever `ApplyEvent` does, with any faults and whether it returns or fails, the books stay
  -- conserved: the quantity of each lot is what remains of it and what its closures took, what remains
  -- is between zero and the quantity, and each closure is one of a lot.
  pub apply_event-IsConserved :
      (source : Source) (ev : Event D) (w : Session D)
      → ConservedDb w.db
      → ConservedDb (apply_event source ev w).1.db
  unfolding apply_event apply_body
  apply_event-IsConserved source ev =
      (transaction-Keeps _
        (Commits-bind _ _ (get_row-Commits _) (λ o. with_row-Commits o source ev))).at
