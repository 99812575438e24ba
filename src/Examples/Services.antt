-- ===== src/Examples/Services.antt =====
-- The theorems on the services, at a venue that knows one order of its own.
use delta_works.Base.{
  List, none, true, false, ◌≡◌, refl, [], ◌∷◌, some, any, keep, insert_sorted, sort,
}
use delta_works.Errors.{ok, not_found}
use delta_works.Decimal.Integers.{ℤ, pos, integers, sign, ◌-ℤ◌}
use delta_works.Domain.Order.{Ack, Request, Snapshot, buy, limit, open_order}
use delta_works.Postgres.Session.{Session, Tx, pure, raise, ◌>>=◌, statement, fine, refused}
use delta_works.Postgres.Queries.{insert_pending_order}
use delta_works.Postgres.OrderMethods.{create_pending, list_active_rows, list_active_orders}
use delta_works.Postgres.OrderStore.Invariant.{IsBalanced}
use delta_works.Service.Orders.{
  Placer, Venue, Service, Attempt, accepted, failed, permanent, submit, prepare_place, with_id,
  retry_of, venue_of,
}
use delta_works.Service.Orders.Prepare.{IsReady, prepare_place-IsReady}
use delta_works.Service.Reconcile.{
  Pace, pass, reconcile_all, reconcile_local, reconcile_orphans, reconcile_pending, snapshot_of,
  is_orphan,
}
use delta_works.Service.Reconcile.Converge.{LeavesTables}
use delta_works.Service.Reconcile.Loop.{
  VenueLoop, LoopEvent, reconnected, interval_over, wait_and_pass, pass_once,
}
use delta_works.Service.Reconcile.Loop.Kicks.{is_receive, reconnect_waits}
use delta_works.Examples.{btc_usdt, session, one_order}

-- An order that was placed at the venue by hand.
abbrev foreign : Snapshot ℤ
foreign = record {
  ref = record { instrument = btc_usdt; client_order_id = ""; venue_order_id = "v9" };
  status = open_order;
  price = pos 80;
  qty = pos 1;
  filled_qty = pos 0;
  avg_fill_price = pos 0;
  updated_at = 3;
}

abbrev placer : Placer ℤ
placer = record {
  place_order = λ req. pure (record {
    ref = record {
      instrument = req.instrument;
      client_order_id = req.client_order_id;
      venue_order_id = "v2";
    };
    status = open_order;
    accepted_at = 9;
  });
  cancel_order = λ ref. pure tt;
  open_orders = pure (foreign ∷ []);
  lookup_order = λ ref. raise (not_found ∷ []);
}

abbrev kraken : Venue ℤ
kraken = record { id = "kraken"; placer = placer }

placer-LeavesTables : LeavesTables placer
placer-LeavesTables = record { open_orders_db = λ w. refl; lookup_order_db = λ ref w. refl }

abbrev pace : Pace
pace = record { now = 90; interval = 30 }

balanced : IsBalanced one_order
balanced = record { filled = (refl, tt) }

-- An order with an ID of ours that is in no row.
abbrev unknown_here : Snapshot ℤ
unknown_here = record foreign {
  ref = record { instrument = btc_usdt; client_order_id = "Z"; venue_order_id = "v10" };
}

abbrev with_two : Venue ℤ
with_two = record kraken {
  placer = record placer { open_orders = pure (foreign ∷ unknown_here ∷ []) };
}

-- The first orphan is published before the look-up of the second one is refused.
abbrev cut_short : Session ℤ
cut_short = session (fine ∷ refused ∷ [])

-- The retry of the library, as one that tries once.
abbrev once : Tx ℤ (Attempt ℤ) → Tx ℤ (Ack ℤ)
once try = try >>= λ a. elim a [ accepted x ↦ pure x | failed e ↦ raise e | permanent e ↦ raise e ]

abbrev service : Service ℤ
service = record { venues = kraken ∷ []; now = 9; retry = once; text = λ e. "error" }

abbrev request : Request ℤ
request = record {
  client_order_id = "B";
  bot_id = "manual";
  instrument = btc_usdt;
  side = buy;
  type = limit;
  price = pos 100;
  qty = pos 5;
}

abbrev after_prepare : Session ℤ
after_prepare = (prepare_place (kraken ∷ []) request (session [])).1

prepared :
    prepare_place (kraken ∷ []) request (session []) ≡ (ok (submit request kraken), after_prepare)
unfolding prepare_place ◌>>=◌ statement with_id venue_of create_pending insert_pending_order any
    retry_of
prepared = refl

prepare_place-IsReady_example :
    IsReady request after_prepare.db × (venue_of "kraken" (kraken ∷ []) ≡ some kraken)
prepare_place-IsReady_example =
    prepare_place-IsReady (kraken ∷ []) request request kraken (session []) after_prepare prepared

abbrev watched : VenueLoop ℤ
watched = record { venue = kraken; kick = false; last_orphans = [] }

abbrev met : List LoopEvent
met = interval_over pace false ∷ reconnected none ∷ []

abbrev after_wait : Session ℤ
after_wait = (wait_and_pass (reconnected (some "kraken") ∷ met) watched (session [])).1

abbrev signalled : VenueLoop ℤ
signalled = record watched { kick = true; last_orphans = "v9" ∷ [] }

waited :
    wait_and_pass (reconnected (some "kraken") ∷ met) watched (session [])
    ≡ (ok signalled, after_wait)
unfolding wait_and_pass pass_once pass ◌>>=◌ statement list_active_orders list_active_rows
    reconcile_all reconcile_local reconcile_orphans reconcile_pending snapshot_of is_orphan any keep
    insert_sorted sort sign ◌-ℤ◌
waited = refl

none_received : any is_receive met ≡ false
unfolding any
none_received = refl

reconnect_waits_example : signalled.kick ≡ true
reconnect_waits_example =
    reconnect_waits met watched signalled (session []) after_wait none_received waited
