-- ===== src/Examples/Polling.antt =====
-- The theorem on the snapshot service, over the sender and the tables of the examples.
use mathlib.Core.Path.{subst}
use delta_works.Base.{
  ◌≡◌, refl, false, List, [], ◌∷◌, none, some, Bool, true, str_eq, if◌then◌else◌,
}
use delta_works.Decimal.Integers.{ℤ, pos, integers}
use delta_works.Errors.{Result, ok, err, is, auth}
use delta_works.Domain.Account.{
  AccountSnapshot, AccountType, Balance, spot, funding, unified, margin, unknown,
}
use delta_works.Exchange.{
  Call, Registry, Exchange, new_registry, get_venue, register_all, register, venue_entry,
  registered,
}
use delta_works.Domain.Instrument.{VenueId}
use delta_works.Service.Snapshots.{Fetched, fetched, failed, permanent, Pass, fetch, poll}
use delta_works.Service.Snapshots.Anchors.{View, Leaves, IsAnchored}
use delta_works.Service.Snapshots.Adapters.{Backing, new_snapshot_service, seen, poll-IsAnchored}
use delta_works.Examples.{session}
use delta_works.Examples.Series.{Lines, sender, sender-Documented, whole}

-- The adapters over the sender of the examples, the tables of the examples, and a bus that keeps what is
-- published.
abbrev Station : Type 0
Station = Backing Lines ℤ (List (AccountSnapshot ℤ))

abbrev publish : AccountSnapshot ℤ → Call (List (AccountSnapshot ℤ)) (Unit {0})
publish s heard = (ok tt, s ∷ heard)

abbrev seen_here : View Station ℤ
seen_here = seen whole sender publish (λ w. w.buffer) (λ w. w.sent)

abbrev venue : Exchange Station ℤ
venue = record {
  id = "kraken";
  ticker = λ inst w. (err [], w);
  instruments = λ typ w. (ok [], w);
  balances = λ acct w. (
    elim acct [
      | margin ↦ err (auth ∷ [])
      | _ ↦ ok (record { currency = "BTC"; total = pos 5; free = pos 3; locked = pos 2 } ∷ [])
    ],
    w,
  );
  trading = none;
}

abbrev last_try : Result (Fetched ℤ) × Station → Result (List (Balance ℤ)) × Station
last_try (ok (fetched bs), w) = (ok bs, w)
last_try (ok (failed e), w) = (err e, w)
last_try (ok (permanent e), w) = (err e, w)
last_try (err e, w) = (err e, w)

abbrev registry : Registry Station ℤ
registry = new_registry (venue ∷ [])

abbrev retry : Call Station (Fetched ℤ) → Call Station (List (Balance ℤ))
retry try w = last_try (try w)

abbrev passes : List Pass
passes =
    record {
      target = record { venue = "kraken"; account = spot };
      id = "c1";
      taken_at = 5;
      canceled = false;
      canceled_later = false;
    }
    ∷ record {
      target = record { venue = "kraken"; account = margin };
      id = "c2";
      taken_at = 6;
      canceled = false;
      canceled_later = false;
    }
    ∷ []

abbrev nothing_yet : Station
nothing_yet = record { series = record { buffer = []; sent = [] }; session = session []; bus = [] }

venue-Leaves :
    (acct : AccountType) (w : Station) → Leaves seen_here w (retry (fetch venue acct) w).1
unfolding fetch is
venue-Leaves spot w = (refl, (λ x h. h))
venue-Leaves funding w = (refl, (λ x h. h))
venue-Leaves unified w = (refl, (λ x h. h))
venue-Leaves margin w = (refl, (λ x h. h))
venue-Leaves (unknown s) w = (refl, (λ x h. h))

only_venue :
    (b : Bool) (ex : Exchange Station ℤ)
    → registered (if b then some venue else none) ≡ ok ex
    → venue ≡ ex
only_venue true ex h = cc
only_venue false ex h = absurd (cc)

fetch-Leaves :
    (v : VenueId) (ex : Exchange Station ℤ) (acct : AccountType) (w : Station)
    → get_venue registry v ≡ ok ex
    → Leaves seen_here w (retry (fetch ex acct) w).1
unfolding get_venue new_registry register_all register venue_entry
fetch-Leaves v ex acct w h =
    subst (λ x. Leaves seen_here w (retry (fetch x acct) w).1) (only_venue (str_eq "kraken" v) ex h)
      (venue-Leaves acct w)

poll-IsAnchored_example : IsAnchored seen_here (
    poll
      (new_snapshot_service whole sender publish registry retry (λ e. "error"))
      passes
      nothing_yet)
poll-IsAnchored_example =
    poll-IsAnchored whole sender publish (λ w. w.buffer) (λ w. w.sent) sender-Documented registry
      retry (λ e. "error") fetch-Leaves passes nothing_yet tt
