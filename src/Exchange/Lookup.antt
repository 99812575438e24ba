-- ===== src/Exchange/Lookup.antt =====
-- internal/exchange/registry.go: which exchange a venue resolves to.
use delta_works.Base.{
  ◌≡◌, ap, true, List, [], ◌∷◌, Option, none, some, if◌then◌else◌, str_eq, eq_iff, arith, find, inl,
  inr, Option-cases,
}
use delta_works.Domain.Instrument.{VenueId}
use delta_works.Exchange.{
  Exchange, Registry, venue_entry, register, register_all, new_registry, get_venue, registered,
}

abbrev pub or_else : {A : Type 0} → Option A → Option A → Option A
or_else none b = b
or_else (some a) b = some a

module _ {W D : Type 0} where
  entry_at :
      (r : Registry W D) (a b : VenueId) (o : Option (Exchange W D))
      → venue_entry a r.by_id ≡ o
      → str_eq a b ≡ true
      → venue_entry b r.by_id ≡ o
  entry_at r a b o h e = rw (← ((eq_iff a b).0 e)) h

  -- Registering an exchange adds it under its venue, unless the venue is there.
  register_entry :
      (r : Registry W D) (ex : Exchange W D) (v : VenueId)
      → venue_entry v (register r ex).by_id
        ≡ or_else (venue_entry v r.by_id) (if str_eq ex.id v then some ex else none)
  unfolding register venue_entry
  register_entry r ex v = elim (Option-cases (venue_entry ex.id r.by_id)) [
    | inl e ↦ ground (arith, entry_at r ex.id v none e)
    | inr (a, e) ↦ ground (arith, entry_at r ex.id v (some a) e)
  ]

  register_all_entry :
      (r : Registry W D) (exs : List (Exchange W D)) (v : VenueId)
      → venue_entry v (register_all r exs).by_id
        ≡ or_else (venue_entry v r.by_id) (find (λ ex. str_eq ex.id v) exs)
  unfolding register_all find
  register_all_entry r [] v = ground arith
  register_all_entry r (ex ∷ exs) v =
      ground (arith, register_all_entry (register r ex) exs v, register_entry r ex v)

  -- A registry made of any list of exchanges, venues listed twice included, resolves a venue to the
  -- first exchange of the list that has it, and to the error that it is not registered when no
  -- exchange of the list has it.
  pub get_venue-new_registry :
      (exs : List (Exchange W D)) (v : VenueId)
      → get_venue (new_registry exs) v ≡ registered (find (λ ex. str_eq ex.id v) exs)
  unfolding get_venue new_registry venue_entry
  get_venue-new_registry exs v =
      ap registered (register_all_entry (record { by_id = []; order = [] }) exs v)
