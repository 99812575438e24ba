-- ===== src/Api/Orders/Filters.antt =====
-- internal/api/orders.go under internal/adapters/postgres: which rows the filter of a request lets through.
use mathlib.Core.Path.{ap₂}
use delta_works.Base.{
  ℕ, ◌≡◌, refl, sym, ap, ◌∙◌, Bool, true, false, ◌&&◌, ◌||◌, List, [], ◌∷◌, some, String,
  if◌then◌else◌, str_eq, eq_iff, any, sort, insert_sorted, map, arith, Bool-cases, inl, inr,
}
use delta_works.Decimal.{Decimals}
use delta_works.Domain.Order.{
  Status, pending, open_order, partially_filled, filled, canceled, rejected, expired, same_status,
  Query,
}
use delta_works.Postgres.Schema.{OrderRow}
use delta_works.Postgres.OrderMethods.{
  is_or_null, statuses_or_all, past_cursor, newer, matches_query, order_record,
}
use delta_works.Api.Orders.{Codec, ProtoStatus, from_proto_order_status}
use delta_works.Api.Orders.Listing.{
  ListOrdersRequest, compact, filter_statuses, unless_empty, earlier_text, order_filter,
  with_cursor, token_of,
}

abbrev pub is_nil : {A : Type 0} → List A → Bool
is_nil [] = true
is_nil (x ∷ l) = false

same_status_eq : (a b : Status) → same_status a b ≡ true → a ≡ b
same_status_eq pending b h = ground arith
same_status_eq open_order b h = ground arith
same_status_eq partially_filled b h = ground arith
same_status_eq filled b h = ground arith
same_status_eq canceled b h = ground arith
same_status_eq rejected b h = ground arith
same_status_eq expired b h = ground arith
same_status_eq (Status.unknown s) (Status.unknown t) h = ap Status.unknown ((eq_iff s t).0 h)
same_status_eq (Status.unknown s) pending h = absurd (cc)
same_status_eq (Status.unknown s) open_order h = absurd (cc)
same_status_eq (Status.unknown s) partially_filled h = absurd (cc)
same_status_eq (Status.unknown s) filled h = absurd (cc)
same_status_eq (Status.unknown s) canceled h = absurd (cc)
same_status_eq (Status.unknown s) rejected h = absurd (cc)
same_status_eq (Status.unknown s) expired h = absurd (cc)

module _ {A : Type 0} (p : A → Bool) (less : A → A → Bool) where
  any-insert_sorted : (x : A) (l : List A) → any p (insert_sorted less x l) ≡ any p (x ∷ l)
  unfolding insert_sorted any
  any-insert_sorted x [] = refl
  any-insert_sorted x (y ∷ l) = elim (Bool-cases (less y x)) [
    | inr e ↦ rw e refl
    | inl e ↦ rw (e, any-insert_sorted x l) (swapped (p x) (p y) (any p l))
  ]
    where
      swapped :
          (a b c : Bool)
          → (if b then true else (if a then true else c))
            ≡ (if a then true else (if b then true else c))
      swapped true true c = refl
      swapped true false c = refl
      swapped false true c = refl
      swapped false false c = refl

  -- Sorting loses and adds nothing.
  any-sort : (l : List A) → any p (sort less l) ≡ any p l
  unfolding sort any
  any-sort [] = refl
  any-sort (x ∷ l) =
      any-insert_sorted x (sort less l) ∙ ap (λ c. if p x then true else c) (any-sort l)

  is_nil-insert : (x : A) (l : List A) → is_nil (insert_sorted less x l) ≡ false
  unfolding insert_sorted
  is_nil-insert x [] = refl
  is_nil-insert x (y ∷ l) = elim (Bool-cases (less y x)) [ inl e ↦ rw e refl | inr e ↦ rw e refl ]

  is_nil-sort : (l : List A) → is_nil (sort less l) ≡ is_nil l
  unfolding sort
  is_nil-sort [] = refl
  is_nil-sort (x ∷ l) = is_nil-insert x (sort less l)

-- The first of equal neighbours stays, so the head stays.
compact-head : (a : Status) (l : List Status) → (t : List Status) × (compact (a ∷ l) ≡ a ∷ t)
unfolding compact
compact-head a [] = ([], refl)
compact-head a (b ∷ l) =
    let (t, e) = compact-head b l in
    elim (Bool-cases (same_status a b)) [
      | inl s ↦ (t, rw (s, e) refl)
      | inr s ↦ (compact (b ∷ l), rw s refl)
    ]

said_twice : (b c : Bool) → (if b then true else c) ≡ (if b then true else (if b then true else c))
said_twice true c = refl
said_twice false c = refl

any-compact :
    (s : Status) (l : List Status) → any (same_status s) (compact l) ≡ any (same_status s) l
unfolding compact any
any-compact s [] = refl
any-compact s (a ∷ []) = refl
any-compact s (a ∷ b ∷ l) =
    let (t, e) = compact-head b l in
    let rest : any (same_status s) (b ∷ t) ≡ any (same_status s) (b ∷ l) =
      ap (any (same_status s)) (sym e) ∙ any-compact s (b ∷ l) in
    elim (Bool-cases (same_status a b)) [
      | inr d ↦ rw d (ap (λ c. if same_status s a then true else c) (any-compact s (b ∷ l)))
      | inl d ↦ rw (d, e, same_status_eq a b d) (rest ∙ said_twice (same_status s b) _)
    ]

is_nil-compact : (l : List Status) → is_nil (compact l) ≡ is_nil l
unfolding compact
is_nil-compact [] = refl
is_nil-compact (a ∷ l) = ap is_nil (compact-head a l).1

any-map :
    {A B : Type 0} (p : B → Bool) (f : A → B) (l : List A) → any p (map f l) ≡ any (λ x. p (f x)) l
unfolding any
any-map p f [] = refl
any-map p f (x ∷ l) = ap (λ c. if p (f x) then true else c) (any-map p f l)

is_nil-map : {A B : Type 0} (f : A → B) (l : List A) → is_nil (map f l) ≡ is_nil l
is_nil-map f [] = refl
is_nil-map f (x ∷ l) = refl

-- The texts and statuses that a filter asks for: an empty one asks for nothing.
abbrev pub asked_for : (want have : String) → Bool
asked_for want have = str_eq want "" || str_eq have want

abbrev pub status_asked_for : List ProtoStatus → Status → Bool
status_asked_for l s = is_nil l || any (λ p. same_status s (from_proto_order_status p)) l

unless_empty_asks : (want have : String) → is_or_null (unless_empty want) have ≡ asked_for want have
unless_empty_asks want have = elim (Bool-cases (str_eq want "")) [
  | inl e ↦ rw e refl
  | inr e ↦ rw e refl
]

filter_statuses_asks :
    (l : List ProtoStatus) (s : Status)
    → (is_nil (filter_statuses l) || any (same_status s) (filter_statuses l)) ≡ status_asked_for l s
unfolding filter_statuses
filter_statuses_asks l s =
    ap₂ (λ x y. x || y)
      (is_nil-compact _ ∙ is_nil-sort (same_status s) earlier_text _ ∙ is_nil-map _ l)
      (any-compact s _
        ∙ any-sort (same_status s) earlier_text _
        ∙ any-map (same_status s) from_proto_order_status l)

module _ {D : Type 0} where
  past_cursor-newer :
      (r x : OrderRow D) → past_cursor (some r.created_at) (some r.client_order_id) x ≡ newer r x
  past_cursor-newer r x = ground arith

  statuses_match :
      (q : Query) (l : List Status) (x : OrderRow D)
      → matches_query (statuses_or_all (record q { statuses = some l })) x
        ≡ is_or_null q.venue x.venue
          && (is_nil l || any (same_status x.status) l)
          && is_or_null q.bot_id x.bot_id
          && past_cursor q.cursor_created_at q.cursor_id x
  statuses_match q [] x = refl
  statuses_match q (s ∷ l) x = refl

  -- A row of the filter of a request: its venue, its status and its bot are asked for.
  abbrev pub in_filter : Codec → ListOrdersRequest → OrderRow D → Bool
  in_filter codec req x =
      asked_for (codec.trim req.venue) x.venue
      && status_asked_for req.statuses x.status
      && asked_for (codec.trim req.bot_id) x.bot_id

module _ {D : Type 0} ⦃dec : Decimals D⦄ where
  -- The query of a filter behind a row selects the rows of the filter that are listed after that row.
  pub cursor_selects :
      (codec : Codec) (req : ListOrdersRequest) (limit : ℕ) (digest : String) (r x : OrderRow D)
      → matches_query
          (statuses_or_all
            (with_cursor (order_filter codec req limit) (token_of (order_record r) digest)))
          x
        ≡ (in_filter codec req x && newer r x)
  unfolding order_filter
  cursor_selects codec req limit digest r x =
      statuses_match (with_cursor (order_filter codec req limit) (token_of (order_record r) digest))
        (filter_statuses req.statuses) x
      ∙ ap₂ (λ a b. a && b)
          (ap₂ (λ a b. a && b)
            (ap₂ (λ a b. a && b) (unless_empty_asks (codec.trim req.venue) x.venue)
              (filter_statuses_asks req.statuses x.status))
            (unless_empty_asks (codec.trim req.bot_id) x.bot_id))
          (past_cursor-newer r x)
