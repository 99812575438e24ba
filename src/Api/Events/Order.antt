-- ===== src/Api/Events/Order.antt =====
-- internal/api/events.go: which events a client of the stream sees, and in which order.
use mathlib.Core.List.{append_assoc, append-nil}
use delta_works.Base.{
  ◌≤◌, ◌≡◌, refl, sym, ap, ◌∙◌, Bool, true, false, List, [], ◌∷◌, ◌++◌, Option, none, some, String,
  if◌then◌else◌, length, length-append, ltb, ltb→lt, arith, Bool-cases, inl, inr,
}
use delta_works.Bus.{BusEvent}
use delta_works.Bus.Ordering.{Within, done, skip, same, Within-skip_last, Within-same_last}
use delta_works.Api.Events.{
  EventPayload, EventCodec, ProtoEvent, to_proto_event, EventStream, StreamInput, arrive, serve,
  disconnect, stream_buffer, new_stream, buffered, deal, take_one, stream_events,
}

module _ {A : Type 0} where
  Within-tail : {x : A} {xs ys : List A} → Within (x ∷ xs) ys → Within xs ys
  Within-tail (skip w) = skip (Within-tail w)
  Within-tail (same w) = skip w

  Within-drop :
      (xs : List A) (x : A) (ys zs : List A) → Within (xs ++ x ∷ ys) zs → Within (xs ++ ys) zs
  Within-drop [] x ys zs w = Within-tail w
  Within-drop (y ∷ xs) x ys [] w = elim w [ ]
  Within-drop (y ∷ xs) x ys (z ∷ zs) (skip w) = skip (Within-drop (y ∷ xs) x ys zs w)
  Within-drop (y ∷ xs) x ys (z ∷ zs) (same w) = same (Within-drop xs x ys zs w)

module _ {D : Type 0} where
  -- The events that the bus hands over, in their order.
  abbrev pub arrivals : List (StreamInput D) → List (BusEvent (EventPayload D))
  arrivals [] = []
  arrivals (arrive e ∷ is) = e ∷ arrivals is
  arrivals (_ ∷ is) = arrivals is

module _ {D : Type 0} (codec : EventCodec D) where
  abbrev pub messages : Option ProtoEvent → List ProtoEvent
  messages none = []
  messages (some m) = m ∷ []

  abbrev pub complaints : BusEvent (EventPayload D) → Option ProtoEvent → List String
  complaints e none = e.subject ∷ []
  complaints e (some m) = []

  -- The messages of some events, and the subjects of those that have none.
  abbrev pub translated : List (BusEvent (EventPayload D)) → List ProtoEvent
  translated [] = []
  translated (e ∷ es) = messages (to_proto_event codec e) ++ translated es

  abbrev pub untranslated : List (BusEvent (EventPayload D)) → List String
  untranslated [] = []
  untranslated (e ∷ es) = complaints e (to_proto_event codec e) ++ untranslated es

  abbrev pub Serves : List (BusEvent (EventPayload D)) → EventStream D → Type 0
  Serves past s =
      Within (s.served ++ s.waiting) past
      × (s.sent ≡ translated s.served)
      × (s.malformed ≡ untranslated s.served)
      × (length s.waiting ≤ stream_buffer)

  translated-snoc :
      (es : List (BusEvent (EventPayload D))) (e : BusEvent (EventPayload D))
      → translated (es ++ e ∷ []) ≡ translated es ++ messages (to_proto_event codec e)
  translated-snoc [] e = append-nil _
  translated-snoc (x ∷ es) e =
      ap (λ l. messages (to_proto_event codec x) ++ l) (translated-snoc es e)
      ∙ sym (append_assoc (messages (to_proto_event codec x)) _ _)

  untranslated-snoc :
      (es : List (BusEvent (EventPayload D))) (e : BusEvent (EventPayload D))
      → untranslated (es ++ e ∷ []) ≡ untranslated es ++ complaints e (to_proto_event codec e)
  untranslated-snoc [] e = append-nil _
  untranslated-snoc (x ∷ es) e =
      ap (λ l. complaints x (to_proto_event codec x) ++ l) (untranslated-snoc es e)
      ∙ sym (append_assoc (complaints x (to_proto_event codec x)) _ _)

  buffered-Serves :
      (past : List (BusEvent (EventPayload D))) (e : BusEvent (EventPayload D)) (s : EventStream D)
      → Serves past s
      → Serves (past ++ e ∷ []) (buffered e s)
  buffered-Serves past e s (w, a, b, n) = elim (Bool-cases (ltb (length s.waiting) stream_buffer)) [
    | inl k ↦ rw k (
      rw (← (append_assoc s.served s.waiting (e ∷ []))) (Within-same_last e w),
      a,
      b,
      omega (arith, length-append s.waiting (e ∷ []), ltb→lt (length s.waiting) stream_buffer k),
    )
    | inr k ↦ rw k (Within-skip_last e w, a, b, n)
  ]

  fewer :
      (e : BusEvent (EventPayload D)) (rest : List (BusEvent (EventPayload D))) (s : EventStream D)
      → s.waiting ≡ e ∷ rest
      → length s.waiting ≤ stream_buffer
      → length rest ≤ stream_buffer
  fewer e rest s k n = omega (arith, rw k at n)

  deal-Serves :
      (past : List (BusEvent (EventPayload D))) (e : BusEvent (EventPayload D))
      (rest : List (BusEvent (EventPayload D))) (sends : Bool) (o : Option ProtoEvent)
      (s : EventStream D)
      → to_proto_event codec e ≡ o
      → s.waiting ≡ e ∷ rest
      → Serves past s
      → Serves past (deal e rest sends o s)
  deal-Serves past e rest sends none s h k (w, a, b, n) = (
    rw (append_assoc s.served (e ∷ []) rest) (rw k at w),
    a
        ∙ sym (append-nil _)
        ∙ sym (translated-snoc s.served e ∙ ap (λ o. translated s.served ++ messages o) h),
    ap (λ l. l ++ e.subject ∷ []) b
        ∙ sym (untranslated-snoc s.served e ∙ ap (λ o. untranslated s.served ++ complaints e o) h),
    fewer e rest s k n,
  )
  deal-Serves past e rest true (some m) s h k (w, a, b, n) = (
    rw (append_assoc s.served (e ∷ []) rest) (rw k at w),
    ap (λ l. l ++ m ∷ []) a
        ∙ sym (translated-snoc s.served e ∙ ap (λ o. translated s.served ++ messages o) h),
    b
        ∙ sym (append-nil _)
        ∙ sym (untranslated-snoc s.served e ∙ ap (λ o. untranslated s.served ++ complaints e o) h),
    fewer e rest s k n,
  )
  deal-Serves past e rest false (some m) s h k (w, a, b, n) =
      (Within-drop s.served e rest past (rw k at w), a, b, fewer e rest s k n)

  take_one-Serves :
      (past waiting : List (BusEvent (EventPayload D))) (sends : Bool) (s : EventStream D)
      → s.waiting ≡ waiting
      → Serves past s
      → Serves past (take_one codec sends waiting s)
  take_one-Serves past [] sends s k h = h
  take_one-Serves past (e ∷ rest) sends s k h =
      deal-Serves past e rest sends (to_proto_event codec e) s refl k h

  -- A stream that has stopped keeps what it has, whatever arrives later.
  later-Serves :
      (past : List (BusEvent (EventPayload D))) (is : List (StreamInput D)) (s : EventStream D)
      → Serves past s
      → Serves (past ++ arrivals is) s
  later-Serves past [] s h = rw (append-nil past) h
  later-Serves past (arrive e ∷ is) s (w, a, b, n) =
      rw (← (append_assoc past (e ∷ []) (arrivals is)))
        (later-Serves (past ++ e ∷ []) is s (Within-skip_last e w, a, b, n))
  later-Serves past (serve sends ∷ is) s h = later-Serves past is s h
  later-Serves past (disconnect ∷ is) s h = later-Serves past is s h

  whichever :
      (past : List (BusEvent (EventPayload D))) (b : Bool) (s t : EventStream D)
      → Serves past s
      → Serves past t
      → Serves past (if b then s else t)
  whichever past true s t h k = h
  whichever past false s t h k = k

  stream-Serves :
      (past : List (BusEvent (EventPayload D))) (is : List (StreamInput D)) (s : EventStream D)
      → Serves past s
      → Serves (past ++ arrivals is) (stream_events codec is s)
  unfolding stream_events
  stream-Serves past [] s h = rw (append-nil past) h
  stream-Serves past (arrive e ∷ is) s h =
      whichever _ s.is_running _ s
        (rw (← (append_assoc past (e ∷ []) (arrivals is)))
          (stream-Serves (past ++ e ∷ []) is (buffered e s) (buffered-Serves past e s h)))
        (later-Serves past (arrive e ∷ is) s h)
  stream-Serves past (serve sends ∷ is) s h =
      whichever _ s.is_running _ s
        (stream-Serves past is (take_one codec sends s.waiting s)
          (take_one-Serves past s.waiting sends s refl h))
        (later-Serves past is s h)
  stream-Serves past (disconnect ∷ is) s h =
      whichever _ s.is_running _ s (stream-Serves past is (record s { is_running = false }) h)
        (later-Serves past is s h)

  -- Over any sequence of events from the bus, turns of the loop and disconnects, a stream deals with the
  -- events in the order in which they came: it sends the messages of those that have one, counts the
  -- subjects of the others as malformed, and never holds more than 64 that it has not dealt with. Events
  -- that come while 64 wait, or after the end, and one whose send fails, are left out.
  pub stream_in_order :
      (is : List (StreamInput D)) → Serves (arrivals is) (stream_events codec is new_stream)
  stream_in_order is = stream-Serves [] is new_stream (done, refl, refl, omega (arith))
