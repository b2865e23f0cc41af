-- ===== src/Notifier/Counts.antt =====
-- Which messages the notifier takes as processed, and how often it sends its statistics.
use mathlib.Core.List.{append-nil, append_assoc}
use pvz_service.Base.{
  ℕ, ◌+◌, ◌-◌, ◌*◌, ◌/◌, ◌%◌, ◌^◌, ◌≤◌, ◌<◌, ◌≡◌, refl, sym, ap, ◌∙◌, ◌≢◌, ◌↔◌, inl, inr, Bool,
  true, false, Option, none, some, List, [], ◌∷◌, ◌++◌, map, arith, if◌then◌else◌, Bool-cases,
  Option-cases, length, filterb, total, total-append,
}
use pvz_service.Base.Text.{Text, text_eq_iff}
use pvz_service.Db.World.{Result, err, ok}
use pvz_service.Notifier.{
  Arrival, arrived, channel_closed, session_done, Incoming, Message, Sent, notify_statistics,
  validate_event, EventHandler, decoded, mark, handle_event, statistics_due, Consumer,
  consume_claim, handle_message,
}

-- All that `validateEvent` asks for is there.
abbrev pub IsFilled : Incoming → Type 0
IsFilled event =
    ((event.event_id ≢ []) × ((event.event_type ≢ []) × (event.source ≢ [])))
    × ((event.order_id ≢ 0) × (event.user_id ≢ 0))

validate_event-IsFilled : (event : Incoming) → (validate_event event ≡ none) ↔ IsFilled event
unfolding validate_event
validate_event-IsFilled event = ground (
  arith,
  text_eq_iff event.event_id [],
  text_eq_iff event.event_type [],
  text_eq_iff event.source [],
)

abbrev nothing_missing : Option Text → Bool
nothing_missing none = true
nothing_missing (some missing) = false

abbrev pub is_statistics : Sent → ℕ
is_statistics (notify_statistics n type) = 1
is_statistics _ = 0

-- The messages of a claim: those up to the first end of it.
abbrev pub claimed : List Arrival → List Message
claimed [] = []
claimed (channel_closed ∷ arrivals) = []
claimed (session_done ∷ arrivals) = []
claimed (arrived message ∷ arrivals) = message ∷ claimed arrivals

joined :
    (before now rest whole : List ℕ) (x : ℕ)
    → now ≡ before ++ x ∷ []
    → whole ≡ now ++ rest
    → whole ≡ before ++ x ∷ rest
joined before now rest whole x e h = rw (h, e) (append_assoc before (x ∷ []) rest)

module _ (decode : Text → Result Incoming) where
  -- Whether a message holds an event that passes the validation.
  abbrev is_valid : Result Incoming → Bool
  is_valid (err e) = false
  is_valid (ok event) = nothing_missing (validate_event event)

  abbrev pub valid_messages : List Message → List Message
  valid_messages messages = filterb (λ m. is_valid (decode m.value)) messages

  abbrev if_valid : Result Incoming → ℕ
  if_valid r = if is_valid r then 1 else 0

  -- One message: it is counted exactly if it is valid, and the multiples of fifty that the count
  -- reaches are among the statistics sent.
  abbrev Handled : EventHandler → ℕ → List Sent × EventHandler → Type 0
  Handled h n (sent, h') =
      (h'.processed_count ≡ (h.processed_count + n) % 2 ^ 64)
      × (h.processed_count + n < 2 ^ 64
          → h'.processed_count / 50 ≤ h.processed_count / 50 + total is_statistics sent)

  handle_event-Handled :
      (message : Message) (event : Incoming) (h : EventHandler)
      → Handled h 1 (handle_event message event h)
  unfolding handle_event statistics_due
  handle_event-Handled message event h = ground arith

  decoded-Handled :
      (message : Message) (h : EventHandler) (r : Result Incoming)
      → h.processed_count < 2 ^ 64
      → Handled h (if_valid r) (decoded decode message h r).1
  decoded-Handled message h (err e) fits = ground arith
  decoded-Handled message h (ok event) fits = elim (Option-cases (validate_event event)) [
    | inl valid ↦ rw valid (handle_event-Handled message event h)
    | inr (missing, invalid) ↦ rw invalid (ground arith)
  ]

  decoded-marks :
      (message : Message) (h : EventHandler) (r : Result Incoming) (before : List ℕ)
      → mark (decoded decode message h r).0 message.offset before
        ≡ (if is_valid r then before ++ message.offset ∷ [] else before)
  decoded-marks message h (err e) before = refl
  decoded-marks message h (ok event) before = elim (Option-cases (validate_event event)) [
    | inl valid ↦ rw valid refl
    | inr (missing, invalid) ↦ rw invalid refl
  ]

  abbrev offsets : List Message → List ℕ
  offsets messages = map (λ (m : Message). m.offset) messages

  -- The loop over messages alone.
  abbrev over : List Message → Consumer → Consumer
  over [] c = c
  over (message ∷ messages) c =
      let (failure, (sent, handler)) = handle_message decode message c.handler in
      over messages (record {
        handler = handler;
        sent = c.sent ++ sent;
        marked = mark failure message.offset c.marked;
      })

  over-claimed :
      (arrivals : List Arrival) (c : Consumer)
      → consume_claim decode arrivals c ≡ over (claimed arrivals) c
  unfolding consume_claim handle_message
  over-claimed [] c = refl
  over-claimed (channel_closed ∷ arrivals) c = refl
  over-claimed (session_done ∷ arrivals) c = refl
  over-claimed (arrived message ∷ arrivals) c = over-claimed arrivals _

  over-marks :
      (messages : List Message) (c : Consumer)
      → c.handler.processed_count < 2 ^ 64
      → let c' = over messages c in
        (c'.marked ≡ c.marked ++ offsets (valid_messages messages))
        × (c'.handler.processed_count
            ≡ (c.handler.processed_count + length (valid_messages messages)) % 2 ^ 64)
  unfolding handle_message
  over-marks [] c fits = (sym (append-nil c.marked), ground arith)
  over-marks (m ∷ messages) c fits =
      let handled = decoded-Handled m c.handler (decode m.value) fits in
      let (failure, (sent, handler)) = decoded decode m c.handler (decode m.value) in
      let c1 : Consumer = record {
        handler = handler;
        sent = c.sent ++ sent;
        marked = mark failure m.offset c.marked;
      } in
      let (marks, counts) = over-marks messages c1 (omega (arith, handled.0)) in
      let marked_now = decoded-marks m c.handler (decode m.value) c.marked in
      elim (Bool-cases (is_valid (decode m.value))) [
        | inl valid ↦ rw valid (
          joined c.marked _ _ _ m.offset (rw valid at marked_now) marks,
          omega (arith, rw valid at handled.0, counts),
        )
        | inr invalid ↦ rw invalid (
          marks ∙ ap (λ l. l ++ offsets (valid_messages messages)) (rw invalid at marked_now),
          omega (arith, rw invalid at handled.0, counts),
        )
      ]

  fifties :
      (messages : List Message) (c : Consumer)
      → c.handler.processed_count + length (valid_messages messages) < 2 ^ 64
      → let c' = over messages c in
        c'.handler.processed_count / 50 + total is_statistics c.sent
        ≤ c.handler.processed_count / 50 + total is_statistics c'.sent
  unfolding handle_message
  fifties [] c fits = omega arith
  fifties (m ∷ messages) c fits =
      let handled = decoded-Handled m c.handler (decode m.value) (omega arith) in
      let (failure, (sent, handler)) = decoded decode m c.handler (decode m.value) in
      let c1 : Consumer = record {
        handler = handler;
        sent = c.sent ++ sent;
        marked = mark failure m.offset c.marked;
      } in
      let later = fifties messages c1 (ground (arith, handled.0)) in
      let gap = handled.1 (ground arith) in
      omega (arith, later, gap, total-append is_statistics c.sent sent)

  -- A claim of the consumer, until its channel is closed or the session ends: the offsets marked
  -- are those of the messages seen until then that hold a valid event, in order, and the count of
  -- processed events goes up by their number, modulo 2^64.
  pub consume_claim-marks :
      (arrivals : List Arrival) (c : Consumer)
      → c.handler.processed_count < 2 ^ 64
      → let c' = consume_claim decode arrivals c in
        (c'.marked ≡ c.marked ++ offsets (valid_messages (claimed arrivals)))
        × (c'.handler.processed_count
            ≡ (c.handler.processed_count + length (valid_messages (claimed arrivals))) % 2 ^ 64)
  consume_claim-marks arrivals c fits =
      rw (over-claimed arrivals c) (over-marks (claimed arrivals) c fits)

  -- A claim of the consumer, until its channel is closed or the session ends, sends its statistics
  -- at least once in fifty valid messages, as long as the count stays below 2^64.
  pub consume_claim-statistics :
      (arrivals : List Arrival) (c : Consumer)
      → c.handler.processed_count + length (valid_messages (claimed arrivals)) < 2 ^ 64
      → let c' = consume_claim decode arrivals c in
        length (valid_messages (claimed arrivals))
        ≤ 50 * (total is_statistics c'.sent - total is_statistics c.sent) + 49
  consume_claim-statistics arrivals c fits =
      let messages = claimed arrivals in
      rw (over-claimed arrivals c)
        (omega (arith, fifties messages c fits, over-marks messages c (omega arith)))
