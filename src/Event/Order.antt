-- ===== src/Event/Order.antt =====
-- Emitting, delivering and subscribing in any order (zb_subscribe.c).
use mathlib.Core.List.{append-nil, append_assoc}
use zigbee_hub.Base.{
  ℕ, suc, ◌+◌, ◌-◌, ◌≤◌, ◌≡◌, refl, sym, ap, ◌∙◌, ◌≢◌, ◌⊎◌, inl, inr, true, false, ◌&&◌, List, [],
  ◌∷◌, ◌++◌, arith, length, length-append, ltb, ◌==◌, if◌then◌else◌, ok, Bool-cases, All,
}
use zigbee_hub.Event.{
  Bus, Event, Call, emit, notify, notify_next, subscribe, unsubscribe, store_row, event_type_max,
  notify_queue_depth,
}
use zigbee_hub.Event.Delivery.{call, deliveries, subscribe-deliveries}
use zigbee_hub.Event.Listener.{
  calls_of, expected, expected-append, calls_of-append, calls_of-Inserted_self, Listens,
  notify_first, subscribes-Listens, unsubscribes-Listens, subscribe_whole,
}

-- What the tasks of the hub do to the bus; each call runs under the mutex or on the queue.
pub data Act : Type 0 where
  emits : Event → Act
  notifies : Act
  subscribes : ℕ → ℕ → ℕ → Act
  unsubscribes : ℕ → ℕ → Act

unfoldable pub act : Act → Bus → List Call × Bus
act (emits event) b = ([], emit event b)
act notifies b = notify b
act (subscribes t cb ctx) b = ([], (subscribe b t cb ctx).1)
act (unsubscribes t cb) b = ([], (unsubscribe b t cb).1)

-- A history: the calls that it makes, in order, and the bus that it leaves.
unfoldable pub acts_on : List Act → Bus → List Call × Bus
acts_on [] b = ([], b)
acts_on (a ∷ acts) b =
    let (here, b1) = act a b in let (later, b2) = acts_on acts b1 in (here ++ later, b2)

-- The events that find room, by a count of those that wait.
pub accepted : ℕ → List Act → List Event
accepted n [] = []
accepted n (emits event ∷ acts) =
    let more = event ∷ accepted (n + 1) acts in
    let same = accepted n acts in
    if ltb event.type event_type_max && ltb n notify_queue_depth then more else same
accepted n (notifies ∷ acts) = accepted (n - 1) acts
accepted n (subscribes t cb ctx ∷ acts) = accepted n acts
accepted n (unsubscribes t cb ∷ acts) = accepted n acts

-- Nobody subscribes or unsubscribes the callback.
abbrev pub Leaves : ℕ → Act → Type 0
Leaves cb (subscribes t other ctx) = other ≢ cb
Leaves cb (unsubscribes t other) = other ≢ cb
Leaves cb _ = Unit {0}

emit_cases :
    (b : Bus) (event : Event)
    → let room = ltb event.type event_type_max && ltb (length b.notify_queue) notify_queue_depth in
      ((room ≡ true) × (emit event b ≡ record b { notify_queue = b.notify_queue ++ event ∷ [] }))
      ⊎ ((room ≡ false) × (emit event b ≡ b))
unfolding emit
emit_cases b event = ground arith

notify_none : (b : Bus) → b.notify_queue ≡ [] → notify b ≡ ([], b)
unfolding notify notify_next
notify_none b e = simp e

subscribe_queue : (b : Bus) (t cb ctx : ℕ) → (subscribe b t cb ctx).1.notify_queue ≡ b.notify_queue
unfolding subscribe store_row
subscribe_queue b t cb ctx = ground arith

unsubscribe_queue : (b : Bus) (t cb : ℕ) → (unsubscribe b t cb).1.notify_queue ≡ b.notify_queue
unfolding unsubscribe
unsubscribe_queue b t cb = ground arith

List-cases : {A : Type 0} (xs : List A) → (xs ≡ []) ⊎ ((x : A) × (rest : List A) × (xs ≡ x ∷ rest))
List-cases [] = inl refl
List-cases (x ∷ rest) = inr (x, rest, refl)

module _ (t cb ctx : ℕ) where
  -- What waits and what will find room, as the subscriber sees it.
  abbrev ahead : List Act → Bus → List Call
  ahead acts b = expected t cb ctx (b.notify_queue ++ accepted (length b.notify_queue) acts)

  act-Listens :
      (a : Act) (b : Bus) → Leaves cb a → Listens t cb ctx b → Listens t cb ctx (act a b).1
  unfolding act
  act-Listens (emits event) b a l = elim (emit_cases b event) [
    | inl (room, e) ↦ rw e (record { whole = l.whole; hears = l.hears })
    | inr (full, e) ↦ rw e l
  ]
  act-Listens notifies b a l = elim (List-cases b.notify_queue) [
    | inl e ↦ rw (notify_none b e) l
    | inr (event, rest, e) ↦
        rw (notify_first b event rest e l.whole) (record { whole = l.whole; hears = l.hears })
  ]
  act-Listens (subscribes t' other ctx') b a l = subscribes-Listens t cb ctx b t' other ctx' a l
  act-Listens (unsubscribes t' other) b a l = unsubscribes-Listens t cb ctx b t' other a l

  act-ahead :
      (a : Act) (acts : List Act) (b : Bus)
      → Listens t cb ctx b
      → ahead (a ∷ acts) b ≡ calls_of cb (act a b).0 ++ ahead acts (act a b).1
  unfolding act accepted calls_of
  act-ahead (emits event) acts b l = elim (emit_cases b event) [
    | inl (room, e) ↦ rw (room, e, length-append b.notify_queue (event ∷ []), append_assoc) refl
    | inr (full, e) ↦ rw (full, e) refl
  ]
  act-ahead notifies acts b l = elim (List-cases b.notify_queue) [
    | inl e ↦ rw (notify_none b e, e) refl
    | inr (event, rest, e) ↦
        let less : suc (length rest) - 1 ≡ length rest = omega arith in
        let left = rest ++ accepted (length rest) acts in
        rw (notify_first b event rest e l.whole) (
          ap (λ q. expected t cb ctx (q ++ accepted (length q - 1) acts)) e
          ∙ ap (λ n. expected t cb ctx (event ∷ rest ++ accepted n acts)) less
          ∙ expected-append t cb ctx (event ∷ []) left
          ∙ ap (λ cs. cs ++ expected t cb ctx left) (sym (l.hears event)))
  ]
  act-ahead (subscribes t' other ctx') acts b l =
      ap (λ q. expected t cb ctx (q ++ accepted (length q) acts))
        (sym (subscribe_queue b t' other ctx'))
  act-ahead (unsubscribes t' other) acts b l =
      ap (λ q. expected t cb ctx (q ++ accepted (length q) acts))
        (sym (unsubscribe_queue b t' other))

  in_order :
      (acts : List Act) (b : Bus)
      → Listens t cb ctx b
      → All (Leaves cb) acts
      → ahead acts b
        ≡ calls_of cb (acts_on acts b).0 ++ expected t cb ctx (acts_on acts b).1.notify_queue
  unfolding acts_on accepted calls_of
  in_order [] b l a = ap (expected t cb ctx) (append-nil b.notify_queue)
  in_order (x ∷ acts) b l a =
      let (here, b1) = act x b in
      let (later, b2) = acts_on acts b1 in
      let waiting = expected t cb ctx b2.notify_queue in
      act-ahead x acts b l
      ∙ ap (◌++◌ (calls_of cb here)) (in_order acts b1 (act-Listens x b a.0 l) a.1)
      ∙ sym (append_assoc (calls_of cb here) (calls_of cb later) waiting)
      ∙ ap (λ cs. cs ++ waiting) (sym (calls_of-append cb here later))

  started :
      (b b0 : Bus)
      → length b.table ≡ event_type_max
      → ((event : Event) → calls_of cb (deliveries b event) ≡ [])
      → subscribe b t cb ctx ≡ (ok, b0)
      → Listens t cb ctx b0
  unfolding expected
  started b b0 whole quiet done =
      let changed = subscribe-deliveries b b0 t cb ctx whole done in
      record {
        whole = subscribe_whole b b0 t cb ctx done ∙ whole;
        hears = λ event. elim (Bool-cases (event.type == t)) [
          | inl here ↦ rw here (
              calls_of-Inserted_self cb (call cb event ctx) (deliveries b event)
                (deliveries b0 event) refl (quiet event) (changed.0 event (ground arith)))
          | inr there ↦ rw there (ap (calls_of cb) (changed.1 event (ground arith)) ∙ quiet event)
        ];
      }

waits-act :
    (a : Act) (b : Bus)
    → length b.notify_queue ≤ notify_queue_depth
    → length (act a b).1.notify_queue ≤ notify_queue_depth
unfolding act emit notify notify_next
waits-act (emits event) b few = ground (arith, length-append b.notify_queue (event ∷ []))
waits-act notifies b few = elim (List-cases b.notify_queue) [
  | inl e ↦ rw (notify_none b e) few
  | inr (event, rest, e) ↦ rw (e, notify_next) (omega (arith, ap (length {A = Event}) e))
]
waits-act (subscribes t cb ctx) b few = rw (subscribe_queue b t cb ctx) few
waits-act (unsubscribes t cb) b few = rw (unsubscribe_queue b t cb) few

waits :
    (acts : List Act) (b : Bus)
    → length b.notify_queue ≤ notify_queue_depth
    → length (acts_on acts b).1.notify_queue ≤ notify_queue_depth
unfolding acts_on
waits [] b few = few
waits (a ∷ acts) b few = waits acts (act a b).1 (waits-act a b few)

-- A new subscriber hears every accepted event of its type exactly once, in the order in which they
-- were emitted. The callback is in no active slot, no event waits and the subscription succeeds;
-- then whatever is emitted, delivered, subscribed and unsubscribed for other callbacks, in any
-- order: the calls of the callback so far, each with its context, followed by one for each event of
-- its type that still waits, are one for each accepted event of its type. Accepted are the events
-- of known types at which fewer than 32 wait, and never do more than 32.
pub acts_on-in_order :
    (b b0 : Bus) (t cb ctx : ℕ) (acts : List Act)
    → length b.table ≡ event_type_max
    → b.notify_queue ≡ []
    → ((event : Event) → calls_of cb (deliveries b event) ≡ [])
    → subscribe b t cb ctx ≡ (ok, b0)
    → All (Leaves cb) acts
    → (expected t cb ctx (accepted 0 acts)
        ≡ calls_of cb (acts_on acts b0).0 ++ expected t cb ctx (acts_on acts b0).1.notify_queue)
      × (length (acts_on acts b0).1.notify_queue ≤ notify_queue_depth)
acts_on-in_order b b0 t cb ctx acts whole none_waits quiet done others =
    let l = started t cb ctx b b0 whole quiet done in
    let empty : b0.notify_queue ≡ [] =
      (subscribe-deliveries b b0 t cb ctx whole done).2 ∙ none_waits in
    (
      ap (λ q. expected t cb ctx (q ++ accepted (length q) acts)) (sym empty)
          ∙ in_order t cb ctx acts b0 l others,
      waits acts b0 (omega (arith, ap (length {A = Event}) empty)),
    )
