-- ===== src/Event/Listener.antt =====
-- A callback that is called for one type of event (zb_subscribe.c).
use mathlib.Core.Path.{subst}
use native.Mathlib.Decide.{ℕ_discrete}
use zigbee_hub.Base.{
  ℕ, zero, suc, ◌≤◌, ◌≡◌, refl, sym, ap, ◌∙◌, ◌≢◌, ◌⊎◌, inl, inr, List, [], ◌∷◌, ◌++◌, arith,
  length, length-set, get_or, leb, ◌==◌, if◌then◌else◌, ok, Bool-cases, Option-cases,
}
use zigbee_hub.Event.{
  Bus, Event, Call, calls, notify, notify_next, subscribe, unsubscribe, take_slot, clear_slot,
  store_row, event_type_max,
}
use zigbee_hub.Event.Delivery.{call, Inserted, deliveries, subscribe_ok, subscribe-deliveries}
use zigbee_hub.Event.Removal.{Cleared, unsubscribe-deliveries}

-- The calls of one callback.
unfoldable pub calls_of : ℕ → List Call → List Call
calls_of cb [] = []
calls_of cb (c ∷ cs) = let rest = calls_of cb cs in if c.cb == cb then c ∷ rest else rest

-- The calls that a subscriber of a type expects for a sequence of events: one for each event of the
-- type.
unfoldable pub expected : ℕ → ℕ → ℕ → List Event → List Call
expected t cb ctx [] = []
expected t cb ctx (event ∷ events) =
    let rest = expected t cb ctx events in
    if event.type == t then call cb event ctx ∷ rest else rest

pub calls_of-append :
    (cb : ℕ) (xs ys : List Call) → calls_of cb (xs ++ ys) ≡ calls_of cb xs ++ calls_of cb ys
unfolding calls_of
calls_of-append cb [] ys = refl
calls_of-append cb (x ∷ xs) ys = ground (arith, calls_of-append cb xs ys)

pub expected-append :
    (t cb ctx : ℕ) (xs ys : List Event)
    → expected t cb ctx (xs ++ ys) ≡ expected t cb ctx xs ++ expected t cb ctx ys
unfolding expected
expected-append t cb ctx [] ys = refl
expected-append t cb ctx (x ∷ xs) ys = ground (arith, expected-append t cb ctx xs ys)

calls_of_skip :
    (cb : ℕ) (c : Call) (cs : List Call) → c.cb ≢ cb → calls_of cb (c ∷ cs) ≡ calls_of cb cs
unfolding calls_of
calls_of_skip cb c cs ne = ground arith

calls_of_hit :
    (cb : ℕ) (c : Call) (cs : List Call) → c.cb ≡ cb → calls_of cb (c ∷ cs) ≡ c ∷ calls_of cb cs
unfolding calls_of
calls_of_hit cb c cs e = ground arith

-- Putting in a call of another callback does not show.
calls_of-Inserted :
    (cb : ℕ) (c : Call) (old new : List Call)
    → c.cb ≢ cb
    → Inserted c old new
    → calls_of cb new ≡ calls_of cb old
calls_of-Inserted cb c old new ne (xs, ys, p, q) =
    ap (calls_of cb) q
    ∙ calls_of-append cb xs (c ∷ ys)
    ∙ ap (◌++◌ (calls_of cb xs)) (calls_of_skip cb c ys ne)
    ∙ sym (calls_of-append cb xs ys)
    ∙ ap (calls_of cb) (sym p)

pub calls_of-Inserted_self :
    (cb : ℕ) (c : Call) (old new : List Call)
    → c.cb ≡ cb
    → calls_of cb old ≡ []
    → Inserted c old new
    → calls_of cb new ≡ c ∷ []
calls_of-Inserted_self cb c old new same quiet (xs, ys, p, q) =
    let split : calls_of cb xs ++ calls_of cb ys ≡ [] =
      sym (calls_of-append cb xs ys) ∙ ap (calls_of cb) (sym p) ∙ quiet in
    ap (calls_of cb) q
    ∙ calls_of-append cb xs (c ∷ ys)
    ∙ ap (◌++◌ (calls_of cb xs)) (calls_of_hit cb c ys same)
    ∙ around (calls_of cb xs) (calls_of cb ys) split
  where
    around : (us vs : List Call) → us ++ vs ≡ [] → us ++ c ∷ vs ≡ c ∷ []
    around [] vs e = ap (◌∷◌ c) e
    around (u ∷ us) vs e = cc

-- The bus has its rows, and the callback is called for the type alone, once an event.
pub record Listens (t cb ctx : ℕ) (b : Bus) : Type 0 where
  pub whole : length b.table ≡ event_type_max
  pub hears : (event : Event) → calls_of cb (deliveries b event) ≡ expected t cb ctx (event ∷ [])

pub notify_first :
    (b : Bus) (event : Event) (rest : List Event)
    → b.notify_queue ≡ event ∷ rest
    → length b.table ≡ event_type_max
    → notify b ≡ (deliveries b event, record b { notify_queue = rest })
unfolding notify notify_next
notify_first b event rest e whole = elim (Bool-cases (leb event_type_max event.type)) [
  | inr known ↦ rw (e, notify_next, known) refl
  | inl unknown ↦
      rw (e, notify_next, unknown, beyond b.table event.type (ground arith)) (unfold calls in refl)
]
  where
    beyond : {A : Type 0} (rows : List (List A)) (i : ℕ) → length rows ≤ i → get_or rows i [] ≡ []
    beyond [] i h = refl
    beyond (row ∷ rows) zero h = absurd (omega arith)
    beyond (row ∷ rows) (suc i) h = beyond rows i (omega arith)

subscribe_cases :
    (b : Bus) (t cb ctx : ℕ)
    → (subscribe b t cb ctx ≡ (ok, (subscribe b t cb ctx).1)) ⊎ ((subscribe b t cb ctx).1 ≡ b)
unfolding subscribe store_row
subscribe_cases b t cb ctx = elim (Option-cases (take_slot (get_or b.table t []) cb ctx)) [
  | inl n ↦ inr (ground arith)
  | inr (row, e) ↦ ground arith
]

pub subscribe_whole :
    (b b0 : Bus) (t cb ctx : ℕ) → subscribe b t cb ctx ≡ (ok, b0) → length b0.table ≡ length b.table
subscribe_whole b b0 t cb ctx done =
    let parts = subscribe_ok b b0 t cb ctx done in
    ap (λ (x : Bus). length x.table) parts.2 ∙ length-set b.table t parts.0

unsubscribe_whole : (b : Bus) (t cb : ℕ) → length (unsubscribe b t cb).1.table ≡ length b.table
unfolding unsubscribe
unsubscribe_whole b t cb =
    ground (arith, length-set b.table t (clear_slot (get_or b.table t []) cb))

module _ (t cb ctx : ℕ) where
  pub subscribes-Listens :
      (b : Bus) (t' other ctx' : ℕ)
      → other ≢ cb
      → Listens t cb ctx b
      → Listens t cb ctx (subscribe b t' other ctx').1
  subscribes-Listens b t' other ctx' ne l = elim (subscribe_cases b t' other ctx') [
    | inr same ↦ rw same l
    | inl done ↦
        let b' = (subscribe b t' other ctx').1 in
        let changed = subscribe-deliveries b b' t' other ctx' l.whole done in
        record {
          whole = subscribe_whole b b' t' other ctx' done ∙ l.whole;
          hears = λ event. elim (ℕ_discrete event.type t') [
            | yes here ↦
                calls_of-Inserted cb (call other event ctx') (deliveries b event)
                  (deliveries b' event) ne (changed.0 event here)
                ∙ l.hears event
            | no there ↦ ap (calls_of cb) (changed.1 event there) ∙ l.hears event
          ];
        }
  ]

  calls_of-Cleared :
      (b b' : Bus) (event : Event) (other : ℕ)
      → other ≢ cb
      → Cleared (get_or b.table event.type []) (get_or b'.table event.type []) other
      → calls_of cb (deliveries b' event) ≡ calls_of cb (deliveries b event)
  calls_of-Cleared b b' event other ne (inl (same, gone)) = ap (calls_of cb) (same event)
  calls_of-Cleared b b' event other ne (inr (ctx', ins)) = sym (
      calls_of-Inserted cb (call other event ctx') (deliveries b' event) (deliveries b event) ne
        (ins event))

  pub unsubscribes-Listens :
      (b : Bus) (t' other : ℕ)
      → other ≢ cb
      → Listens t cb ctx b
      → Listens t cb ctx (unsubscribe b t' other).1
  unsubscribes-Listens b t' other ne l = elim (Bool-cases (leb event_type_max t')) [
    | inl out ↦
        let same : (unsubscribe b t' other).1 ≡ b = unfold unsubscribe in ground arith in rw same l
    | inr known ↦
        let b' = (unsubscribe b t' other).1 in
        let changed = unsubscribe-deliveries b t' other l.whole (ground arith) in
        record {
          whole = unsubscribe_whole b t' other ∙ l.whole;
          hears = λ event. elim (ℕ_discrete event.type t') [
            | yes here ↦
                calls_of-Cleared b b' event other ne (
                  subst (λ i. Cleared (get_or b.table i []) (get_or b'.table i []) other) (sym here)
                    changed.0)
                ∙ l.hears event
            | no there ↦ ap (calls_of cb) (changed.1 event there) ∙ l.hears event
          ];
        }
  ]
