-- ===== src/Base/Queue.antt =====
-- A bounded queue: `xQueueSend` with no wait drops what does not fit.
use Prim.Native.Nat.{ℕ, zero, suc, ◌≤◌}
use mathlib.Core.Path.{◌≡◌, refl, ap, sym, ◌∙◌}
use mathlib.Core.Logic.{inl, inr}
use mathlib.Core.List.{List, [], ◌∷◌, ◌++◌, append_assoc, append-nil}
use native.Mathlib.Omega.{arith}
use zigbee_hub.Base.Tests.{ltb, if◌then◌else◌, Bool-cases}
use zigbee_hub.Base.Lists.{length, take, length-append, take-append}

module _ {ℓ} {A : Type ℓ} where
  abbrev pub offer : ℕ → List A → A → List A
  offer depth queue item = if ltb (length queue) depth then queue ++ item ∷ [] else queue

  abbrev offer_all : ℕ → List A → List A → List A
  offer_all depth queue [] = queue
  offer_all depth queue (item ∷ items) = offer_all depth (offer depth queue item) items

  pub take_short : (n : ℕ) (q : List A) → length q ≤ n → take n q ≡ q
  take_short zero [] h = refl
  take_short zero (f ∷ q) h = absurd (omega arith)
  take_short (suc n) [] h = refl
  take_short (suc n) (f ∷ q) h = ap (◌∷◌ f) (take_short n q (omega arith))

  take_full : (n : ℕ) (q r : List A) → length q ≡ n → take n (q ++ r) ≡ q
  take_full n q r e = rw (← e) (take-append q r)

  pub take-offer :
      (n : ℕ) (q : List A) (item : A) (rest : List A)
      → length q ≤ n
      → take n (offer n q item ++ rest) ≡ take n (q ++ item ∷ rest)
  take-offer n q item rest h = elim (Bool-cases (ltb (length q) n)) [
    | inl e ↦ rw e (rw (append_assoc q (item ∷ []) rest))
    | inr e ↦
        let full : length q ≡ n = ground arith in
        rw e (take_full n q rest full ∙ sym (take_full n q (item ∷ rest) full))
  ]

  pub length-offer : (n : ℕ) (q : List A) (item : A) → length q ≤ n → length (offer n q item) ≤ n
  length-offer n q item h = ground (arith, length-append q (item ∷ []))

  -- The queue keeps what comes first, in its order, up to its depth.
  offer_all_lem :
      (n : ℕ) (q items : List A) → length q ≤ n → offer_all n q items ≡ take n (q ++ items)
  offer_all_lem n q [] h = sym (rw (append-nil q) (take_short n q h))
  offer_all_lem n q (item ∷ items) h =
      offer_all_lem n (offer n q item) items (length-offer n q item h) ∙ take-offer n q item items h
