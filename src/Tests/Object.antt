-- ===== src/Tests/Object.antt =====
-- A concrete JSON object.
use mathlib.Core.Path.{subst}
use zigbee_hub.Base.{
  ℕ, ◌+◌, ◌*◌, ◌%◌, ◌^◌, ◌<◌, ◌-◌, ◌≡◌, ◌≢◌, refl, ap, arith, Bool, true, false, ◌&&◌, List, [],
  ◌∷◌, Option, none, some, ltb, ◌==◌, if◌then◌else◌, get_or, drop, Bool-cases, inl, inr,
}
use native.Mathlib.Nat.{mod-eq_of_lt}
use zigbee_hub.Base.Names.{same, same_iff, hex_char}
use zigbee_hub.Storage.Config.{
  Json, IsJson, Key, pan_id_key, channel_key, nwk_key_key, uart_baud_key,
}

pub record Object : Type 0 where
  pub pan_number : Option ℕ
  pub channel_number : Option ℕ
  pub key_number : Option ℕ
  pub baud_number : Option ℕ
  pub pan_text : Option (List ℕ)
  pub channel_text : Option (List ℕ)
  pub key_text : Option (List ℕ)
  pub baud_text : Option (List ℕ)

abbrev pub number_of : Key → Object → Option ℕ
number_of pan_id_key j = j.pan_number
number_of channel_key j = j.channel_number
number_of nwk_key_key j = j.key_number
number_of uart_baud_key j = j.baud_number

abbrev pub text_of : Key → Object → Option (List ℕ)
text_of pan_id_key j = j.pan_text
text_of channel_key j = j.channel_text
text_of nwk_key_key j = j.key_text
text_of uart_baud_key j = j.baud_text

abbrev pub with_number : Key → ℕ → Object → Object
with_number pan_id_key n j = record j { pan_number = some n }
with_number channel_key n j = record j { channel_number = some n }
with_number nwk_key_key n j = record j { key_number = some n }
with_number uart_baud_key n j = record j { baud_number = some n }

abbrev pub with_text : Key → List ℕ → Object → Object
with_text pan_id_key t j = record j { pan_text = some t }
with_text channel_key t j = record j { channel_text = some t }
with_text nwk_key_key t j = record j { key_text = some t }
with_text uart_baud_key t j = record j { baud_text = some t }

unfoldable pub blank : Object
blank = record {
  pan_number = none;
  channel_number = none;
  key_number = none;
  baud_number = none;
  pan_text = none;
  channel_text = none;
  key_text = none;
  baud_text = none;
}

unfoldable pub same_number : Option ℕ → Option ℕ → Bool
same_number none none = true
same_number (some a) (some b) = a == b
same_number a b = false

same_number_lem : (a b : Option ℕ) → same_number a b ≡ true → a ≡ b
unfolding same_number
same_number_lem none none h = refl
same_number_lem (some a) (some b) h = ground arith
same_number_lem none (some b) h = ground arith
same_number_lem (some a) none h = ground arith

unfoldable pub same_text : Option (List ℕ) → Option (List ℕ) → Bool
same_text none none = true
same_text (some a) (some b) = same a b
same_text a b = false

same_text_lem : (a b : Option (List ℕ)) → same_text a b ≡ true → a ≡ b
unfolding same_text
same_text_lem none none h = refl
same_text_lem (some a) (some b) h = ap (λ t. some t) ((same_iff a b).0 h)
same_text_lem none (some b) h = ground arith
same_text_lem (some a) none h = ground arith

unfoldable pub same_object : Object → Object → Bool
same_object i j =
    same_number i.pan_number j.pan_number
    && same_number i.channel_number j.channel_number
    && same_number i.key_number j.key_number
    && same_number i.baud_number j.baud_number
    && same_text i.pan_text j.pan_text
    && same_text i.channel_text j.channel_text
    && same_text i.key_text j.key_text
    && same_text i.baud_text j.baud_text

same_object_lem : (i j : Object) → same_object i j ≡ true → i ≡ j
unfolding same_object
same_object_lem i j h =
    let p0 = same_number_lem i.pan_number j.pan_number (ground arith) in
    let p1 = same_number_lem i.channel_number j.channel_number (ground arith) in
    let p2 = same_number_lem i.key_number j.key_number (ground arith) in
    let p3 = same_number_lem i.baud_number j.baud_number (ground arith) in
    let q0 = same_text_lem i.pan_text j.pan_text (ground arith) in
    let q1 = same_text_lem i.channel_text j.channel_text (ground arith) in
    let q2 = same_text_lem i.key_text j.key_text (ground arith) in
    let q3 = same_text_lem i.baud_text j.baud_text (ground arith) in ground arith

-- The three numbers, then the text of the key.
unfoldable pub read_object : List ℕ → Object
read_object t = record blank {
  pan_number = some (get_or t 0 0);
  channel_number = some (get_or t 1 0);
  baud_number = some (get_or t 2 0);
  key_text = some (drop 3 t);
}

unfoldable pub or_zero : Option ℕ → ℕ
or_zero none = 0
or_zero (some n) = n

unfoldable pub or_empty : Option (List ℕ) → List ℕ
or_empty none = []
or_empty (some t) = t

unfoldable pub spelled : Object → List ℕ
spelled j =
    or_zero j.pan_number ∷ or_zero j.channel_number ∷ or_zero j.baud_number ∷ or_empty j.key_text

unfoldable pub hex_of : ℕ → ℕ
hex_of c = if ltb c 58 then c - 48 else c - 87

unfoldable pub scan_two : List ℕ → Option ℕ
scan_two (a ∷ b ∷ rest) = some (hex_of a * 16 + hex_of b)
scan_two cs = none

unfoldable pub is_missing : Option ℕ → Bool
is_missing none = true
is_missing (some n) = false

unfoldable pub is_missing_text : Option (List ℕ) → Bool
is_missing_text none = true
is_missing_text (some n) = false

some_inj : (i j : Object) → some i ≡ some j → i ≡ j
some_inj i j e = ground arith

unfoldable pub lacking : Key → Object → Bool
lacking k j = is_missing (number_of k j) && is_missing_text (text_of k j)

-- A member that is there keeps its place before one of the same key.
unfoldable pub add_number_to : Key → ℕ → Object → Object
add_number_to k n j = if lacking k j then with_number k n j else j

unfoldable pub add_text_to : Key → List ℕ → Object → Object
add_text_to k t j = if lacking k j then with_text k t j else j

unfoldable pub tokens : Json Object ℕ
tokens = record {
  parse = λ t. some (read_object t);
  print = λ j. if same_object (read_object (spelled j)) j then some (spelled j) else none;
  create = some blank;
  add_number = λ k n j. some (add_number_to k n j);
  add_string = λ k t j. some (add_text_to k t j);
  number = number_of;
  text = text_of;
  double = λ n. n;
  cast = λ w n. n % 2 ^ w;
  scan_byte = scan_two;
}

number_others :
    (k l : Key) (n : ℕ) (j : Object) → k ≢ l → number_of k (with_number l n j) ≡ number_of k j
number_others pan_id_key pan_id_key n j ne = absurd (ne refl)
number_others pan_id_key channel_key n j ne = refl
number_others pan_id_key nwk_key_key n j ne = refl
number_others pan_id_key uart_baud_key n j ne = refl
number_others channel_key pan_id_key n j ne = refl
number_others channel_key channel_key n j ne = absurd (ne refl)
number_others channel_key nwk_key_key n j ne = refl
number_others channel_key uart_baud_key n j ne = refl
number_others nwk_key_key pan_id_key n j ne = refl
number_others nwk_key_key channel_key n j ne = refl
number_others nwk_key_key nwk_key_key n j ne = absurd (ne refl)
number_others nwk_key_key uart_baud_key n j ne = refl
number_others uart_baud_key pan_id_key n j ne = refl
number_others uart_baud_key channel_key n j ne = refl
number_others uart_baud_key nwk_key_key n j ne = refl
number_others uart_baud_key uart_baud_key n j ne = absurd (ne refl)

text_others : (k l : Key) (n : ℕ) (j : Object) → k ≢ l → text_of k (with_number l n j) ≡ text_of k j
text_others pan_id_key pan_id_key n j ne = absurd (ne refl)
text_others pan_id_key channel_key n j ne = refl
text_others pan_id_key nwk_key_key n j ne = refl
text_others pan_id_key uart_baud_key n j ne = refl
text_others channel_key pan_id_key n j ne = refl
text_others channel_key channel_key n j ne = absurd (ne refl)
text_others channel_key nwk_key_key n j ne = refl
text_others channel_key uart_baud_key n j ne = refl
text_others nwk_key_key pan_id_key n j ne = refl
text_others nwk_key_key channel_key n j ne = refl
text_others nwk_key_key nwk_key_key n j ne = absurd (ne refl)
text_others nwk_key_key uart_baud_key n j ne = refl
text_others uart_baud_key pan_id_key n j ne = refl
text_others uart_baud_key channel_key n j ne = refl
text_others uart_baud_key nwk_key_key n j ne = refl
text_others uart_baud_key uart_baud_key n j ne = absurd (ne refl)

number_texts :
    (k l : Key) (n : List ℕ) (j : Object) → k ≢ l → number_of k (with_text l n j) ≡ number_of k j
number_texts pan_id_key pan_id_key n j ne = absurd (ne refl)
number_texts pan_id_key channel_key n j ne = refl
number_texts pan_id_key nwk_key_key n j ne = refl
number_texts pan_id_key uart_baud_key n j ne = refl
number_texts channel_key pan_id_key n j ne = refl
number_texts channel_key channel_key n j ne = absurd (ne refl)
number_texts channel_key nwk_key_key n j ne = refl
number_texts channel_key uart_baud_key n j ne = refl
number_texts nwk_key_key pan_id_key n j ne = refl
number_texts nwk_key_key channel_key n j ne = refl
number_texts nwk_key_key nwk_key_key n j ne = absurd (ne refl)
number_texts nwk_key_key uart_baud_key n j ne = refl
number_texts uart_baud_key pan_id_key n j ne = refl
number_texts uart_baud_key channel_key n j ne = refl
number_texts uart_baud_key nwk_key_key n j ne = refl
number_texts uart_baud_key uart_baud_key n j ne = absurd (ne refl)

number_selves : (k : Key) (n : ℕ) (j : Object) → number_of k (with_number k n j) ≡ some n
number_selves pan_id_key n j = refl
number_selves channel_key n j = refl
number_selves nwk_key_key n j = refl
number_selves uart_baud_key n j = refl

text_selves : (k : Key) (n : List ℕ) (j : Object) → text_of k (with_text k n j) ≡ some n
text_selves pan_id_key n j = refl
text_selves channel_key n j = refl
text_selves nwk_key_key n j = refl
text_selves uart_baud_key n j = refl

text_texts :
    (k l : Key) (n : List ℕ) (j : Object) → k ≢ l → text_of k (with_text l n j) ≡ text_of k j
text_texts pan_id_key pan_id_key n j ne = absurd (ne refl)
text_texts pan_id_key channel_key n j ne = refl
text_texts pan_id_key nwk_key_key n j ne = refl
text_texts pan_id_key uart_baud_key n j ne = refl
text_texts channel_key pan_id_key n j ne = refl
text_texts channel_key channel_key n j ne = absurd (ne refl)
text_texts channel_key nwk_key_key n j ne = refl
text_texts channel_key uart_baud_key n j ne = refl
text_texts nwk_key_key pan_id_key n j ne = refl
text_texts nwk_key_key channel_key n j ne = refl
text_texts nwk_key_key nwk_key_key n j ne = absurd (ne refl)
text_texts nwk_key_key uart_baud_key n j ne = refl
text_texts uart_baud_key pan_id_key n j ne = refl
text_texts uart_baud_key channel_key n j ne = refl
text_texts uart_baud_key nwk_key_key n j ne = refl
text_texts uart_baud_key uart_baud_key n j ne = absurd (ne refl)

mod_small : (w n : ℕ) → n < 2 ^ w → n % 2 ^ w ≡ n
mod_small w n h = mod-eq_of_lt h

hex_of-hex_char : (d : ℕ) → d < 16 → hex_of (hex_char d) ≡ d
unfolding hex_of
hex_of-hex_char d h = ground arith

scan_two_lem :
    (a b : ℕ) (rest : List ℕ)
    → a < 16
    → b < 16
    → scan_two (hex_char a ∷ hex_char b ∷ rest) ≡ some (a * 16 + b)
unfolding scan_two
scan_two_lem a b rest p q = rw (hex_of-hex_char a p, hex_of-hex_char b q) refl

pub blank_lacks : (k : Key) → lacking k blank ≡ true
unfolding lacking blank is_missing is_missing_text
blank_lacks pan_id_key = refl
blank_lacks channel_key = refl
blank_lacks nwk_key_key = refl
blank_lacks uart_baud_key = refl

Alike : Key → Object → Object → Type 0
Alike k i j =
    (number_of k i ≡ number_of k j)
    × (text_of k i ≡ text_of k j)
    × (lacking k j ≡ true → lacking k i ≡ true)

alike :
    (k : Key) (i j : Object)
    → number_of k i ≡ number_of k j
    → text_of k i ≡ text_of k j
    → Alike k i j
unfolding Alike lacking
alike k i j n t = (n, t, λ h. rw (n, t) h)

add_number_apart : (k l : Key) (n : ℕ) (j : Object) → k ≢ l → Alike k (add_number_to l n j) j
unfolding add_number_to
add_number_apart k l n j ne = elim (Bool-cases (lacking l j)) [
  | inl y ↦ rw y (alike k _ j (number_others k l n j ne) (text_others k l n j ne))
  | inr z ↦ rw z (alike k j j refl refl)
]

add_text_apart : (k l : Key) (t : List ℕ) (j : Object) → k ≢ l → Alike k (add_text_to l t j) j
unfolding add_text_to
add_text_apart k l t j ne = elim (Bool-cases (lacking l j)) [
  | inl y ↦ rw y (alike k _ j (number_texts k l t j ne) (text_texts k l t j ne))
  | inr z ↦ rw z (alike k j j refl refl)
]

add_number_here :
    (k : Key) (n : ℕ) (j : Object) → lacking k j ≡ true → number_of k (add_number_to k n j) ≡ some n
unfolding add_number_to
add_number_here k n j lacks = rw lacks (number_selves k n j)

add_text_here :
    (k : Key) (t : List ℕ) (j : Object)
    → lacking k j ≡ true
    → text_of k (add_text_to k t j) ≡ some t
unfolding add_text_to
add_text_here k t j lacks = rw lacks (text_selves k t j)

pub tokens-IsJson : IsJson tokens
unfolding tokens Alike
tokens-IsJson = record {
  Lacks = λ k j. lacking k j ≡ true;
  fresh = λ k j e. let s : blank ≡ j = ground arith in rw (← s) (blank_lacks k);
  number_self = λ k n j j' lacks e.
      subst (λ i. number_of k i ≡ some n) (some_inj _ _ e) (add_number_here k n j lacks);
  text_self = λ k t j j' lacks e.
      subst (λ i. text_of k i ≡ some t) (some_inj _ _ e) (add_text_here k t j lacks);
  by_number =
      λ k l n j j' ne e. subst (λ i. Alike k i j) (some_inj _ _ e) (add_number_apart k l n j ne);
  by_string =
      λ k l t j j' ne e. subst (λ i. Alike k i j) (some_inj _ _ e) (add_text_apart k l t j ne);
  parses = λ j t e. elim (Bool-cases (same_object (read_object (spelled j)) j)) [
    | inl y ↦
        let s : spelled j ≡ t = ground arith in
        (
          j,
          rw (← s) (ap (λ x. some x) (same_object_lem _ j y)),
          (λ k n small h. h),
          (λ k u plain h. h),
        )
    | inr n ↦ absurd (ground arith)
  ];
  casts = λ w n narrow h. mod_small w n h;
  scans = scan_two_lem;
}
