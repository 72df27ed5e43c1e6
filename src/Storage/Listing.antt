-- ===== src/Storage/Listing.antt =====
-- The entries of the directory in another order (the readdir loop of zb_storage_device.c).
use zigbee_hub.Base.{
  suc, length, ℕ, ◌≡◌, refl, ap, ◌∙◌, inl, inr, arith, List, [], ◌∷◌, none, some, ◌==◌,
  if◌then◌else◌, Bool-cases, All, false,
}
use mathlib.Core.Path.{subst}
use mathlib.Core.List.{Permᴰ}
use zigbee_hub.Storage.{DeviceRecord}
use zigbee_hub.Storage.Files.{Formats, Dir}
use zigbee_hub.Storage.Devices.{lookup, Distinct, Represents, Holds}

pub All-Permᴰ {ℓ κ} :
    {A : Type ℓ} (P : A → Type κ) (xs ys : List A) → Permᴰ xs ys → All P xs → All P ys
All-Permᴰ P _ _ Permᴰ.nil a = a
All-Permᴰ P (x ∷ xs) (y ∷ ys) (Permᴰ.cons e p) a = (subst P e a.0, All-Permᴰ P xs ys p a.1)
All-Permᴰ P (x ∷ y ∷ l) (x' ∷ y' ∷ _) (Permᴰ.swap e f) a = (subst P f a.1.0, (subst P e a.0, a.1.1))
All-Permᴰ P xs ys (Permᴰ.trans {l₂ = zs} p q) a = All-Permᴰ P zs ys q (All-Permᴰ P xs zs p a)

module _ (F : Formats) where
  -- Files in another order hold the records in another order.
  pub Represents-Permᴰ :
      (dir listing : Dir) (ds : List DeviceRecord)
      → Permᴰ dir listing
      → Represents F dir ds
      → (rs : List DeviceRecord) × Represents F listing rs × Permᴰ ds rs
  Represents-Permᴰ _ _ [] Permᴰ.nil r = ([], tt, Permᴰ.nil)
  Represents-Permᴰ _ _ (d ∷ ds) Permᴰ.nil r = absurd (ground arith)
  Represents-Permᴰ (f ∷ dir) (g ∷ listing) [] (Permᴰ.cons e p) r = absurd (ground arith)
  Represents-Permᴰ (f ∷ dir) (g ∷ listing) (d ∷ ds) (Permᴰ.cons e p) r =
      let (rs, there, q) = Represents-Permᴰ dir listing ds p r.1 in
      (d ∷ rs, (subst (Holds F d) e r.0, there), Permᴰ.cons refl q)
  Represents-Permᴰ (f ∷ g ∷ dir) (g' ∷ f' ∷ _) [] (Permᴰ.swap e e') r = absurd (ground arith)
  Represents-Permᴰ (f ∷ g ∷ dir) (g' ∷ f' ∷ _) (d ∷ []) (Permᴰ.swap e e') r = absurd (ground arith)
  Represents-Permᴰ (f ∷ g ∷ dir) (g' ∷ f' ∷ _) (d ∷ c ∷ ds) (Permᴰ.swap e e') r = (
    c ∷ d ∷ ds,
    (subst (Holds F c) e' r.1.0, (subst (Holds F d) e r.0, r.1.1)),
    Permᴰ.swap refl refl,
  )
  Represents-Permᴰ dir listing ds (Permᴰ.trans {l₂ = mid} p q) r =
      let (ms, at_mid, p') = Represents-Permᴰ dir mid ds p r in
      let (rs, there, q') = Represents-Permᴰ mid listing ms q at_mid in
      (rs, there, Permᴰ.trans p' q')

-- Records of different addresses: their order does not matter to a search.
abbrev SameSearch : List DeviceRecord → List DeviceRecord → Type 0
SameSearch ds rs = Distinct rs × ((ieee : ℕ) → lookup ieee rs ≡ lookup ieee ds)

swapped :
    (d c : DeviceRecord) (ds : List DeviceRecord)
    → Distinct (d ∷ c ∷ ds)
    → SameSearch (d ∷ c ∷ ds) (c ∷ d ∷ ds)
unfolding lookup
swapped d c ds u =
    let other : c.ieee_addr == d.ieee_addr ≡ false = ground (arith, u.0) in
    let other' : d.ieee_addr == c.ieee_addr ≡ false = ground arith in
    let gone : lookup d.ieee_addr ds ≡ none = ground (arith, u.0) in
    (
      (rw other' u.1.0, (gone, u.1.1)),
      λ ieee. elim (Bool-cases (c.ieee_addr == ieee)) [
        | inl y ↦ let n : d.ieee_addr == ieee ≡ false = ground arith in rw (y, n) refl
        | inr n ↦ rw n refl
      ],
    )

pub lookup-Permᴰ : (ds rs : List DeviceRecord) → Permᴰ ds rs → Distinct ds → SameSearch ds rs
unfolding lookup
lookup-Permᴰ _ _ Permᴰ.nil u = (tt, λ ieee. refl)
lookup-Permᴰ (d ∷ ds) (r ∷ rs) (Permᴰ.cons e p) u =
    let (v, same) = lookup-Permᴰ ds rs p u.1 in
    subst (λ x. SameSearch (d ∷ ds) (x ∷ rs)) e
      (
        (same d.ieee_addr ∙ u.0, v),
        λ ieee. ap (λ o. if d.ieee_addr == ieee then some d else o) (same ieee),
      )
lookup-Permᴰ (d ∷ c ∷ ds) (c' ∷ d' ∷ _) (Permᴰ.swap e e') u =
    subst (λ x. SameSearch (d ∷ c ∷ ds) (x ∷ d' ∷ ds)) e'
      (subst (λ x. SameSearch (d ∷ c ∷ ds) (c ∷ x ∷ ds)) e (swapped d c ds u))
lookup-Permᴰ ds rs (Permᴰ.trans {l₂ = ms} p q) u =
    let (v, same) = lookup-Permᴰ ds ms p u in
    let (v', same') = lookup-Permᴰ ms rs q v in (v', λ ieee. same' ieee ∙ same ieee)

pub length-Permᴰ {ℓ} : {A : Type ℓ} (xs ys : List A) → Permᴰ xs ys → length xs ≡ length ys
length-Permᴰ _ _ Permᴰ.nil = refl
length-Permᴰ (x ∷ xs) (y ∷ ys) (Permᴰ.cons e p) = ap suc (length-Permᴰ xs ys p)
length-Permᴰ (x ∷ y ∷ l) (x' ∷ y' ∷ _) (Permᴰ.swap e f) = refl
length-Permᴰ xs ys (Permᴰ.trans {l₂ = zs} p q) = length-Permᴰ xs zs p ∙ length-Permᴰ zs ys q
