-- ===== src/Framework/Versions.antt =====
-- The version texts (zb_framework.c, zb_network.c).
use zigbee_hub.Base.{
  ℕ, zero, suc, ◌+◌, ◌≤◌, ◌<◌, ◌≡◌, refl, arith, true, false, List, [], ◌∷◌, ◌++◌, some, ok, length,
  take, get_or, All,
}
use zigbee_hub.Base.Words.{IsByte}
use zigbee_hub.Base.Strings.{
  string_of, snprintf, decimal, IsChar, string_of-snprintf, string_of-strncpy, decimal-IsChar,
}
use zigbee_hub.Network.{
  version_text, z_stack_piece, dot_piece, trans_rev_piece, hw_piece, last_piece, from_hw,
  from_trans_rev, from_dot,
}
use zigbee_hub.Framework.Ready.{Versions, no_versions}
use zigbee_hub.Framework.Api.{copy_desc, framework_get_versions, SetUp, framework_init}

-- A text of at most `n` characters.
abbrev IsText : ℕ → List ℕ → Type 0
IsText n xs = All IsChar xs × (length xs ≤ n)

append-IsText :
    (n m k : ℕ) (xs ys : List ℕ) → n + m ≡ k → IsText n xs → IsText m ys → IsText k (xs ++ ys)
append-IsText n m k [] ys e a b = (b.0, omega (arith, a.1, b.1))
append-IsText n m k (x ∷ xs) ys e a b =
    let rest = append-IsText (length xs) m (length xs + m) xs ys refl (a.0.1, omega arith) b in
    ((a.0.0, rest.0), omega (arith, a.1, rest.1))

get_or-IsByte : (xs : List ℕ) (i : ℕ) → All IsByte xs → get_or xs i 0 < 256
get_or-IsByte [] i a = omega arith
get_or-IsByte (x ∷ xs) zero a = a.0
get_or-IsByte (x ∷ xs) (suc i) a = get_or-IsByte xs i a.1

-- The text for any answer has at most 37 characters, none of them NUL.
version_text-IsText : (payload : List ℕ) → All IsByte payload → IsText 37 (version_text payload)
version_text-IsText payload a =
    let hw_text : IsText 8 (from_hw d) =
      append-IsText 4 4 8 hw_piece _ refl (ground arith)
        (append-IsText 3 1 4 (d 4) last_piece refl (digits 4) (ground arith)) in
    let trans_text : IsText 22 (from_trans_rev d) =
      append-IsText 11 11 22 trans_rev_piece _ refl (ground arith)
        (append-IsText 3 8 11 (d 0) (from_hw d) refl (digits 0) hw_text) in
    let minor_text : IsText 26 (from_dot d) =
      append-IsText 1 25 26 dot_piece _ refl (ground arith)
        (append-IsText 3 22 25 (d 3) (from_trans_rev d) refl (digits 3) trans_text) in
    append-IsText 8 29 37 z_stack_piece _ refl (ground arith)
      (append-IsText 3 26 29 (d 2) (from_dot d) refl (digits 2) minor_text)
  where
    d : ℕ → List ℕ
    d i = decimal (get_or payload i 0)

    digits : (i : ℕ) → IsText 3 (d i)
    digits i = decimal-IsChar (get_or payload i 0) (get_or-IsByte payload i a)

-- The text for an answer is whole in the array of 64.
pub string_of-version_text :
    (payload out : List ℕ)
    → All IsByte payload
    → length out ≡ 64
    → string_of (snprintf (version_text payload) out) ≡ version_text payload
string_of-version_text payload out a h =
    let t = version_text-IsText payload a in
    string_of-snprintf (version_text payload) out t.0 (omega (arith, t.1))

-- After zb_framework_init, zb_framework_get_versions shows the first 31 characters of the version
-- in the description of the application.
framework_get_versions-framework_init :
    (parts : SetUp) (own : List ℕ)
    → All IsChar own
    → parts.app_desc ≡ some own
    → (v : Versions) × (framework_get_versions true (framework_init parts (false, no_versions)).1.1
        ≡ (ok, some v))
      × (string_of v.esp32_fw ≡ take 31 own)
unfolding framework_init framework_get_versions copy_desc
framework_get_versions-framework_init parts own a e = rw e (_, refl, string_of-strncpy 31 own a)
