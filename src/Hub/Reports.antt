-- ===== src/Hub/Reports.antt =====
-- The loop over attribute reports of parse_af_incoming.
use zigbee_hub.Base.{
  ℕ, zero, suc, ◌+◌, ◌-◌, ◌^◌, ◌≤◌, ◌<◌, ◌≡◌, ◌≢◌, refl, ap, ◌∙◌, List, [], ◌∷◌, ◌++◌, some, arith,
  ltb, ◌==◌, length, length-append, get_or, take, drop, All, Bool-cases, inl, inr, ◌||◌, ◌⊎◌,
}
use mathlib.Core.List.{append_assoc}
use zigbee_hub.Base.Words.{low_byte, high_byte, le16, le16-bytes}
use zigbee_hub.Hub.{Hub}
use zigbee_hub.Hub.Translate.{dispatch_attr}
use zigbee_hub.Hub.Inbound.{report_size, reports}

-- An attribute report as ZCL writes it: the id, the data type, the value.
pub record Report : Type 0 where
  pub attr : ℕ
  pub dtype : ℕ
  pub value : List ℕ

pub record IsReport (r : Report) : Type 0 where
  pub id_word : r.attr < 2 ^ 16
  pub sized : length r.value ≡ report_size r.dtype
  pub known_type : report_size r.dtype ≢ 0

unfoldable pub report_bytes : List Report → List ℕ
report_bytes [] = []
report_bytes (r ∷ rs) = low_byte r.attr ∷ high_byte r.attr ∷ r.dtype ∷ r.value ++ report_bytes rs

-- One event for each report, in order.
pub dispatch_each : ℕ → ℕ → ℕ → List Report → Hub → Hub
dispatch_each ieee ep cluster [] h = h
dispatch_each ieee ep cluster (r ∷ rs) h =
    dispatch_each ieee ep cluster rs (dispatch_attr ieee ep cluster r.attr r.dtype r.value h)

report_size_small : (dtype : ℕ) → report_size dtype ≤ 6
unfolding report_size
report_size_small dtype = ground arith

drop-append : (n : ℕ) (xs ys : List ℕ) → length xs ≡ n → drop n (xs ++ ys) ≡ ys
drop-append zero [] ys e = refl
drop-append zero (x ∷ xs) ys e = absurd (omega arith)
drop-append (suc n) [] ys e = absurd (omega arith)
drop-append (suc n) (x ∷ xs) ys e = drop-append n xs ys (omega arith)

take_whole : (n : ℕ) (xs ys : List ℕ) → length xs ≡ n → take n (xs ++ ys) ≡ xs
take_whole zero [] ys e = refl
take_whole zero (x ∷ xs) ys e = absurd (omega arith)
take_whole (suc n) [] ys e = absurd (omega arith)
take_whole (suc n) (x ∷ xs) ys e = ap (λ zs. x ∷ zs) (take_whole n xs ys (omega arith))

pub length-drop : (n : ℕ) (xs : List ℕ) → length (drop n xs) ≡ length xs - n
length-drop zero xs = omega arith
length-drop (suc n) [] = omega arith
length-drop (suc n) (x ∷ xs) = omega (arith, length-drop n xs)

-- A round that finds a whole attribute of a known type.
reports_step :
    (fuel ieee ep cluster : ℕ) (rp : List ℕ) (remaining : ℕ) (h : Hub)
    → let dtype = get_or rp 2 0 in
      let sz = report_size dtype in
      sz ≢ 0
      → 3 + sz ≤ remaining
      → remaining ≤ length rp
      → reports (suc fuel) ieee ep cluster rp remaining h
        ≡ reports fuel ieee ep cluster (drop sz (drop 3 rp)) (remaining - (3 + sz)) (
            dispatch_attr ieee ep cluster
              (le16 (get_or rp 0 0) (get_or rp 1 0))
              dtype
              (take sz (drop 3 rp))
              h)
unfolding reports
reports_step fuel ieee ep cluster rp remaining h sized whole there =
    ground (arith, report_size_small (get_or rp 2 0))

-- A round that ends the loop.
reports_stop :
    (fuel ieee ep cluster : ℕ) (rp : List ℕ) (remaining : ℕ) (h : Hub)
    → (report_size (get_or rp 2 0) ≡ 0) ⊎ (remaining < 3 + report_size (get_or rp 2 0))
    → remaining ≤ length rp
    → reports (suc fuel) ieee ep cluster rp remaining h ≡ some h
unfolding reports
reports_stop fuel ieee ep cluster rp remaining h c there =
    ground (arith, report_size_small (get_or rp 2 0))

reports_more :
    (fuel ieee ep cluster : ℕ) (r : Report) (more : List ℕ) (rest : ℕ) (h : Hub)
    → IsReport r
    → rest ≤ length more
    → reports
        (suc fuel)
        ieee
        ep
        cluster
        (low_byte r.attr ∷ high_byte r.attr ∷ r.dtype ∷ r.value ++ more)
        (suc (suc (suc (length r.value + rest))))
        h
      ≡ reports fuel ieee ep cluster more rest
          (dispatch_attr ieee ep cluster r.attr r.dtype r.value h)
reports_more fuel ieee ep cluster r more rest h v there =
    let rp = low_byte r.attr ∷ high_byte r.attr ∷ r.dtype ∷ r.value ++ more in
    let gone : drop (report_size r.dtype) (drop 3 rp) ≡ more =
      drop-append (report_size r.dtype) r.value more v.sized in
    let kept : take (report_size r.dtype) (r.value ++ more) ≡ r.value =
      take_whole (report_size r.dtype) r.value more v.sized in
    let left : suc (suc (suc (length r.value + rest))) - (3 + report_size r.dtype) ≡ rest =
      omega (arith, v.sized) in
    reports_step fuel ieee ep cluster rp (suc (suc (suc (length r.value + rest)))) h v.known_type
      (omega (arith, v.sized)) (omega (arith, length-append r.value more))
    ∙ rw (gone, kept, left, le16-bytes r.attr v.id_word) refl

-- The loop, with fuel for the bytes, reads exactly the well-formed reports that were written, and
-- emits one event for each, in order, whatever stands behind them in the array.
pub reports-report_bytes :
    (fuel ieee ep cluster : ℕ) (rs : List Report) (stale : List ℕ) (h : Hub)
    → All IsReport rs
    → length (report_bytes rs) ≤ fuel
    → reports fuel ieee ep cluster (report_bytes rs ++ stale) (length (report_bytes rs)) h
      ≡ some (dispatch_each ieee ep cluster rs h)
unfolding report_bytes dispatch_each
reports-report_bytes zero ieee ep cluster [] stale h v f = unfold reports in refl
reports-report_bytes (suc fuel) ieee ep cluster [] stale h v f = unfold reports in refl
reports-report_bytes zero ieee ep cluster (r ∷ rs) stale h v f = absurd (omega arith)
reports-report_bytes (suc fuel) ieee ep cluster (r ∷ rs) stale h v f =
    let size = length-append r.value (report_bytes rs) in
    rw (size, append_assoc r.value (report_bytes rs) stale)
      (reports_more fuel ieee ep cluster r (report_bytes rs ++ stale) (length (report_bytes rs)) h
        v.0 (omega (arith, length-append (report_bytes rs) stale)))
    ∙ reports-report_bytes fuel ieee ep cluster rs stale
        (dispatch_attr ieee ep cluster r.attr r.dtype r.value h) v.1 (omega (arith, size))

-- On any bytes of which `remaining` are there, with that much fuel, the loop ends and reads none
-- behind them.
pub reports_end :
    (fuel ieee ep cluster : ℕ) (rp : List ℕ) (remaining : ℕ) (h : Hub)
    → remaining ≤ fuel
    → remaining ≤ length rp
    → (h' : Hub) × (reports fuel ieee ep cluster rp remaining h ≡ some h')
reports_end zero ieee ep cluster rp remaining h f l = (h, unfold reports in ground arith)
reports_end (suc fuel) ieee ep cluster rp remaining h f l =
    let sz = report_size (get_or rp 2 0) in
    let rest =
      reports_end fuel ieee ep cluster (drop sz (drop 3 rp)) (remaining - (3 + sz))
        (dispatch_attr ieee ep cluster (le16 (get_or rp 0 0) (get_or rp 1 0)) (get_or rp 2 0)
          (take sz (drop 3 rp)) h)
        (omega arith) (omega (arith, length-drop sz (drop 3 rp), length-drop 3 rp)) in
    elim (Bool-cases (sz == 0 || ltb remaining (3 + sz))) [
      | inl stop ↦ (h, reports_stop fuel ieee ep cluster rp remaining h (ground arith) l)
      | inr on ↦ (
        rest.0,
        reports_step fuel ieee ep cluster rp remaining h (ground arith) (ground arith) l ∙ rest.1,
      )
    ]
