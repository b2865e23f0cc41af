-- ===== src/Metrics/Gauge.antt =====
-- What the gauge of orders by status shows after a refresh.
use pvz_service.Base.{
  ℕ, suc, ◌+◌, ◌≡◌, refl, sym, ap, ◌∙◌, inl, inr, Bool, true, false, Option, none, some, List, [],
  ◌∷◌, arith, ◌==◌, if◌then◌else◌, Bool-cases,
}
use pvz_service.Base.Text.{Text, text_eq, text_eq_iff}
use pvz_service.Domain.Order.{Order, get_status_string}
use pvz_service.Db.World.{ok}
use pvz_service.Metrics.{
  Values, count_status, count_statuses, set_gauge, value_of, refresh_order_status_metrics,
  update_order_status_metrics,
}

UniqueKeys : Values → Type 0
UniqueKeys [] = Unit
UniqueKeys ((j, n) ∷ m) = (value_of j m ≡ none) × UniqueKeys m

-- More of a count that may not be there yet.
add_count : ℕ → Option ℕ → Option ℕ
add_count n none = if n == 0 then none else some n
add_count n (some m) = some (m + n)

add_count-zero : (o : Option ℕ) → add_count 0 o ≡ o
unfolding add_count
add_count-zero none = refl
add_count-zero (some n) = ap some (omega arith)

add_count-add_count :
    (b : Bool) (n : ℕ) (o : Option ℕ)
    → add_count n (if b then add_count 1 o else o) ≡ add_count (if b then suc n else n) o
unfolding add_count
add_count-add_count false n o = refl
add_count-add_count true n none = ground arith
add_count-add_count true n (some m) = ap some (omega arith)

value_of-count_status :
    (k j : Text) (m : Values)
    → value_of k (count_status j m)
      ≡ (if text_eq j k then add_count 1 (value_of k m) else value_of k m)
unfolding value_of count_status add_count
value_of-count_status k j [] = refl
value_of-count_status k j ((i, n) ∷ m) =
    ground (arith, value_of-count_status k j m, text_eq_iff i j, text_eq_iff i k, text_eq_iff j k)

value_of-set_gauge :
    (k j : Text) (n : ℕ) (m : Values)
    → value_of k (set_gauge j n m) ≡ (if text_eq j k then some n else value_of k m)
unfolding value_of set_gauge
value_of-set_gauge k j n [] = refl
value_of-set_gauge k j n ((i, old) ∷ m) =
    ground (arith, value_of-set_gauge k j n m, text_eq_iff i j, text_eq_iff i k, text_eq_iff j k)

count_status-UniqueKeys : (j : Text) (m : Values) → UniqueKeys m → UniqueKeys (count_status j m)
unfolding UniqueKeys count_status value_of
count_status-UniqueKeys j [] h = (refl, tt)
count_status-UniqueKeys j ((i, n) ∷ m) h = elim (Bool-cases (text_eq i j)) [
  | inl same ↦ rw same h
  | inr other ↦
      let differs : text_eq j i ≡ false = ground (arith, other, text_eq_iff i j, text_eq_iff j i) in
      rw other (value_of-count_status i j m ∙ rw (differs) h.0, count_status-UniqueKeys j m h.1)
]

module _ {F : Type 0} where
  -- The number of orders with a status of this text.
  pub with_status : Text → List (Order F) → ℕ
  with_status k [] = 0
  with_status k (o ∷ orders) =
      if text_eq (get_status_string o.status) k
      then suc (with_status k orders)
      else with_status k orders

  value_of-count_statuses :
      (k : Text) (orders : List (Order F)) (m : Values)
      → value_of k (count_statuses orders m) ≡ add_count (with_status k orders) (value_of k m)
  unfolding count_statuses with_status add_count
  value_of-count_statuses k [] m = sym (add_count-zero (value_of k m))
  value_of-count_statuses k (o ∷ orders) m =
      let status = get_status_string o.status in
      value_of-count_statuses k orders (count_status status m)
      ∙ (ap (add_count (with_status k orders)) (value_of-count_status k status m)
          ∙ add_count-add_count (text_eq status k) (with_status k orders) (value_of k m))

  count_statuses-UniqueKeys :
      (orders : List (Order F)) (m : Values) → UniqueKeys m → UniqueKeys (count_statuses orders m)
  unfolding count_statuses
  count_statuses-UniqueKeys [] m h = h
  count_statuses-UniqueKeys (o ∷ orders) m h =
      count_statuses-UniqueKeys orders (count_status (get_status_string o.status) m)
        (count_status-UniqueKeys (get_status_string o.status) m h)

-- A new value, or else the one from before.
abbrev pub newest : Option ℕ → Option ℕ → Option ℕ
newest (some n) old = some n
newest none old = old

value_of-update :
    (k : Text) (counts gauge : Values)
    → UniqueKeys counts
    → value_of k (update_order_status_metrics counts gauge)
      ≡ newest (value_of k counts) (value_of k gauge)
unfolding value_of update_order_status_metrics UniqueKeys
value_of-update k [] gauge h = refl
value_of-update k ((j, n) ∷ counts) gauge h = elim (Bool-cases (text_eq j k)) [
  | inl same ↦
      let absent : value_of k counts ≡ none = rw ((text_eq_iff j k).0 same) at h.0 in
      let set : value_of k (set_gauge j n gauge) ≡ some n =
        value_of-set_gauge k j n gauge ∙ rw same refl in
      rw same (value_of-update k counts (set_gauge j n gauge) h.1 ∙ rw (absent, set) refl)
  | inr other ↦
      let kept : value_of k (set_gauge j n gauge) ≡ value_of k gauge =
        value_of-set_gauge k j n gauge ∙ rw other refl in
      rw other
        (value_of-update k counts (set_gauge j n gauge) h.1 ∙ ap (newest (value_of k counts)) kept)
]

module _ {F : Type 0} where
  -- After a refresh that gets the orders, the gauge shows for each text of a status how many
  -- orders have it; where none has it, the gauge keeps what it showed before.
  pub refresh-value_of :
      (k : Text) (orders : List (Order F)) (gauge : Values)
      → value_of k (refresh_order_status_metrics (ok orders) gauge)
        ≡ (if with_status k orders == 0 then value_of k gauge else some (with_status k orders))
  unfolding refresh_order_status_metrics value_of UniqueKeys add_count
  refresh-value_of k orders gauge =
      value_of-update k (count_statuses orders []) gauge (count_statuses-UniqueKeys orders [] tt)
      ∙ (ap (λ o. newest o (value_of k gauge)) (value_of-count_statuses k orders []) ∙ ground arith)
