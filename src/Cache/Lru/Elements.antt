-- ===== src/Cache/Lru/Elements.antt =====
-- Elements searched and removed by key, with addresses and keys that do not repeat.
use pvz_service.Base.{
  ℕ, ◌+◌, ◌≤◌, ◌≡◌, refl, sym, ap, ◌≢◌, inl, inr, Option, none, some, List, [], ◌∷◌, arith, ◌==◌,
  if◌then◌else◌, Bool-cases, Eq, length, All,
}
use mathlib.Core.Path.{subst}
use pvz_service.Cache.Lru.{CacheItem, Element, deref, list_remove, back, list_write}

module _ {K V : Type 0} where
  abbrev pub address : Option (Element K V) → Option ℕ
  address none = none
  address (some x) = some x.0

  -- No element occurs twice.
  abbrev pub UniqueIds : List (Element K V) → Type 0
  UniqueIds [] = Unit
  UniqueIds (x ∷ l) = All (λ y. y.0 ≢ x.0) l × UniqueIds l

  -- No two elements have one key.
  abbrev pub UniqueKeys : List (Element K V) → Type 0
  UniqueKeys [] = Unit
  UniqueKeys (x ∷ l) = All (λ y. y.1.key ≢ x.1.key) l × UniqueKeys l

  pub list_remove_absent :
      (a : ℕ) (l : List (Element K V)) → All (λ y. y.0 ≢ a) l → list_remove a l ≡ l
  unfolding list_remove
  list_remove_absent a [] h = refl
  list_remove_absent a (x ∷ l) h = ground (arith, list_remove_absent a l h.1)

  pub All-list_remove :
      (P : Element K V → Type 0) (a : ℕ) (l : List (Element K V))
      → All P l
      → All P (list_remove a l)
  unfolding list_remove
  All-list_remove P a [] h = tt
  All-list_remove P a (x ∷ l) h = elim (Bool-cases (x.0 == a)) [
    | inl same ↦ rw same (All-list_remove P a l h.1)
    | inr other ↦ rw other (h.0, All-list_remove P a l h.1)
  ]

  pub list_remove-UniqueIds :
      (a : ℕ) (l : List (Element K V)) → UniqueIds l → UniqueIds (list_remove a l)
  unfolding list_remove
  list_remove-UniqueIds a [] h = tt
  list_remove-UniqueIds a (x ∷ l) h = elim (Bool-cases (x.0 == a)) [
    | inl same ↦ rw same (list_remove-UniqueIds a l h.1)
    | inr other ↦ rw other (All-list_remove (λ y. y.0 ≢ x.0) a l h.0, list_remove-UniqueIds a l h.1)
  ]

  pub list_remove-UniqueKeys :
      (a : ℕ) (l : List (Element K V)) → UniqueKeys l → UniqueKeys (list_remove a l)
  unfolding list_remove
  list_remove-UniqueKeys a [] h = tt
  list_remove-UniqueKeys a (x ∷ l) h = elim (Bool-cases (x.0 == a)) [
    | inl same ↦ rw same (list_remove-UniqueKeys a l h.1)
    | inr other ↦
        rw other (All-list_remove (λ y. y.1.key ≢ x.1.key) a l h.0, list_remove-UniqueKeys a l h.1)
  ]

  -- A removed address is gone.
  pub list_remove-All-ne : (a : ℕ) (l : List (Element K V)) → All (λ y. y.0 ≢ a) (list_remove a l)
  unfolding list_remove
  list_remove-All-ne a [] = tt
  list_remove-All-ne a (x ∷ l) = elim (Bool-cases (x.0 == a)) [
    | inl same ↦ rw same (list_remove-All-ne a l)
    | inr other ↦ rw other (ground arith, list_remove-All-ne a l)
  ]

  pub length-list_remove-le : (a : ℕ) (l : List (Element K V)) → length (list_remove a l) ≤ length l
  unfolding list_remove
  length-list_remove-le a [] = omega arith
  length-list_remove-le a (x ∷ l) = ground (arith, length-list_remove-le a l)

  pub length-list_remove :
      (a : ℕ) (l : List (Element K V)) (item : CacheItem K V)
      → UniqueIds l
      → deref a l ≡ some item
      → length (list_remove a l) + 1 ≡ length l
  unfolding list_remove deref
  length-list_remove a [] item u h = cc
  length-list_remove a (x ∷ l) item u h = elim (Bool-cases (x.0 == a)) [
    | inl same ↦
        let same_id : x.0 ≡ a = ground arith in
        rw (same, list_remove_absent a l (rw same_id at u.0)) (omega arith)
    | inr other ↦ rw other (omega (arith, length-list_remove a l item u.1 (rw other at h)))
  ]

module _ {K V : Type 0} where
  -- A write through an element's pointer is seen through that pointer.
  pub deref-list_write :
      (a : ℕ) (v : V) (now : ℕ) (l : List (Element K V)) (item : CacheItem K V)
      → deref a l ≡ some item
      → deref a (list_write a v now l) ≡ some (record item { value = v; created_at = now })
  unfolding deref list_write
  deref-list_write a v now [] item h = cc
  deref-list_write a v now (x ∷ l) item h = ground (arith, deref-list_write a v now l item)

  pub list_remove-list_write :
      (a : ℕ) (v : V) (now : ℕ) (l : List (Element K V))
      → list_remove a (list_write a v now l) ≡ list_remove a l
  unfolding list_remove list_write
  list_remove-list_write a v now [] = refl
  list_remove-list_write a v now (x ∷ l) = ground (arith, list_remove-list_write a v now l)

module _ {K V : Type 0} ⦃e : Eq K⦄ where
  unfoldable pub find_key : K → List (Element K V) → Option (Element K V)
  find_key k [] = none
  find_key k (x ∷ l) = if e.beq x.1.key k then some x else find_key k l

  pub find_key-cons :
      (k : K) (x : Element K V) (l : List (Element K V))
      → find_key k (x ∷ l) ≡ (if e.beq x.1.key k then some x else find_key k l)
  unfolding find_key
  find_key-cons k x l = refl

  -- What holds of every element holds of the one that is found.
  pub find_key-All :
      (P : Element K V → Type 0) (k : K) (l : List (Element K V)) {x : Element K V}
      → All P l
      → find_key k l ≡ some x
      → P x
  unfolding find_key
  find_key-All P k [] u h = cc
  find_key-All P k (y ∷ l) u h = elim (Bool-cases (e.beq y.1.key k)) [
    | inl here ↦ subst P (cc (rw here at h)) u.0
    | inr later ↦ find_key-All P k l u.1 (rw later at h)
  ]

  pub find_key-deref :
      (k : K) (l : List (Element K V)) {x : Element K V}
      → UniqueIds l
      → find_key k l ≡ some x
      → (deref x.0 l ≡ some x.1) × (x.1.key ≡ k)
  unfolding find_key deref
  find_key-deref k [] u h = cc
  find_key-deref k (y ∷ l) {x} u h = elim (Bool-cases (e.beq y.1.key k)) [
    | inl here ↦
        let same : y ≡ x = cc (rw here at h) in
        ground (arith, ap (λ (z : Element K V). z.0) same, (e.beq_iff y.1.key k).0 here)
    | inr later ↦
        let found : find_key k l ≡ some x = rw later at h in
        ground (arith, find_key-deref k l u.1 found, find_key-All (λ z. z.0 ≢ y.0) k l u.0 found)
  ]

  pub find_key_absent :
      (k : K) (l : List (Element K V)) → All (λ y. y.1.key ≢ k) l → find_key k l ≡ none
  unfolding find_key
  find_key_absent k [] h = refl
  find_key_absent k (x ∷ l) h = ground (arith, find_key_absent k l h.1, e.beq_iff x.1.key k)

  pub find_key-none-All :
      (k : K) (l : List (Element K V)) → find_key k l ≡ none → All (λ y. y.1.key ≢ k) l
  unfolding find_key
  find_key-none-All k [] h = tt
  find_key-none-All k (x ∷ l) h = elim (Bool-cases (e.beq x.1.key k)) [
    | inl here ↦ absurd (cc (rw here at h))
    | inr later ↦
        (λ same. cc (later, (e.beq_iff x.1.key k).1 same), find_key-none-All k l (rw later at h))
  ]

  -- Removing the element of a key hides that key, and no other.
  pub find_key-list_remove :
      (j k : K) (l : List (Element K V)) {x : Element K V}
      → UniqueIds l
      → UniqueKeys l
      → find_key k l ≡ some x
      → find_key j (list_remove x.0 l) ≡ (if e.beq k j then none else find_key j l)
  unfolding find_key list_remove
  find_key-list_remove j k [] u w h = cc
  find_key-list_remove j k (y ∷ l) {x} u w h = elim (Bool-cases (e.beq y.1.key k)) [
    | inl here ↦
        let same : y ≡ x = cc (rw here at h) in
        let id : y.0 ≡ x.0 = ap (λ (z : Element K V). z.0) same in
        ground (
          arith,
          e.beq_iff y.1.key k,
          e.beq_iff k j,
          e.beq_iff y.1.key j,
          list_remove_absent x.0 l (rw id at u.0),
          find_key_absent y.1.key l w.0,
        )
    | inr later ↦
        let found : find_key k l ≡ some x = rw later at h in
        ground (
          arith,
          e.beq_iff y.1.key k,
          e.beq_iff k j,
          e.beq_iff y.1.key j,
          find_key-list_remove j k l u.1 w.1 found,
          find_key-All (λ z. z.0 ≢ y.0) k l u.0 found,
        )
  ]

  pub find_key-back :
      (l : List (Element K V)) {x : Element K V}
      → UniqueKeys l
      → back l ≡ some x
      → find_key x.1.key l ≡ some x
  unfolding find_key back
  find_key-back [] w h = cc
  find_key-back (y ∷ []) {x} w h =
      let same : y ≡ x = cc in
      ground (arith, e.beq_iff y.1.key x.1.key, ap (λ (z : Element K V). z.1.key) same)
  find_key-back (y ∷ z ∷ l) {x} w h =
      let found : find_key x.1.key (z ∷ l) ≡ some x = find_key-back (z ∷ l) w.1 h in
      let other : x.1.key ≢ y.1.key =
        find_key-All (λ u. u.1.key ≢ y.1.key) x.1.key (z ∷ l) w.0 found in
      elim (Bool-cases (e.beq y.1.key x.1.key)) [
        | inl same ↦ absurd (other (sym ((e.beq_iff y.1.key x.1.key).0 same)))
        | inr later ↦ rw later found
      ]

  pub find_key_self :
      (k : K) (l : List (Element K V)) {x : Element K V}
      → UniqueIds l
      → find_key k l ≡ some x
      → find_key x.1.key l ≡ some x
  find_key_self k l {x} u h = subst (λ j. find_key j l ≡ some x) (sym (find_key-deref k l u h).1) h
