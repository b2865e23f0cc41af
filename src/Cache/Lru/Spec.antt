-- ===== src/Cache/Lru/Spec.antt =====
-- What the cache promises: a list of entries, the most recently used first, with no map and no
-- addresses.
use mathlib.Core.Path.{subst}
use pvz_service.Base.{
  ℕ, suc, ◌-◌, ◌≡◌, refl, ap, ◌≢◌, inl, inr, Option, none, some, List, [], ◌∷◌, arith,
  if◌then◌else◌, Bool-cases, Eq, length, take, All,
}
use pvz_service.Cache.Lru.{CacheItem, Element, LruCache, list_remove, back, is_expired}
use pvz_service.Cache.Lru.Elements.{
  UniqueIds, UniqueKeys, find_key, find_key-All, find_key_absent, list_remove_absent,
}

module _ {K V : Type 0} where
  abbrev pub entries : List (Element K V) → List (CacheItem K V)
  entries [] = []
  entries (x ∷ l) = x.1 ∷ entries l

  -- What a cache holds, the most recently used first.
  abbrev pub view : LruCache K V → List (CacheItem K V)
  view c = entries c.order

  pub length-entries : (l : List (Element K V)) → length (entries l) ≡ length l
  length-entries [] = refl
  length-entries (x ∷ l) = omega (arith, length-entries l)

  pub back-some :
      (x : Element K V) (l : List (Element K V)) → (y : Element K V) × (back (x ∷ l) ≡ some y)
  unfolding back
  back-some x [] = (x, refl)
  back-some x (y ∷ l) = back-some y l

  back-All :
      (P : Element K V → Type 0) (l : List (Element K V)) {x : Element K V}
      → All P l
      → back l ≡ some x
      → P x
  unfolding back
  back-All P [] a h = cc
  back-All P (y ∷ []) a h = subst P (cc) a.0
  back-All P (y ∷ z ∷ l) a h = back-All P (z ∷ l) a.1 h

  -- Removing the last element keeps all the others.
  pub list_remove-back :
      (l : List (Element K V)) {x : Element K V}
      → UniqueIds l
      → back l ≡ some x
      → entries (list_remove x.0 l) ≡ take (length l - 1) (entries l)
  unfolding back list_remove
  list_remove-back [] u h = cc
  list_remove-back (y ∷ []) {x} u h =
      let whole : y ≡ x = cc in
      let same : y.0 ≡ x.0 = ap (λ (z : Element K V). z.0) whole in ground arith
  list_remove-back (y ∷ z ∷ l) {x} u h =
      let other : x.0 ≢ y.0 = back-All (λ w. w.0 ≢ y.0) (z ∷ l) u.0 h in
      let count : length (y ∷ z ∷ l) - 1 ≡ suc (length (z ∷ l) - 1) = omega arith in
      rw count (ground (arith, list_remove-back (z ∷ l) u.1 h))

module _ {K V : Type 0} ⦃e : Eq K⦄ where
  unfoldable pub find_item : K → List (CacheItem K V) → Option (CacheItem K V)
  find_item k [] = none
  find_item k (x ∷ l) = if e.beq x.key k then some x else find_item k l

  unfoldable pub without : K → List (CacheItem K V) → List (CacheItem K V)
  without k [] = []
  without k (x ∷ l) = let rest = without k l in if e.beq x.key k then rest else x ∷ rest

  -- `Get`: an expired entry is dropped and reported as absent; any other becomes the most recent.
  unfoldable pub spec_get : ℕ → ℕ → K → List (CacheItem K V) → List (CacheItem K V) × Option V
  spec_get ttl now k l = elim (find_item k l) [
    | none ↦ (l, none)
    | some x ↦ if is_expired ttl now x then (without k l, none) else (x ∷ without k l, some x.value)
  ]

  -- `Set`: the new entry becomes the most recent, and at most `max_size` entries stay.
  unfoldable pub spec_set : ℕ → ℕ → K → V → List (CacheItem K V) → List (CacheItem K V)
  spec_set max_size now k value l =
      take max_size (record { key = k; value = value; created_at = now } ∷ without k l)

  pub entries-find_key :
      (k : K) (l : List (Element K V))
      → find_item k (entries l) ≡ elim (find_key k l) [ none ↦ none | some x ↦ some x.1 ]
  unfolding find_item find_key
  entries-find_key k [] = refl
  entries-find_key k (x ∷ l) = ground (arith, entries-find_key k l)

  pub without_absent :
      (k : K) (l : List (Element K V)) → find_key k l ≡ none → without k (entries l) ≡ entries l
  unfolding find_key without
  without_absent k [] h = refl
  without_absent k (x ∷ l) h = ground (arith, without_absent k l)

  pub entries-list_remove :
      (k : K) (l : List (Element K V)) {x : Element K V}
      → UniqueIds l
      → UniqueKeys l
      → find_key k l ≡ some x
      → entries (list_remove x.0 l) ≡ without k (entries l)
  unfolding find_key list_remove without
  entries-list_remove k [] u w h = cc
  entries-list_remove k (y ∷ l) {x} u w h = elim (Bool-cases (e.beq y.1.key k)) [
    | inl here ↦
        let whole : y ≡ x = cc (rw here at h) in
        let id : y.0 ≡ x.0 = ap (λ (z : Element K V). z.0) whole in
        ground (
          arith,
          list_remove_absent x.0 l (rw id at u.0),
          without_absent k l (find_key_absent k l (rw ((e.beq_iff y.1.key k).0 here) at w.0)),
        )
    | inr later ↦
        let found : find_key k l ≡ some x = rw later at h in
        ground (
          arith,
          entries-list_remove k l u.1 w.1 found,
          find_key-All (λ z. z.0 ≢ y.0) k l u.0 found,
        )
  ]
