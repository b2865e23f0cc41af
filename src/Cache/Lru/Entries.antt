-- ===== src/Cache/Lru/Entries.antt =====
-- What holds of every entry of a cache, kept by the methods.
use pvz_service.Base.{
  ℕ, zero, suc, ◌≡◌, sym, ap, ◌∙◌, ◌≢◌, inl, inr, Option, none, some, List, [], ◌∷◌, arith,
  if◌then◌else◌, Bool-cases, Option-cases, Eq, take, All,
}
use mathlib.Core.Path.{subst}
use pvz_service.Cache.Lru.{CacheItem, LruCache, get, set, delete, is_expired}
use pvz_service.Cache.Lru.Spec.{view, find_item, without, spec_get, spec_set}
use pvz_service.Cache.Lru.Valid.{IsValid}
use pvz_service.Cache.Lru.Refine.{get-spec_get, set-spec_set, delete-without}

module _ {K V : Type 0} ⦃e : Eq K⦄ where
  All-without :
      (P Q : CacheItem K V → Type 0) (k : K)
      → ((x : CacheItem K V) → x.key ≢ k → P x → Q x)
      → (l : List (CacheItem K V)) → All P l
      → All Q (without k l)
  unfolding without
  All-without P Q k f [] h = tt
  All-without P Q k f (x ∷ l) h = elim (Bool-cases (e.beq x.key k)) [
    | inl same ↦ rw same (All-without P Q k f l h.1)
    | inr other ↦
        rw other
          (f x (λ equal. cc (other, (e.beq_iff x.key k).1 equal)) h.0, All-without P Q k f l h.1)
  ]

  All-take :
      (P : CacheItem K V → Type 0) (n : ℕ) (l : List (CacheItem K V)) → All P l → All P (take n l)
  All-take P zero l h = tt
  All-take P (suc n) [] h = tt
  All-take P (suc n) (x ∷ l) h = (h.0, All-take P n l h.1)

  All-find_item :
      (P : CacheItem K V → Type 0) (k : K) (l : List (CacheItem K V)) {x : CacheItem K V}
      → All P l
      → find_item k l ≡ some x
      → P x × (x.key ≡ k)
  unfolding find_item
  All-find_item P k [] h found = cc
  All-find_item P k (y ∷ l) {x} h found = elim (Bool-cases (e.beq y.key k)) [
    | inl here ↦
        let same : y ≡ x = cc (rw here at found) in
        (
          subst P same h.0,
          subst (λ (z : CacheItem K V). z.key ≡ k) same ((e.beq_iff y.key k).0 here),
        )
    | inr later ↦ All-find_item P k l h.1 (rw later at found)
  ]

  -- What a lookup that returned `v` found.
  abbrev pub Found : (CacheItem K V → Type 0) → K → V → Type 0
  Found P k v = (x : CacheItem K V) × P x × (x.key ≡ k) × (x.value ≡ v)

  -- The three ends of a lookup: a miss, an expired entry and a live one.
  spec_get_miss :
      (ttl now : ℕ) (k : K) (l : List (CacheItem K V))
      → find_item k l ≡ none
      → spec_get ttl now k l ≡ (l, none)
  unfolding spec_get
  spec_get_miss ttl now k l h = ground (arith, h)

  spec_get_hit :
      (ttl now : ℕ) (k : K) (l : List (CacheItem K V)) {x : CacheItem K V}
      → find_item k l ≡ some x
      → spec_get ttl now k l
        ≡ (if is_expired ttl now x then (without k l, none) else (x ∷ without k l, some x.value))
  unfolding spec_get
  spec_get_hit ttl now k l h = ground (arith, h)

  spec_get-All :
      (P : CacheItem K V → Type 0) (ttl now : ℕ) (k : K) (l : List (CacheItem K V))
      → All P l
      → All P (spec_get ttl now k l).0 × ((v : V) → (spec_get ttl now k l).1 ≡ some v → Found P k v)
  spec_get-All P ttl now k l h = elim (Option-cases (find_item k l)) [
    | inl missing ↦ rw (spec_get_miss ttl now k l missing) (h, λ v bad. cc)
    | inr (x, found) ↦
        let hit = spec_get_hit ttl now k l found in
        let (px, key) = All-find_item P k l h found in
        let rest = All-without P P k (λ y _ py. py) l h in
        elim (Bool-cases (is_expired ttl now x)) [
          | inl old ↦ rw (hit, old) (rest, λ v bad. cc)
          | inr live ↦ rw (hit, live) ((px, rest), λ v same. (x, px, key, cc))
        ]
  ]

  module _ (P : CacheItem K V → Type 0) (c : LruCache K V) (k : K) (valid : IsValid c)
      (h : All P (view c)) where
    pub get-All :
        (now : ℕ)
        → All P (view (get c now k).0) × ((v : V) → (get c now k).1 ≡ some v → Found P k v)
    get-All now =
        let same = get-spec_get c k now valid in
        let (kept, found) = spec_get-All P c.ttl now k (view c) h in
        (
          rw (ap (λ (r : List (CacheItem K V) × Option V). r.0) same) kept,
          λ v e. found v (sym (ap (λ (r : List (CacheItem K V) × Option V). r.1) same) ∙ e),
        )

    pub set-All :
        (now : ℕ) (v : V)
        → P (record { key = k; value = v; created_at = now })
        → All P (view (set c now k v))
    set-All now v p = rw (set-spec_set c k now v valid) (
        unfold spec_set in All-take P c.max_size _ (p, All-without P P k (λ x _ px. px) (view c) h))

    pub delete-All :
        (Q : CacheItem K V → Type 0)
        → ((x : CacheItem K V) → x.key ≢ k → P x → Q x)
        → All Q (view (delete c k))
    delete-All Q f = rw (delete-without c k valid) (All-without P Q k f (view c) h)
