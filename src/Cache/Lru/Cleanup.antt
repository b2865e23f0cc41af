-- ===== src/Cache/Lru/Cleanup.antt =====
-- `CleanupExpired` of pkg/cache/lru.go against the list of entries.
use mathlib.Core.List.{foldl, reverse, reverse-cons, reverse-reverse, append-nil, append_assoc}
use mathlib.Core.Path.{subst}
use pvz_service.Base.{
  ℕ, ◌-◌, ◌<◌, ◌≡◌, refl, sym, ap, ◌∙◌, ◌≢◌, ◌⊎◌, inl, inr, Bool, true, false, some, List, [], ◌∷◌,
  ◌++◌, arith, ltb, leb, Bool-cases, Eq, All,
}
use pvz_service.Cache.Lru.{
  CacheItem, Element, back, list_remove, LruCache, expired_elements, remove_element,
  cleanup_expired,
}
use pvz_service.Cache.Lru.Elements.{UniqueIds}
use pvz_service.Cache.Lru.Spec.{entries, view}
use pvz_service.Cache.Lru.Valid.{IsValid, remove_element-IsValid, remove_oldest_lem}

module _ {K V : Type 0} where
  -- Older than the time to live.
  abbrev pub is_old : ℕ → ℕ → CacheItem K V → Bool
  is_old ttl now item = ltb ttl (now - item.created_at)

  -- Empty, or the last entry is not old.
  abbrev pub EndsLive : ℕ → ℕ → List (CacheItem K V) → Type 0
  EndsLive ttl now l =
      (l ≡ [])
      ⊎ ((rest : List (CacheItem K V)) × (last : CacheItem K V) × (l ≡ rest ++ last ∷ [])
          × (is_old ttl now last ≡ false))

  -- `before` without its longest tail of old entries is `after`.
  abbrev pub Trims : ℕ → ℕ → List (CacheItem K V) → List (CacheItem K V) → Type 0
  Trims ttl now before after =
      (dropped : List (CacheItem K V)) × (before ≡ after ++ dropped)
      × All (λ x. is_old ttl now x ≡ true) dropped
      × EndsLive ttl now after

  back-append : (l : List (Element K V)) (x : Element K V) → back (l ++ x ∷ []) ≡ some x
  unfolding back
  back-append [] x = refl
  back-append (y ∷ []) x = refl
  back-append (y ∷ z ∷ l) x = back-append (z ∷ l) x

  entries-append : (l m : List (Element K V)) → entries (l ++ m) ≡ entries l ++ entries m
  entries-append [] m = refl
  entries-append (x ∷ l) m = ap (◌∷◌ x.1) (entries-append l m)

  All-last :
      (P : Element K V → Type 0) (l : List (Element K V)) (x : Element K V)
      → All P (l ++ x ∷ [])
      → P x
  All-last P [] x h = h.0
  All-last P (y ∷ l) x h = All-last P l x h.1

  list_remove-append :
      (l : List (Element K V)) (x : Element K V)
      → UniqueIds (l ++ x ∷ [])
      → list_remove x.0 (l ++ x ∷ []) ≡ l
  unfolding list_remove
  list_remove-append [] x u = ground arith
  list_remove-append (y ∷ l) x u =
      let other : x.0 ≢ y.0 = All-last (λ z. z.0 ≢ y.0) l x u.0 in
      ground (arith, list_remove-append l x u.1)

module _ {K V : Type 0} ⦃e : Eq K⦄ where
  All-snoc :
      (P : CacheItem K V → Type 0) (l : List (CacheItem K V)) (x : CacheItem K V)
      → All P l
      → P x
      → All P (l ++ x ∷ [])
  All-snoc P [] x h p = (p, tt)
  All-snoc P (y ∷ l) x h p = (h.0, All-snoc P l x h.1 p)

  -- The removals, for a cache whose list from the back is `r`.
  swept :
      (ttl now : ℕ) (r : List (Element K V)) (c : LruCache K V)
      → IsValid c
      → c.order ≡ reverse r
      → let c' = foldl remove_element c (expired_elements ttl now r) in
        IsValid c' × Trims ttl now (view c) (view c')
  unfolding expired_elements
  swept ttl now [] c v o = (v, ([], sym (append-nil (view c)), tt, inl (ap entries o)))
  swept ttl now (x ∷ r) c v o =
      let order : c.order ≡ reverse r ++ x ∷ [] = o ∙ reverse-cons x r in
      elim (Bool-cases (is_old ttl now x.1)) [
        | inr live ↦ rw live (
          v,
          (
            [],
            sym (append-nil (view c)),
            tt,
            inr (
              entries (reverse r),
              x.1,
              ap entries order ∙ entries-append (reverse r) (x ∷ []),
              live,
            ),
          ),
        )
        | inl old ↦
            let found = (remove_oldest_lem c v.linked (rw order (back-append (reverse r) x))).1 in
            let shorter : (remove_element c x).order ≡ reverse r =
              unfold remove_element in
              ap (list_remove x.0) order
              ∙ list_remove-append (reverse r) x (subst UniqueIds order v.ids) in
            let (valid, (dropped, split, all_old, ends)) =
              swept ttl now r (remove_element c x) (remove_element-IsValid c x v found) shorter in
            let whole =
              ap entries order
              ∙ (entries-append (reverse r) (x ∷ [])
                  ∙ (ap (λ l. l ++ x.1 ∷ []) (sym (ap entries shorter) ∙ split)
                      ∙ append_assoc _ dropped (x.1 ∷ []))) in
            rw old (valid, (dropped ++ x.1 ∷ [], whole, All-snoc _ dropped x.1 all_old old, ends))
      ]

  -- CleanupExpired on a valid cache with a positive time to live keeps it valid and removes the
  -- longest tail of old entries from the entries in the order of their last use: an old entry in
  -- front of one that is not old stays.
  pub cleanup_expired-Trims :
      (c : LruCache K V) (now : ℕ)
      → IsValid c
      → 0 < c.ttl
      → IsValid (cleanup_expired c now) × Trims c.ttl now (view c) (view (cleanup_expired c now))
  unfolding cleanup_expired
  cleanup_expired-Trims c now v positive =
      let on : leb c.ttl 0 ≡ false = ground arith in
      rw on (swept c.ttl now (reverse c.order) c v (sym (reverse-reverse c.order)))
