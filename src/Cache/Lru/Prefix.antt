-- ===== src/Cache/Lru/Prefix.antt =====
-- `DeletePrefix` of pkg/cache/lru.go against the list of entries.
use mathlib.Core.List.{foldl}
use pvz_service.Base.{
  ℕ, ◌≡◌, refl, sym, ap, ◌∙◌, ◌≢◌, inl, inr, Bool, true, false, not, none, List, [], ◌∷◌, arith,
  if◌then◌else◌, Bool-cases, Option-cases, filterb, any, All, All-mono,
}
use pvz_service.Base.Text.{text_eq_instance, Text, text_eq, text_eq_iff, text_eq_refl}
use pvz_service.Cache.Lru.{
  CacheItem, Element, LruCache, delete, has_prefix, keys_to_delete, map_get, delete_prefix,
}
use pvz_service.Cache.Lru.Elements.{find_key}
use pvz_service.Cache.Lru.Refine.{delete-without}
use pvz_service.Cache.Lru.Spec.{view, without, entries}
use pvz_service.Cache.Lru.Valid.{IsValid, delete-IsValid}

-- Whether a key is among those of a list.
abbrev is_among : List Text → Text → Bool
is_among ks k = any (λ j. text_eq k j) ks

among-without_prefix :
    (p k : Text) (m : List (Text × ℕ))
    → has_prefix p k ≡ false
    → is_among (keys_to_delete p m) k ≡ false
unfolding keys_to_delete
among-without_prefix p k [] h = refl
among-without_prefix p k ((j, a) ∷ m) h =
    ground (arith, among-without_prefix p k m h, text_eq_iff k j)

among-with_prefix :
    (p k : Text) (m : List (Text × ℕ))
    → has_prefix p k ≡ true
    → map_get k m ≢ none
    → is_among (keys_to_delete p m) k ≡ true
unfolding keys_to_delete map_get
among-with_prefix p k [] h there = absurd (there refl)
among-with_prefix p k ((j, a) ∷ m) h there = elim (Bool-cases (text_eq j k)) [
  | inl here ↦
      let same : j ≡ k = (text_eq_iff j k).0 here in
      let it : text_eq k j ≡ true = (text_eq_iff k j).1 (sym same) in
      let begins : has_prefix p j ≡ true = rw same h in rw (begins, it) refl
  | inr other ↦
      let rest = among-with_prefix p k m h (rw other at there) in
      elim (Bool-cases (has_prefix p j)) [
        | inl begins ↦ rw begins (elim (Bool-cases (text_eq k j)) [
          | inl it ↦ rw it refl
          | inr differs ↦ rw differs rest
        ])
        | inr does_not ↦ rw does_not rest
      ]
]

module _ {V : Type 0} where
  abbrev without_all : List Text → List (CacheItem Text V) → List (CacheItem Text V)
  without_all [] l = l
  without_all (k ∷ ks) l = without_all ks (without k l)

  filterb-true : (l : List (CacheItem Text V)) → filterb (λ x. true) l ≡ l
  filterb-true [] = refl
  filterb-true (x ∷ l) = ap (◌∷◌ x) (filterb-true l)

  filterb-without :
      (ks : List Text) (k : Text) (l : List (CacheItem Text V))
      → filterb (λ x. not (is_among ks x.key)) (without k l)
        ≡ filterb (λ x. not (is_among (k ∷ ks) x.key)) l
  unfolding without
  filterb-without ks k [] = refl
  filterb-without ks k (x ∷ l) = elim (Bool-cases (text_eq x.key k)) [
    | inl same ↦ rw same (filterb-without ks k l)
    | inr other ↦
        rw other (ap (λ r. if not (is_among ks x.key) then x ∷ r else r) (filterb-without ks k l))
  ]

  without_all-filterb :
      (ks : List Text) (l : List (CacheItem Text V))
      → without_all ks l ≡ filterb (λ x. not (is_among ks x.key)) l
  without_all-filterb [] l = sym (filterb-true l)
  without_all-filterb (k ∷ ks) l = without_all-filterb ks (without k l) ∙ filterb-without ks k l

  deleted :
      (ks : List Text) (c : LruCache Text V)
      → IsValid c
      → IsValid (foldl delete c ks) × (view (foldl delete c ks) ≡ without_all ks (view c))
  deleted [] c v = (v, refl)
  deleted (k ∷ ks) c v =
      let (valid, left) = deleted ks (delete c k) (delete-IsValid c k v) in
      (valid, left ∙ ap (without_all ks) (delete-without c k v))

  find_key-there : (l : List (Element Text V)) → All (λ x. find_key x.1.key l ≢ none) l
  unfolding find_key
  find_key-there [] = tt
  find_key-there (x ∷ l) = (
    λ missing. ground (arith, text_eq_refl x.1.key),
    All-mono _ _ (λ y there missing. there (ground arith)) l (find_key-there l),
  )

  entries-cong :
      (f g : CacheItem Text V → Bool) (l : List (Element Text V))
      → All (λ y. f y.1 ≡ g y.1) l
      → filterb f (entries l) ≡ filterb g (entries l)
  entries-cong f g [] h = refl
  entries-cong f g (y ∷ l) h = rw (h.0, entries-cong f g l h.1) refl

  among-has_prefix :
      (c : LruCache Text V) (p k : Text)
      → IsValid c
      → find_key k c.order ≢ none
      → is_among (keys_to_delete p c.items) k ≡ has_prefix p k
  among-has_prefix c p k v there = elim (Bool-cases (has_prefix p k)) [
    | inr does_not ↦ among-without_prefix p k c.items does_not ∙ sym does_not
    | inl begins ↦
        among-with_prefix p k c.items begins (λ missing. elim (Option-cases (find_key k c.order)) [
          | inl absent ↦ there absent
          | inr (x, found) ↦ cc (v.agree k, found, missing)
        ])
        ∙ sym begins
  ]

  -- DeletePrefix on a valid cache keeps it valid and leaves exactly the entries whose key does not
  -- begin with the prefix, in their order.
  pub delete_prefix-filterb :
      (c : LruCache Text V) (prefix : Text)
      → IsValid c
      → IsValid (delete_prefix c prefix)
        × (view (delete_prefix c prefix) ≡ filterb (λ x. not (has_prefix prefix x.key)) (view c))
  unfolding delete_prefix
  delete_prefix-filterb c prefix v =
      let ks = keys_to_delete prefix c.items in
      let (valid, left) = deleted ks c v in
      (
        valid,
        left
            ∙ (without_all-filterb ks (view c)
                ∙ entries-cong _ _ c.order (
                    All-mono _ _ (λ y there. ap not (among-has_prefix c prefix y.1.key v there))
                      c.order (find_key-there c.order))),
      )
