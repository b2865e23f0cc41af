-- ===== src/Cache/Lru/Refine.antt =====
-- The map, the list and the addresses together behave as the list of entries of `Cache.Lru.Spec`.
use pvz_service.Base.{
  ℕ, suc, ◌-◌, ◌≤◌, ◌<◌, ◌≡◌, sym, ap, ◌∙◌, inl, inr, none, some, List, ◌∷◌, arith, ltb, Bool-cases,
  Option-cases, Eq, length, take, take_of_length-le,
}
use mathlib.Core.Path.{ap₂}
use pvz_service.Cache.Lru.{
  CacheItem, Element, LruCache, is_expired, remove_element, remove_oldest, get, set, delete,
  list_remove,
}
use pvz_service.Cache.Lru.Elements.{address, find_key, find_key-deref, length-list_remove}
use pvz_service.Cache.Lru.Linked.{IsLinked, pushed-IsLinked}
use pvz_service.Cache.Lru.Cases.{
  get_absent, get_present, set_present, set_absent, pushed, delete_absent, delete_present,
}
use pvz_service.Cache.Lru.Spec.{
  view, find_item, without, spec_get, spec_set, entries-find_key, entries-list_remove,
  without_absent, list_remove-back, length-entries,
}
use pvz_service.Cache.Lru.Valid.{IsValid, nonempty-back, remove_oldest_lem}

module _ {K V : Type 0} ⦃e : Eq K⦄ (c : LruCache K V) (k : K) where
  -- What the list of entries shows of a key that is cached, and of one that is not.
  item_present : {x : Element K V} → find_key k c.order ≡ some x → find_item k (view c) ≡ some x.1
  item_present found = ground (arith, entries-find_key k c.order)

  item_absent : find_key k c.order ≡ none → find_item k (view c) ≡ none
  item_absent missing = ground (arith, entries-find_key k c.order)

  view-remove_element :
      {x : Element K V}
      → IsLinked c
      → find_key k c.order ≡ some x
      → view (remove_element c x) ≡ without k (view c)
  unfolding remove_element
  view-remove_element linked found = entries-list_remove k c.order linked.ids linked.keys found

  -- Get on a valid cache returns what the list of entries in order of use returns, and leaves the
  -- entries that it leaves: an expired one is dropped, a live one moves to the front, a miss
  -- changes nothing.
  pub get-spec_get :
      (now : ℕ)
      → IsValid c
      → (view (get c now k).0, (get c now k).1) ≡ spec_get c.ttl now k (view c)
  get-spec_get now v = elim (Option-cases (find_key k c.order)) [
    | inl missing ↦
        rw (get_absent c now k v.linked missing)
          (unfold spec_get in ground (arith, item_absent missing))
    | inr (x, found) ↦
        let present = get_present c now k v.linked found in
        let gone = view-remove_element v.linked found in
        let kept = entries-list_remove k c.order v.ids v.keys found in
        elim (Bool-cases (is_expired c.ttl now x.1)) [
          | inl old ↦
              rw (present, old) (unfold spec_get in ground (arith, item_present found, gone, old))
          | inr live ↦
              rw (present, live) (unfold spec_get in ground (arith, item_present found, kept, live))
        ]
  ]

  -- Delete on a valid cache removes the entry of the key and no other.
  pub delete-without : IsValid c → view (delete c k) ≡ without k (view c)
  delete-without v = elim (Option-cases (find_key k c.order)) [
    | inl missing ↦
        rw (delete_absent c 0 k v.linked missing) (sym (without_absent k c.order missing))
    | inr (x, found) ↦ rw (delete_present c 0 k v.linked found) (view-remove_element v.linked found)
  ]

  -- The entries after a push and the eviction of the oldest.
  view-oldest :
      (p : LruCache K V)
      → IsLinked p
      → 0 < length p.order
      → view (remove_oldest p) ≡ take (length p.order - 1) (view p)
  view-oldest p linked nonempty =
      let (x, last) = nonempty-back p.order nonempty in
      rw (remove_oldest_lem p linked last).0
        (unfold remove_element in list_remove-back p.order linked.ids last)

  -- Set on a valid cache puts the new entry in front of the other keys' entries and keeps the
  -- max_size most recent ones.
  pub set-spec_set :
      (now : ℕ) (value : V)
      → IsValid c
      → view (set c now k value) ≡ spec_set c.max_size now k value (view c)
  set-spec_set now value v = elim (Option-cases (find_key k c.order)) [
    | inl missing ↦
        let item : CacheItem K V = record { key = k; value = value; created_at = now } in
        let absent = without_absent k c.order missing in
        let count = length-entries c.order in
        let unknown = v.agree k ∙ ap address missing in
        let p = pushed c now k value in
        let linked : IsLinked p = pushed-IsLinked c v.linked item unknown in
        elim (Bool-cases (ltb c.max_size (suc (length c.order)))) [
          | inl full ↦
              let size : suc (length c.order) - 1 ≡ c.max_size = ground arith in
              rw (set_absent c now k value v.linked missing, full)
                (view-oldest p linked (omega arith)
                  ∙ ap (λ (n : ℕ). take n (view p)) size
                  ∙ unfold spec_set in rw absent)
          | inr room ↦
              rw (set_absent c now k value v.linked missing, room)
                (unfold spec_set in
                  rw absent (sym (take_of_length-le c.max_size (view p) (ground (arith, count)))))
        ]
    | inr (x, found) ↦
        let kept = entries-list_remove k c.order v.ids v.keys found in
        let (at, key) = find_key-deref k c.order v.ids found in
        let item : CacheItem K V = record { key = k; value = value; created_at = now } in
        let small : length (item ∷ without k (view c)) ≤ c.max_size = omega (
          arith,
          ap length kept,
          length-entries (list_remove x.0 c.order),
          length-list_remove x.0 c.order x.1 v.ids at,
          v.bounded,
        ) in
        rw (set_present c now k value v.linked found) (
          ap₂
            (λ (j : K) (l : List (CacheItem K V)).
              record { key = j; value = value; created_at = now } ∷ l)
            key kept
          ∙ unfold spec_set in sym (take_of_length-le c.max_size (item ∷ without k (view c)) small))
  ]
