-- ===== src/Cache/Lru/Linked.antt =====
-- The invariant that ties the map to the list: removing, moving and pushing one element keep it.
use pvz_service.Base.{
  ℕ, suc, ◌+◌, ◌≤◌, ◌<◌, ◌≡◌, ap, ◌∙◌, ◌≢◌, inl, inr, none, some, ◌∷◌, arith, Option-cases, Eq,
  length, All, All-mono,
}
use pvz_service.Cache.Lru.{
  CacheItem, Element, LruCache, map_get, map_delete, map_set, deref, list_remove, remove_element,
}
use pvz_service.Cache.Lru.Elements.{
  address, UniqueIds, UniqueKeys, list_remove-UniqueIds, list_remove-UniqueKeys, length-list_remove,
  list_remove-All-ne, All-list_remove, find_key, find_key-cons, find_key-deref,
  find_key-list_remove, find_key-All, find_key-none-All,
}
use pvz_service.Cache.Lru.Keys.{
  UniqueMap, map_get-cons, map_get-map_delete, map_delete-UniqueMap, map_delete-All-ne,
  length-map_delete, map_delete-none,
}

module _ {K V : Type 0} ⦃e : Eq K⦄ where
  -- The map sends each key to the one element that holds it.
  pub record IsLinked (c : LruCache K V) : Type 0 where
    pub agree : (k : K) → map_get k c.items ≡ address (find_key k c.order)
    pub counted : length c.items ≡ length c.order
    pub map_keys : UniqueMap c.items
    pub ids : UniqueIds c.order
    pub keys : UniqueKeys c.order
    pub fresh : All (λ x. x.0 < c.next) c.order

  -- At most `max_size` entries, linked.
  pub record IsValid (c : LruCache K V) : Type 0 where
    pub positive : 0 < c.max_size
    pub bounded : length c.order ≤ c.max_size
    pub linked : IsLinked c
    pub open linked use *

  module _ (c : LruCache K V) (linked : IsLinked c) where
    -- A key that the map knows is the key of the element that it names.
    pub lookup_element :
        (k : K) {a : ℕ}
        → map_get k c.items ≡ some a
        → (item : CacheItem K V) × (find_key k c.order ≡ some (a, item))
          × (deref a c.order ≡ some item)
          × (item.key ≡ k)
    lookup_element k {a} h = elim (Option-cases (find_key k c.order)) [
      | inl missing ↦ absurd (cc (linked.agree k, missing))
      | inr ((b, item), found) ↦
          let same : b ≡ a = cc (linked.agree k, found, h) in
          let (at, key) = find_key-deref k c.order linked.ids found in
          (item, rw (← same) found, rw (← same) at, key)
    ]

    pub lookup_absent : (k : K) → map_get k c.items ≡ none → find_key k c.order ≡ none
    lookup_absent k h = elim (Option-cases (find_key k c.order)) [
      | inl missing ↦ missing
      | inr (x, found) ↦ absurd (cc (linked.agree k, found))
    ]

    module _ (x : Element K V) (found : find_key x.1.key c.order ≡ some x) where
      shorter : length (list_remove x.0 c.order) + 1 ≡ length c.order
      shorter =
          length-list_remove x.0 c.order x.1 linked.ids
            (find_key-deref x.1.key c.order linked.ids found).0

      pub remove_element-IsLinked :
          IsLinked (remove_element c x) × (length (remove_element c x).order + 1 ≡ length c.order)
      unfolding remove_element
      remove_element-IsLinked = (
        record {
          agree = λ j. ground (
            arith,
            map_get-map_delete j x.1.key c.items,
            find_key-list_remove j x.1.key c.order linked.ids linked.keys found,
            linked.agree j,
          );
          counted = omega (
            arith,
            shorter,
            linked.counted,
            length-map_delete x.1.key c.items x.0 linked.map_keys
                (linked.agree x.1.key ∙ ap address found),
          );
          map_keys = map_delete-UniqueMap x.1.key c.items linked.map_keys;
          ids = list_remove-UniqueIds x.0 c.order linked.ids;
          keys = list_remove-UniqueKeys x.0 c.order linked.keys;
          fresh = All-list_remove (λ y. y.0 < c.next) x.0 c.order linked.fresh;
        },
        shorter,
      )

      -- The element put in front, with another value or creation time.
      pub front-IsLinked :
          (item : CacheItem K V)
          → item.key ≡ x.1.key
          → IsLinked (record c { order = (x.0, item) ∷ list_remove x.0 c.order })
      front-IsLinked item key = record {
        agree = λ j.
            let rest = list_remove x.0 c.order in
            ground (
              arith,
              find_key-cons j (x.0, item) rest,
              find_key-list_remove j x.1.key c.order linked.ids linked.keys found,
              linked.agree j,
              linked.agree x.1.key,
              e.beq_iff item.key j,
              e.beq_iff x.1.key j,
            );
        counted = omega (arith, shorter, linked.counted);
        map_keys = linked.map_keys;
        ids = (list_remove-All-ne x.0 c.order, list_remove-UniqueIds x.0 c.order linked.ids);
        keys = (
          find_key-none-All item.key (list_remove x.0 c.order) (
              ground (
                arith,
                find_key-list_remove item.key x.1.key c.order linked.ids linked.keys found,
                e.beq_iff x.1.key item.key,
              )),
          list_remove-UniqueKeys x.0 c.order linked.keys,
        );
        fresh = (
          find_key-All (λ y. y.0 < c.next) x.1.key c.order linked.fresh found,
          All-list_remove (λ y. y.0 < c.next) x.0 c.order linked.fresh,
        );
      }

    -- A new element in front, under a key that the map does not know.
    pub pushed-IsLinked :
        (item : CacheItem K V)
        → map_get item.key c.items ≡ none
        → IsLinked (record c {
          items = map_set item.key c.next c.items;
          order = (c.next, item) ∷ c.order;
          next = suc c.next;
        })
    unfolding map_set
    pushed-IsLinked item absent = record {
      agree = λ j. ground (
        arith,
        find_key-cons j (c.next, item) c.order,
        map_get-cons j item.key c.next (map_delete item.key c.items),
        map_get-map_delete j item.key c.items,
        linked.agree j,
      );
      counted = ground (arith, map_delete-none item.key c.items absent, linked.counted);
      map_keys = (
        map_delete-All-ne item.key c.items,
        map_delete-UniqueMap item.key c.items linked.map_keys,
      );
      ids = (
        All-mono (λ x. x.0 < c.next) (λ x. x.0 ≢ c.next) (λ x h. omega arith) c.order linked.fresh,
        linked.ids,
      );
      keys = (find_key-none-All item.key c.order (lookup_absent item.key absent), linked.keys);
      fresh = (
        omega arith,
        All-mono (λ x. x.0 < c.next) (λ x. x.0 < suc c.next) (λ x h. omega arith) c.order
            linked.fresh,
      );
    }
