-- ===== src/Cache/Lru/Cases.antt =====
-- Each method on a linked cache, by whether the key is cached.
use pvz_service.Base.{ℕ, suc, ◌≡◌, ap, ◌∙◌, none, some, ◌∷◌, arith, ltb, if◌then◌else◌, Eq, length}
use pvz_service.Cache.Lru.{
  Element, LruCache, map_get, map_set, list_remove, is_expired, remove_element, remove_oldest, get,
  set, delete,
}
use pvz_service.Cache.Lru.Elements.{
  address, deref-list_write, list_remove-list_write, find_key, find_key-deref,
}
use pvz_service.Cache.Lru.Linked.{IsLinked}

module _ {K V : Type 0} ⦃e : Eq K⦄ (c : LruCache K V) (now : ℕ) (k : K) where
  get_missing : map_get k c.items ≡ none → get c now k ≡ (c, none)
  unfolding get
  get_missing h = ground arith

  -- `Get` of a key that is not cached.
  pub get_absent : IsLinked c → find_key k c.order ≡ none → get c now k ≡ (c, none)
  get_absent linked h = get_missing (linked.agree k ∙ ap address h)

  -- `Get` of a cached key, by its element.
  pub get_present :
      {x : Element K V}
      → IsLinked c
      → find_key k c.order ≡ some x
      → get c now k ≡ (
          if is_expired c.ttl now x.1
          then (remove_element c x, none)
          else (record c { order = x ∷ list_remove x.0 c.order }, some x.1.value))
  unfolding get
  get_present {x} linked found =
      let known : map_get k c.items ≡ some x.0 = linked.agree k ∙ ap address found in
      let at = (find_key-deref k c.order linked.ids found).0 in ground (arith, known, at)

  -- `Set` of a cached key writes its element and puts it in front.
  pub set_present :
      (value : V) {x : Element K V}
      → IsLinked c
      → find_key k c.order ≡ some x
      → set c now k value ≡ record c {
        order = (x.0, record x.1 { value = value; created_at = now }) ∷ list_remove x.0 c.order;
      }
  unfolding set
  set_present value {x} linked found =
      let known : map_get k c.items ≡ some x.0 = linked.agree k ∙ ap address found in
      let at = (find_key-deref k c.order linked.ids found).0 in
      ground (
        arith,
        known,
        deref-list_write x.0 value now c.order x.1 at,
        list_remove-list_write x.0 value now c.order,
      )

  -- The cache with a new element in front, before the eviction.
  abbrev pub pushed : V → LruCache K V
  pushed value = record c {
    items = map_set k c.next c.items;
    order = (c.next, record { key = k; value = value; created_at = now }) ∷ c.order;
    next = suc c.next;
  }

  -- `Set` of a new key.
  pub set_absent :
      (value : V)
      → IsLinked c
      → find_key k c.order ≡ none
      → set c now k value ≡ (
          if ltb c.max_size (suc (length c.order))
          then remove_oldest (pushed value)
          else pushed value)
  unfolding set
  set_absent value linked h =
      let unknown : map_get k c.items ≡ none = linked.agree k ∙ ap address h in
      ground (arith, unknown)

  pub delete_absent : IsLinked c → find_key k c.order ≡ none → delete c k ≡ c
  unfolding delete
  delete_absent linked h =
      let unknown : map_get k c.items ≡ none = linked.agree k ∙ ap address h in
      ground (arith, unknown)

  pub delete_present :
      {x : Element K V} → IsLinked c → find_key k c.order ≡ some x → delete c k ≡ remove_element c x
  unfolding delete
  delete_present {x} linked found =
      let known : map_get k c.items ≡ some x.0 = linked.agree k ∙ ap address found in
      ground (arith, known, (find_key-deref k c.order linked.ids found).0)
