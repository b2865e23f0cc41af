-- ===== src/Cache/Lru/Valid.antt =====
-- Every method keeps the invariant: the map and the list name the same entries, each key once, and
-- there are never more than `max_size`.
use pvz_service.Base.{
  ℕ, zero, suc, ◌+◌, ◌≤◌, ◌<◌, ◌≡◌, refl, ap, ◌∙◌, inl, inr, some, List, [], ◌∷◌, arith, ltb,
  Bool-cases, Option-cases, ℤ, Eq, length, pos, negsuc,
}
use pvz_service.Cache.Lru.{
  Config, Element, LruCache, new, size_or_default, is_expired, remove_element, remove_oldest, get,
  set, delete, clear, back, size, map_get,
}
use pvz_service.Cache.Lru.Elements.{address, find_key, find_key-deref, find_key_self, find_key-back}
use pvz_service.Cache.Lru.Linked.{
  IsLinked, remove_element-IsLinked, front-IsLinked, pushed-IsLinked,
}
use pvz_service.Cache.Lru.Cases.{
  get_absent, get_present, set_present, set_absent, pushed, delete_absent, delete_present,
}
use pvz_service.Cache.Lru.Spec.{back-some}

size_or_default_pos : (z : ℤ) → 0 < size_or_default z
size_or_default_pos (pos zero) = omega arith
size_or_default_pos (pos (suc n)) = omega arith
size_or_default_pos (negsuc n) = omega arith

module _ {K V : Type 0} ⦃e : Eq K⦄ where
  -- At most `max_size` entries, linked.
  pub record IsValid (c : LruCache K V) : Type 0 where
    pub positive : 0 < c.max_size
    pub bounded : length c.order ≤ c.max_size
    pub linked : IsLinked c
    pub open linked use *

  -- A new cache is empty and valid, whatever the configuration says.
  pub new-IsValid : (config : Config) → IsValid (new {K = K} {V = V} config)
  unfolding new map_get find_key
  new-IsValid config = record {
    positive = size_or_default_pos config.max_size;
    bounded = omega arith;
    linked = record {
      agree = λ k. refl;
      counted = refl;
      map_keys = tt;
      ids = tt;
      keys = tt;
      fresh = tt;
    };
  }

  remove_element-bounded :
      (c : LruCache K V) (x : Element K V)
      → IsValid c
      → length (remove_element c x).order + 1 ≡ length c.order
      → length (remove_element c x).order ≤ (remove_element c x).max_size
  unfolding remove_element
  remove_element-bounded c x v shorter = omega arith

  pub remove_element-IsValid :
      (c : LruCache K V) (x : Element K V)
      → IsValid c
      → find_key x.1.key c.order ≡ some x
      → IsValid (remove_element c x)
  remove_element-IsValid c x v found =
      let (linked, shorter) = remove_element-IsLinked c v.linked x found in
      record {
        positive = unfold remove_element in v.positive;
        bounded = remove_element-bounded c x v shorter;
        linked = linked;
      }

  -- The eviction drops the last element, of which there is one.
  pub remove_oldest_lem :
      (c : LruCache K V) {x : Element K V}
      → IsLinked c
      → back c.order ≡ some x
      → (remove_oldest c ≡ remove_element c x) × (find_key x.1.key c.order ≡ some x)
  unfolding remove_oldest
  remove_oldest_lem c linked h = (ground (arith, h), find_key-back c.order linked.keys h)

  pub nonempty-back :
      (l : List (Element K V)) → 0 < length l → (x : Element K V) × (back l ≡ some x)
  nonempty-back [] h = absurd (omega arith)
  nonempty-back (x ∷ l) h = back-some x l

  -- One entry too many, and the oldest goes.
  oldest-IsValid :
      (c : LruCache K V)
      → 0 < c.max_size
      → IsLinked c
      → length c.order ≡ suc c.max_size
      → IsValid (remove_oldest c)
  oldest-IsValid c positive linked full =
      let (x, last) = nonempty-back c.order (omega arith) in
      let (evict, found) = remove_oldest_lem c linked last in
      let (linked', shorter) = remove_element-IsLinked c linked x found in
      rw evict (record {
        positive = unfold remove_element in positive;
        bounded = unfold remove_element in omega (arith, shorter);
        linked = linked';
      })

  module _ (c : LruCache K V) (k : K) where
    -- `Get` keeps the invariant.
    pub get-IsValid : (now : ℕ) → IsValid c → IsValid (get c now k).0
    get-IsValid now v = elim (Option-cases (find_key k c.order)) [
      | inl missing ↦ rw (get_absent c now k v.linked missing) v
      | inr (x, found) ↦
          let self = find_key_self k c.order v.ids found in
          let present = get_present c now k v.linked found in
          elim (Bool-cases (is_expired c.ttl now x.1)) [
            | inl old ↦ rw (present, old) (remove_element-IsValid c x v self)
            | inr live ↦
                let linked = front-IsLinked c v.linked x self x.1 refl in
                rw (present, live)
                  (record {
                    positive = v.positive;
                    bounded = omega (arith, linked.counted, v.counted);
                    linked = linked;
                  })
          ]
    ]

    -- `Delete` keeps the invariant.
    pub delete-IsValid : IsValid c → IsValid (delete c k)
    delete-IsValid v = elim (Option-cases (find_key k c.order)) [
      | inl missing ↦ rw (delete_absent c 0 k v.linked missing) v
      | inr (x, found) ↦
          rw (delete_present c 0 k v.linked found)
            (remove_element-IsValid c x v (find_key_self k c.order v.ids found))
    ]

    -- `Clear` keeps the invariant.
    pub clear-IsValid : IsValid c → IsValid (clear c)
    unfolding clear map_get find_key
    clear-IsValid v = record {
      positive = v.positive;
      bounded = omega arith;
      linked = record {
        agree = λ j. refl;
        counted = refl;
        map_keys = tt;
        ids = tt;
        keys = tt;
        fresh = tt;
      };
    }

    -- `Size`, the number of keys in the map, is the number of entries in the list.
    pub size-length : IsValid c → size c ≡ length c.order
    unfolding size
    size-length v = v.counted

    -- Set keeps a cache valid: map and list agree, keys and addresses are unique, and there are at
    -- most max_size entries.
    pub set-IsValid : (now : ℕ) (value : V) → IsValid c → IsValid (set c now k value)
    set-IsValid now value v = elim (Option-cases (find_key k c.order)) [
      | inl missing ↦
          let linked =
            pushed-IsLinked c v.linked (record { key = k; value = value; created_at = now })
              (v.agree k ∙ ap address missing) in
          elim (Bool-cases (ltb c.max_size (suc (length c.order)))) [
            | inl full ↦
                rw (set_absent c now k value v.linked missing, full)
                  (oldest-IsValid (pushed c now k value) v.positive linked (ground arith))
            | inr room ↦
                rw (set_absent c now k value v.linked missing, room)
                  (record { positive = v.positive; bounded = ground arith; linked = linked })
          ]
      | inr (x, found) ↦
          let self = find_key_self k c.order v.ids found in
          let key = (find_key-deref k c.order v.ids found).1 in
          let item = record x.1 { value = value; created_at = now } in
          let linked = front-IsLinked c v.linked x self item refl in
          rw (set_present c now k value v.linked found) (record {
            positive = v.positive;
            bounded = omega (arith, linked.counted, v.counted);
            linked = linked;
          })
    ]
