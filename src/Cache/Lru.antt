-- ===== src/Cache/Lru.antt =====
-- pkg/cache/lru.go. The map holds list elements; an element is named by its number, which stands
-- for its address, and `next` is the number of the next element to be allocated. The mutex makes
-- each method one step. `time.Now()` is the argument `now`; a later creation time counts as age 0,
-- which is below every positive time to live, as the negative duration is.
pub mod Elements
pub mod Keys
pub mod Linked
pub mod Cases
pub mod Spec
pub mod Valid
pub mod Refine
pub mod Entries
pub mod Prefix
pub mod Cleanup
use pvz_service.Base.{
  ℕ, zero, suc, ◌-◌, Bool, false, ◌&&◌, Option, none, some, List, [], ◌∷◌, ltb, leb, ◌==◌,
  if◌then◌else◌, ℤ, pos_part, Eq, length, take, pos, negsuc,
}
use mathlib.Core.List.{reverse, foldl}
use pvz_service.Base.Text.{Text, text_eq, text_eq_instance}

pub record Config : Type 0 where
  pub max_size : ℤ
  pub ttl : ℤ

pub record CacheItem (K V : Type 0) : Type 0 where
  pub key : K
  pub value : V
  pub created_at : ℕ

-- A list element: its address and the item it points to.
abbrev pub Element : Type 0 → Type 0 → Type 0
Element K V = ℕ × CacheItem K V

pub record LruCache (K V : Type 0) : Type 0 where
  pub max_size : ℕ
  pub ttl : ℕ
  pub items : List (K × ℕ)
  pub order : List (Element K V)
  pub next : ℕ

-- The `if config.MaxSize <= 0` of `New`.
abbrev size_or_default : ℤ → ℕ
size_or_default (pos zero) = 100
size_or_default (pos (suc n)) = suc n
size_or_default (negsuc n) = 100

-- A time to live that is not positive disables expiry, which 0 stands for.
unfoldable pub new : {K V : Type 0} → Config → LruCache K V
new config = record {
  max_size = size_or_default config.max_size;
  ttl = pos_part config.ttl;
  items = [];
  order = [];
  next = 0;
}

module _ {K : Type 0} ⦃e : Eq K⦄ where
  -- Go's map from keys to list elements, without its iteration order.
  unfoldable pub map_get : K → List (K × ℕ) → Option ℕ
  map_get k [] = none
  map_get k ((j, a) ∷ m) = if e.beq j k then some a else map_get k m

  unfoldable pub map_delete : K → List (K × ℕ) → List (K × ℕ)
  map_delete k [] = []
  map_delete k ((j, a) ∷ m) = let rest = map_delete k m in if e.beq j k then rest else (j, a) ∷ rest

  unfoldable pub map_set : K → ℕ → List (K × ℕ) → List (K × ℕ)
  unfolding map_delete
  map_set k a m = (k, a) ∷ map_delete k m

-- container/list: a list of elements, the front first.
module _ {K V : Type 0} where
  -- `element.Value`
  unfoldable pub deref : ℕ → List (Element K V) → Option (CacheItem K V)
  deref a [] = none
  deref a ((b, item) ∷ l) = if b == a then some item else deref a l

  unfoldable pub list_remove : ℕ → List (Element K V) → List (Element K V)
  list_remove a [] = []
  list_remove a ((b, item) ∷ l) =
      let rest = list_remove a l in if b == a then rest else (b, item) ∷ rest

  unfoldable pub move_to_front : ℕ → List (Element K V) → List (Element K V)
  unfolding deref list_remove
  move_to_front a l = elim (deref a l) [ none ↦ l | some item ↦ (a, item) ∷ list_remove a l ]

  unfoldable pub back : List (Element K V) → Option (Element K V)
  back [] = none
  back (x ∷ []) = some x
  back (x ∷ y ∷ l) = back (y ∷ l)

  -- `item.value = value; item.createdAt = now`, through the pointer of the element
  unfoldable pub list_write : ℕ → V → ℕ → List (Element K V) → List (Element K V)
  list_write a v now [] = []
  list_write a v now ((b, item) ∷ l) =
      let rest = list_write a v now l in
      if b == a then (b, record item { value = v; created_at = now }) ∷ rest else (b, item) ∷ rest

  unfoldable pub is_expired : ℕ → ℕ → CacheItem K V → Bool
  is_expired ttl now item = ltb 0 ttl && ltb ttl (now - item.created_at)

module _ {K V : Type 0} ⦃e : Eq K⦄ where
  unfoldable pub remove_element : LruCache K V → Element K V → LruCache K V
  unfolding map_delete list_remove
  remove_element c (a, item) = record c {
    items = map_delete item.key c.items;
    order = list_remove a c.order;
  }

  unfoldable pub remove_oldest : LruCache K V → LruCache K V
  unfolding back remove_element
  remove_oldest c = elim (back c.order) [ none ↦ c | some element ↦ remove_element c element ]

  unfoldable pub get : LruCache K V → ℕ → K → LruCache K V × Option V
  unfolding map_get deref is_expired remove_element move_to_front
  get c now key = elim (map_get key c.items) [
    | none ↦ (c, none)
    | some a ↦ elim (deref a c.order) [
      | none ↦ (c, none)
      | some item ↦
          if is_expired c.ttl now item
          then (remove_element c (a, item), none)
          else (record c { order = move_to_front a c.order }, some item.value)
    ]
  ]

  unfoldable pub set : LruCache K V → ℕ → K → V → LruCache K V
  unfolding map_get map_set list_write move_to_front remove_oldest
  set c now key value = elim (map_get key c.items) [
    | some a ↦ record c { order = move_to_front a (list_write a value now c.order) }
    | none ↦
        let item : CacheItem K V = record { key = key; value = value; created_at = now } in
        let pushed = record c {
          items = map_set key c.next c.items;
          order = (c.next, item) ∷ c.order;
          next = suc c.next;
        } in
        if ltb c.max_size (length pushed.order) then remove_oldest pushed else pushed
  ]

  unfoldable pub delete : LruCache K V → K → LruCache K V
  unfolding map_get deref remove_element
  delete c key = elim (map_get key c.items) [
    | none ↦ c
    | some a ↦ elim (deref a c.order) [ none ↦ c | some item ↦ remove_element c (a, item) ]
  ]

  unfoldable pub clear : LruCache K V → LruCache K V
  clear c = record c { items = []; order = [] }

  unfoldable pub size : LruCache K V → ℕ
  size c = length c.items

  -- The first loop of `CleanupExpired`, from the back: it ends at the first element not expired.
  unfoldable pub expired_elements : ℕ → ℕ → List (Element K V) → List (Element K V)
  expired_elements ttl now [] = []
  expired_elements ttl now ((a, item) ∷ l) =
      let rest = expired_elements ttl now l in
      if ltb ttl (now - item.created_at) then (a, item) ∷ rest else []

  unfoldable pub cleanup_expired : LruCache K V → ℕ → LruCache K V
  unfolding expired_elements remove_element
  cleanup_expired c now =
      if leb c.ttl 0
      then c
      else foldl remove_element c (expired_elements c.ttl now (reverse c.order))

-- `len(strKey) >= len(prefix) && strKey[:len(prefix)] == prefix`
unfoldable pub has_prefix : Text → Text → Bool
has_prefix prefix key =
    if leb (length prefix) (length key) then text_eq (take (length prefix) key) prefix else false

-- `keysToDelete`: the keys of the map, in whatever order, that begin with the prefix.
unfoldable pub keys_to_delete : Text → List (Text × ℕ) → List Text
unfolding has_prefix
keys_to_delete prefix [] = []
keys_to_delete prefix ((k, a) ∷ m) =
    let rest = keys_to_delete prefix m in if has_prefix prefix k then k ∷ rest else rest

-- `DeletePrefix`, for the caches of the program, whose keys are strings.
unfoldable pub delete_prefix : {V : Type 0} → LruCache Text V → Text → LruCache Text V
unfolding keys_to_delete delete
delete_prefix c prefix = foldl delete c (keys_to_delete prefix c.items)
