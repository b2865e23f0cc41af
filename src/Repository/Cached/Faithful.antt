-- ===== src/Repository/Cached/Faithful.antt =====
-- The reading methods of cached_order_repo.go on coherent caches.
use pvz_service.Base.{ℕ, ◌≡◌, refl, sym, ap, ◌∙◌, inl, inr, some, List, arith}
use mathlib.Core.Path.{subst}
use pvz_service.Base.Text.{Text, codes, text_eq_instance}
use pvz_service.Domain.Order.{Order}
use pvz_service.Cache.Lru.{CacheItem}
use pvz_service.Cache.Lru.Entries.{Found}
use pvz_service.Db.Tables.{Tables, find_order}
use pvz_service.Db.World.{World, wrap_error, Exec, Result, ok, round_trip}
use pvz_service.Db.Client.{query, query_row}
use pvz_service.Repository.Orders
use pvz_service.Repository.Orders.{
  select_receiver, select_returned, select_all, select_history, select_rules,
}
use pvz_service.Repository.Cached
use pvz_service.Repository.Cached.{
  order_key, receiver_key, returned_key, all_key, history_key, rules_key, order_slot, receiver_slot,
  history_slot, rules_slot,
}
use pvz_service.Repository.Cached.Keys.{
  order_key-injective, receiver_key-injective, history_key-injective, rules_key-injective,
  receiver-ne-returned, receiver-ne-all, returned-ne-all,
}
use pvz_service.Repository.Cached.Coherent.{
  OrderEntry, ListEntry, HistoryEntry, RulesEntry, Coherent, LoadsAs,
}
use pvz_service.Repository.Cached.Reads.{read_through-ReadsAs}

-- How a reading method ended that returned only what `Right` accepts.
pub record IsFaithful {F V : Type 0} (Right : V → Type 0) (w : World F) (out : Result V × World F)
    : Type 0 where
  pub same_db : out.1.db ≡ w.db
  pub same_pending : out.1.pending ≡ w.pending
  pub coherent : Coherent out.1.caches w.db
  pub right : (v : V) → out.0 ≡ ok v → Right v

module _ {F : Type 0} where
  order_load :
      (db : Tables F) (id : ℕ) (w : World F)
      → w.db ≡ db
      → LoadsAs (OrderEntry db) (order_key id) w (Orders.get_by_id id w)
  unfolding Orders.get_by_id query_row round_trip
  order_load db id w e = record {
    same_db = ground arith;
    same_pending = ground arith;
    same_caches = ground arith;
    value = λ o found now. (id, refl, ground (arith, e));
  }

  list_load :
      {V : Type 0} (P : CacheItem Text V → Type 0) (key label : Text) (select : Tables F → V)
      (db : Tables F) (w : World F)
      → ((now : ℕ) → P (record { key = key; value = select db; created_at = now }))
      → w.db ≡ db
      → LoadsAs P key w (wrap_error label (query select) w)
  unfolding query round_trip
  list_load P key label select db w p e = record {
    same_db = ground arith;
    same_pending = ground arith;
    same_caches = ground arith;
    value = λ v got now.
        let same : select db ≡ v = ground (arith, ap select e) in
        subst (λ u. P (record { key = key; value = u; created_at = now })) same (p now);
  }

  rules_load :
      (db : Tables F) (code : Text) (w : World F)
      → w.db ≡ db
      → LoadsAs (RulesEntry db) (rules_key code) w (Orders.get_package_rules code w)
  unfolding Orders.get_package_rules query round_trip
  rules_load db code w e = record {
    same_db = ground arith;
    same_pending = ground arith;
    same_caches = ground arith;
    value = λ v got now. (code, refl, ground (arith, ap (select_rules code) e));
  }

  -- On coherent caches GetByID changes no table, keeps the caches coherent, and an order that it
  -- returns is the committed one of that identifier, from the cache or not.
  pub get_by_id-IsFaithful :
      (id : ℕ) (w : World F)
      → Coherent w.caches w.db
      → IsFaithful (λ o. find_order id w.db.orders ≡ some o) w (Cached.get_by_id id w)
  unfolding Cached.get_by_id
  get_by_id-IsFaithful id w c =
      let read =
        read_through-ReadsAs order_slot (λ c x. refl) (λ c d x. refl) (OrderEntry w.db)
          (order_key id) (Orders.get_by_id id) w c.orders (λ w' e. order_load w.db id w' e) in
      record {
        same_db = read.same_db;
        same_pending = read.same_pending;
        coherent = rw read.stored (record {
          orders = read.holds;
          receivers = c.receivers;
          history = c.history;
          package_rules = c.package_rules;
        });
        right = λ o e.
            let (x, (i, key, found), asked, value) = read.value o e in
            let same : i ≡ id = order_key-injective i id (sym key ∙ asked) in
            subst (λ j. find_order j w.db.orders ≡ some x.value) same found ∙ ap some value;
      }

  -- The lists in the receiver cache, by their keys.
  list-IsFaithful :
      (Right : List (Order F) → Type 0) (key : Text) (load : Exec F (List (Order F))) (w : World F)
      → Coherent w.caches w.db
      → ((w' : World F) → w'.db ≡ w.db → LoadsAs (ListEntry w.db) key w' (load w'))
      → ((l : List (Order F)) → Found (ListEntry w.db) key l → Right l)
      → IsFaithful Right w (Cached.read_through receiver_slot key load w)
  list-IsFaithful Right key load w c loads right =
      let read =
        read_through-ReadsAs receiver_slot (λ c x. refl) (λ c d x. refl) (ListEntry w.db) key load w
          c.receivers loads in
      record {
        same_db = read.same_db;
        same_pending = read.same_pending;
        coherent = rw read.stored (record {
          orders = c.orders;
          receivers = read.holds;
          history = c.history;
          package_rules = c.package_rules;
        });
        right = λ l e. right l (read.value l e);
      }

  -- The entry of a key is the one that the key is for.
  found_receiver :
      (db : Tables F) (r : ℕ) (l : List (Order F))
      → Found (ListEntry db) (receiver_key r) l
      → l ≡ select_receiver r db
  found_receiver db r l (x, inl (i, key, v), asked, value) =
      sym value ∙ v ∙ ap (λ j. select_receiver j db) (receiver_key-injective i r (sym key ∙ asked))
  found_receiver db r l (x, inr (inl (key, v)), asked, value) =
      absurd (receiver-ne-returned r (sym asked ∙ key))
  found_receiver db r l (x, inr (inr (key, v)), asked, value) =
      absurd (receiver-ne-all r (sym asked ∙ key))

  found_returned :
      (db : Tables F) (l : List (Order F))
      → Found (ListEntry db) returned_key l
      → l ≡ select_returned db
  found_returned db l (x, inl (i, key, v), asked, value) =
      absurd (receiver-ne-returned i (sym key ∙ asked))
  found_returned db l (x, inr (inl (key, v)), asked, value) = sym value ∙ v
  found_returned db l (x, inr (inr (key, v)), asked, value) =
      absurd (returned-ne-all (sym asked ∙ key))

  found_all :
      (db : Tables F) (l : List (Order F)) → Found (ListEntry db) all_key l → l ≡ select_all db
  found_all db l (x, inl (i, key, v), asked, value) = absurd (receiver-ne-all i (sym key ∙ asked))
  found_all db l (x, inr (inl (key, v)), asked, value) = absurd (returned-ne-all (sym key ∙ asked))
  found_all db l (x, inr (inr (key, v)), asked, value) = sym value ∙ v

  -- On coherent caches GetByReceiverID changes no table, keeps the caches coherent, and a list
  -- that it returns is the committed orders of that receiver.
  pub get_by_receiver_id-IsFaithful :
      (r : ℕ) (w : World F)
      → Coherent w.caches w.db
      → IsFaithful (λ l. l ≡ select_receiver r w.db) w (Cached.get_by_receiver_id r w)
  unfolding Cached.get_by_receiver_id Orders.get_by_receiver_id
  get_by_receiver_id-IsFaithful r w c =
      list-IsFaithful (λ l. l ≡ select_receiver r w.db) (receiver_key r)
        (Orders.get_by_receiver_id r) w c
        (λ w' e.
          list_load (ListEntry w.db) (receiver_key r) (codes "query") (select_receiver r) w.db w'
            (λ now. inl (r, refl, refl)) e)
        (found_receiver w.db r)

  -- On coherent caches GetReturnedOrders changes no table, keeps the caches coherent, and a list
  -- that it returns is what its query selects from the committed tables.
  pub get_returned_orders-IsFaithful :
      (w : World F)
      → Coherent w.caches w.db
      → IsFaithful (λ l. l ≡ select_returned w.db) w (Cached.get_returned_orders w)
  unfolding Cached.get_returned_orders Orders.get_returned_orders
  get_returned_orders-IsFaithful w c =
      list-IsFaithful (λ l. l ≡ select_returned w.db) returned_key Orders.get_returned_orders w c
        (λ w' e.
          list_load (ListEntry w.db) returned_key (codes "query") select_returned w.db w'
            (λ now. inr (inl (refl, refl))) e)
        (found_returned w.db)

  pub get_all_orders-IsFaithful :
      (w : World F)
      → Coherent w.caches w.db
      → IsFaithful (λ l. l ≡ select_all w.db) w (Cached.get_all_orders w)
  unfolding Cached.get_all_orders Orders.get_all_orders
  get_all_orders-IsFaithful w c =
      list-IsFaithful (λ l. l ≡ select_all w.db) all_key Orders.get_all_orders w c
        (λ w' e.
          list_load (ListEntry w.db) all_key (codes "query") select_all w.db w'
            (λ now. inr (inr (refl, refl))) e)
        (found_all w.db)

  -- On coherent caches GetPackageRules changes no table, keeps the caches coherent, and rules that
  -- it returns are the committed ones of that package type.
  pub get_package_rules-IsFaithful :
      (code : Text) (w : World F)
      → Coherent w.caches w.db
      → IsFaithful (λ l. l ≡ select_rules code w.db) w (Cached.get_package_rules code w)
  unfolding Cached.get_package_rules
  get_package_rules-IsFaithful code w c =
      let read =
        read_through-ReadsAs rules_slot (λ c x. refl) (λ c d x. refl) (RulesEntry w.db)
          (rules_key code) (Orders.get_package_rules code) w c.package_rules
          (λ w' e. rules_load w.db code w' e) in
      record {
        same_db = read.same_db;
        same_pending = read.same_pending;
        coherent = rw read.stored (record {
          orders = c.orders;
          receivers = c.receivers;
          history = c.history;
          package_rules = read.holds;
        });
        right = λ l e.
            let (x, (i, key, found), asked, value) = read.value l e in
            sym value
            ∙ found
            ∙ ap (λ t. select_rules t w.db) (rules_key-injective i code (sym key ∙ asked));
      }

  -- On coherent caches GetHistoryByOrderID changes no table, keeps the caches coherent, and a
  -- history that it returns is what its query selects from the committed tables.
  pub get_history_by_order_id-IsFaithful :
      (id : ℕ) (w : World F)
      → Coherent w.caches w.db
      → IsFaithful (λ l. l ≡ select_history id w.db) w (Cached.get_history_by_order_id id w)
  unfolding Cached.get_history_by_order_id Orders.get_history_by_order_id
  get_history_by_order_id-IsFaithful id w c =
      let read =
        read_through-ReadsAs history_slot (λ c x. refl) (λ c d x. refl) (HistoryEntry w.db)
          (history_key id) (Orders.get_history_by_order_id id) w c.history
          (λ w' e.
            list_load (HistoryEntry w.db) (history_key id) (codes "query") (select_history id) w.db
              w' (λ now. (id, refl, refl)) e) in
      record {
        same_db = read.same_db;
        same_pending = read.same_pending;
        coherent = rw read.stored (record {
          orders = c.orders;
          receivers = c.receivers;
          history = read.holds;
          package_rules = c.package_rules;
        });
        right = λ l e.
            let (x, (i, key, found), asked, value) = read.value l e in
            sym value
            ∙ found
            ∙ ap (λ j. select_history j w.db) (history_key-injective i id (sym key ∙ asked));
      }
