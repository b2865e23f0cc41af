-- ===== src/App/Accept/Ends.antt =====
-- How `AcceptOrder` ends, with the database client.
use pvz_service.Base.{
  ℕ, ◌≡◌, refl, sym, ap, ◌∙◌, inl, inr, true, none, List, [], if◌then◌else◌, Bool-cases,
}
use mathlib.Core.Path.{subst}
use pvz_service.Base.Text.{Text, codes, text_eq}
use pvz_service.Domain.Error.{order_already_exists_error, wrap}
use pvz_service.Domain.Event.{courier, order_accepted, Actor, EventType, OrderInfo, new_event}
use pvz_service.Domain.Order.{AcceptOrderRequest, PackageRules, in_storage, Order, OrderHistory}
use pvz_service.Domain.Platform.{Platform}
use pvz_service.Cache.Lru.{new}
use pvz_service.Db.Client.{with_transaction}
use pvz_service.Db.Tables.{Tables, find_order, has_package, put_order}
use pvz_service.Db.World.{
  World, ok, Exec, Metric, Result, continue, count_metric, err, ok_injective, pure,
  refresh_order_status, ◌>>=◌, ◌>>◌, Result-cases, new_uuid, time_now,
}
use pvz_service.Repository.Cached
use pvz_service.Repository.Cached.Coherent.{Coherent}
use pvz_service.Repository.Cached.Faithful.{
  IsFaithful, get_package_rules-IsFaithful, get_by_id-IsFaithful,
}
use pvz_service.Repository.Cached.Relabel.{relabel-IsFaithful}
use pvz_service.Repository.Orders.{select_rules}
use pvz_service.App.Accept.{accepted_order, add_rules, load_rules, store_accepted, accept_order}
use pvz_service.App.Guards.{Fits, add_rules-Fits, full_price}
use pvz_service.App.Outcome.{
  Changed, OperationEnds, Stored-Changed, OperationEnds-error, OperationEnds-map,
}
use pvz_service.App.Record.{insert_in_tx-Stored}
use pvz_service.App.Service.{Service, insert_in_tx, make_event}

module _ {F : Type 0} ⦃p : Platform F⦄ where
  -- The rules that `AcceptOrder` goes by: those of the package type in the tables.
  abbrev pub rules_in : Text → Tables F → List (PackageRules F)
  rules_in package_type db = if text_eq package_type [] then [] else select_rules package_type db

  -- The order was not there, its package is known and holds its weight, the price follows from the
  -- rules, and the new order was recorded.
  pub record Accepted (req : AcceptOrderRequest F) (now : ℕ) (db : Tables F) (price : F)
      (db' : Tables F) : Type 0 where
    pub new : find_order req.order_id db.orders ≡ none
    pub known : has_package req.package_type db.package_types ≡ true
    pub priced :
        add_rules req.package_type req.weight req.price (rules_in req.package_type db) ≡ ok price
    pub fits : Fits req.weight (rules_in req.package_type db)
    pub full : price ≡ full_price req.price (rules_in req.package_type db)
    pub changed :
        Changed
          (put_order (accepted_order req now price))
          (record { order_id = req.order_id; status = in_storage; changed_at = now })
          order_accepted
          (record { type = courier; id = 1 })
          (record { id = req.order_id; user_id = req.receiver_id; status = codes "accepted" })
          db
          db'

  pub load_rules-IsFaithful :
      (code : Text) (w : World F)
      → Coherent w.caches w.db
      → IsFaithful (λ l. l ≡ rules_in code w.db) w (load_rules code w)
  unfolding load_rules
  load_rules-IsFaithful code w c = elim (Bool-cases (text_eq code [])) [
    | inl empty ↦ rw empty (record {
      same_db = refl;
      same_pending = refl;
      coherent = c;
      right = λ l h. sym (ok_injective h);
    })
    | inr given ↦
        rw given
          (relabel-IsFaithful _ (codes "validation") w _ (get_package_rules-IsFaithful code w c))
  ]

  -- The counters after the writes, and the price.
  counted-ends :
      (P : Tables F → Type 0) (db : Tables F) (price : F) (out : Result (Unit {0}) × World F)
      → OperationEnds (λ _ d. P d) db out
      → OperationEnds
          (λ a d. (a ≡ price) × P d)
          db
          (continue out (λ _. do
            count_metric Metric.order_accepted
            count_metric refresh_order_status
            pure price))
  unfolding count_metric
  counted-ends P db price (ok u, w) ends = record {
    coherent = ends.coherent;
    ended = elim ends.ended [
      | inl ((e, bad), same) ↦ absurd (cc)
      | inr (a, (fine, p)) ↦ inr (price, (refl, (refl, p)))
    ];
  }
  counted-ends P db price (err e, w) ends = record {
    coherent = ends.coherent;
    ended = elim ends.ended [
      | inl same ↦ inl ((e, refl), same.1)
      | inr (a, (fine, p)) ↦ absurd (cc)
    ];
  }

  -- The transaction of a new order, after reads that changed no table.
  insert-ends :
      (o : Order F) (h : OrderHistory) (uuid at : ℕ) (type : EventType) (actor : Actor)
      (info : OrderInfo) (db : Tables F) (w : World F)
      → w.db ≡ db
      → Coherent w.caches db
      → OperationEnds
          (λ _ db'.
            ((find_order o.order_id db.orders ≡ none)
              × (has_package o.package_type db.package_types ≡ true))
            × Changed (put_order o) h type actor info db db')
          db
          (with_transaction (insert_in_tx o h (new_event uuid at type actor info)) w)
  insert-ends o h uuid at type actor info db w same c =
      let coherent : Coherent w.caches w.db = rw same c in
      subst
        (λ (d : Tables F).
          OperationEnds
            (λ _ db'.
              ((find_order o.order_id d.orders ≡ none)
                × (has_package o.package_type d.package_types ≡ true))
              × Changed (put_order o) h type actor info d db')
            d (with_transaction (insert_in_tx o h (new_event uuid at type actor info)) w))
        same
        (Stored-Changed (put_order o) h uuid at type actor info w _
          (insert_in_tx-Stored o h (new_event uuid at type actor info) w coherent))

  -- From the rules on: the price, and the writes.
  abbrev accept_rest :
      (s : Service) (req : AcceptOrderRequest F) (now : ℕ) (rules : List (PackageRules F))
      → Exec F F
  accept_rest s req now rules = do
    total_price ← λ w. (add_rules req.package_type req.weight req.price rules, w)
    let history : OrderHistory = record {
      order_id = req.order_id;
      status = in_storage;
      changed_at = now;
    }
    event ←
        make_event order_accepted (record { type = courier; id = 1 })
          (record { id = req.order_id; user_id = req.receiver_id; status = codes "accepted" })
    store_accepted s (accepted_order req now total_price) history event
    count_metric Metric.order_accepted
    count_metric refresh_order_status
    pure total_price

  accept_rest-ends :
      (s : Service) (req : AcceptOrderRequest F) (now : ℕ) (db : Tables F) (w : World F)
      → s.db_client ≡ true
      → w.db ≡ db
      → Coherent w.caches db
      → OperationEnds
          (λ price db'. Accepted req now db price db')
          db
          (accept_rest s req now (rules_in req.package_type db) w)
  unfolding make_event time_now new_uuid store_accepted accepted_order
  accept_rest-ends s req now db w client_there same c =
      let rules = rules_in req.package_type db in
      elim (Result-cases (add_rules req.package_type req.weight req.price rules)) [
        | inr (e, heavy) ↦
            rw heavy
              (OperationEnds-error (λ price db'. Accepted req now db price db') db e w c same)
        | inl (price, priced) ↦
            let w1 = (time_now (new_uuid w).1).1 in
            let o = accepted_order req now price in
            let h : OrderHistory = record {
              order_id = req.order_id;
              status = in_storage;
              changed_at = now;
            } in
            let actor : Actor = record { type = courier; id = 1 } in
            let info : OrderInfo = record {
              id = req.order_id;
              user_id = req.receiver_id;
              status = codes "accepted";
            } in
            rw (priced, client_there)
              (OperationEnds-map _ (λ a db'. Accepted req now db a db') db _
                (λ a d (same_price, ((new, known), changed)).
                  subst (λ a. Accepted req now db a d) (sym same_price)
                    (record {
                      new = new;
                      known = known;
                      priced = priced;
                      fits =
                          (add_rules-Fits req.package_type req.weight req.price price rules
                            priced).0;
                      full =
                          (add_rules-Fits req.package_type req.weight req.price price rules
                            priced).1;
                      changed = changed;
                    }))
                (counted-ends _ db price _
                  (insert-ends o h w.next_id w1.clock order_accepted actor info db w1 same c)))
      ]

  -- With the database client and coherent caches, AcceptOrder either reports an error and changes
  -- no table, or returns a price and then the order was not there, its package type is known, no
  -- rule that has a limit has it below the weight, the price is the request's with the prices of
  -- the rules added, and exactly the order, its first history record and one outbox message were
  -- added; the caches fit the tables in both cases, whichever statement fails.
  pub accept_order-ends :
      (s : Service) (req : AcceptOrderRequest F) (w : World F)
      → s.db_client ≡ true
      → Coherent w.caches w.db
      → OperationEnds
          (λ price db'. Accepted req (time_now w).1.clock w.db price db')
          w.db
          (accept_order s req w)
  unfolding accept_order time_now
  accept_order-ends s req w client_there c =
      let w0 = (time_now w).1 in
      let now = w0.clock in
      let w1 = (Cached.get_by_id req.order_id w0).1 in
      let asked = get_by_id-IsFaithful req.order_id w0 c in
      let Success = λ (price : F) (d : Tables F). Accepted req now w.db price d in
      elim (Result-cases (Cached.get_by_id req.order_id w0).0) [
        | inl (o, got) ↦ rw got (
            OperationEnds-error Success w.db
              (wrap (codes "repo.GetByID") (order_already_exists_error req.order_id)) w1
              asked.coherent asked.same_db)
        | inr (e, absent) ↦
            let c1 : Coherent w1.caches w1.db =
              subst (λ (d : Tables F). Coherent w1.caches d) (sym asked.same_db) asked.coherent in
            let loaded = load_rules-IsFaithful req.package_type w1 c1 in
            let w2 = (load_rules req.package_type w1).1 in
            let same = loaded.same_db ∙ asked.same_db in
            let c2 : Coherent w2.caches w.db =
              subst (λ (d : Tables F). Coherent w2.caches d) asked.same_db loaded.coherent in
            elim (Result-cases (load_rules req.package_type w1).0) [
              | inr (e2, unknown) ↦
                  rw (absent, unknown) (OperationEnds-error Success w.db e2 w2 c2 same)
              | inl (rules, got) ↦
                  let which : rules ≡ rules_in req.package_type w.db =
                    loaded.right rules got ∙ ap (rules_in req.package_type) asked.same_db in
                  rw (absent, got, which) (accept_rest-ends s req now w.db w2 client_there same c2)
            ]
      ]
