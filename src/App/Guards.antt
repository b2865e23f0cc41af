-- ===== src/App/Guards.antt =====
-- What the guards of issue_orders.go, return_order_client.go, return_order_delivery.go and
-- accept_order.go in internal/app demand, said without their code.
use mathlib.Core.List.{foldl}
use pvz_service.Base.{
  ℕ, ◌+◌, ◌*◌, ◌≤◌, ◌≡◌, ◌≢◌, refl, ◌⊎◌, inl, inr, true, false, none, List, [], ◌∷◌, map, arith,
  Bool-cases, All,
}
use pvz_service.Base.Text.{Text}
use pvz_service.Domain.Order.{
  Order, OrderStatus, PackageRules, given_to_client, in_storage, returned_from_client,
  given_to_courier, returned_without_client,
}
use pvz_service.Domain.Platform.{Platform, hour}
use pvz_service.Db.World.{ok}
use pvz_service.App.Accept.{add_rules, too_heavy}
use pvz_service.App.Issue.{refuse_issue}
use pvz_service.App.ReturnClient.{refuse_return}
use pvz_service.App.ReturnDelivery.{refuse_early, refuse_status}

pub refuse_status-none :
    (status : OrderStatus)
    → refuse_status status ≡ none
    → (status ≡ in_storage) ⊎ (status ≡ returned_from_client)
unfolding refuse_status
refuse_status-none in_storage h = inl refl
refuse_status-none returned_from_client h = inr refl
refuse_status-none given_to_client h = cc
refuse_status-none given_to_courier h = cc
refuse_status-none returned_without_client h = cc

module _ {F : Type 0} ⦃p : Platform F⦄ where
  -- The order is the receiver's, neither handed out nor returned, and its storage period, the last
  -- instant included, has not passed.
  pub record MayIssue (receiver_id now : ℕ) (o : Order F) : Type 0 where
    pub same_receiver : o.receiver_id ≡ receiver_id
    pub not_given : o.status ≢ given_to_client
    pub not_returned : o.status ≢ returned_from_client
    pub in_time : now ≤ o.storage_until

  -- The order is the receiver's, neither in storage nor returned, and changed at most 48 hours ago.
  pub record MayReturn (receiver_id now : ℕ) (o : Order F) : Type 0 where
    pub same_receiver : o.receiver_id ≡ receiver_id
    pub not_stored : o.status ≢ in_storage
    pub not_returned : o.status ≢ returned_from_client
    pub in_time : now ≤ o.last_update_time + 48 * hour

  pub refuse_issue-MayIssue :
      (receiver_id order_id now : ℕ) (o : Order F)
      → refuse_issue receiver_id order_id now o ≡ none
      → MayIssue receiver_id now o
  unfolding refuse_issue
  refuse_issue-MayIssue receiver_id order_id now o h = record {
    same_receiver = ground arith;
    not_given = λ e. ground (arith, e);
    not_returned = λ e. ground (arith, e);
    in_time = ground arith;
  }

  pub refuse_return-MayReturn :
      (receiver_id order_id now : ℕ) (o : Order F)
      → refuse_return receiver_id order_id now o ≡ none
      → MayReturn receiver_id now o
  unfolding refuse_return
  refuse_return-MayReturn receiver_id order_id now o h = record {
    same_receiver = ground arith;
    not_stored = λ e. ground (arith, e);
    not_returned = λ e. ground (arith, e);
    in_time = ground arith;
  }

  pub refuse_early-none :
      (order_id now : ℕ) (o : Order F) → refuse_early order_id now o ≡ none → o.storage_until ≤ now
  unfolding refuse_early
  refuse_early-none order_id now o h = ground arith

  -- No rule that has a limit has it below the weight; a weight equal to the limit is allowed.
  abbrev pub Fits : F → List (PackageRules F) → Type 0
  Fits weight rules =
      All
        (λ r. p.gt_float r.max_weight p.zero_float ≡ true → p.gt_float weight r.max_weight ≡ false)
        rules

  -- The price with the prices of the rules on top.
  abbrev pub full_price : F → List (PackageRules F) → F
  full_price price rules = foldl p.add_float price (map (λ (r : PackageRules F). r.price) rules)

  pub add_rules-Fits :
      (code : Text) (weight price full : F) (rules : List (PackageRules F))
      → add_rules code weight price rules ≡ ok full
      → Fits weight rules × (full ≡ full_price price rules)
  unfolding add_rules
  add_rules-Fits code weight price full [] h = (tt, ground arith)
  add_rules-Fits code weight price full (r ∷ rules) h = elim (Bool-cases (too_heavy weight r)) [
    | inl heavy ↦ absurd (cc (rw heavy at h))
    | inr light ↦
        let (fits, same) =
          add_rules-Fits code weight (p.add_float price r.price) full rules (rw light at h) in
        (((λ limited. ground (arith, limited, light)), fits), same)
  ]

  pub Fits-add_rules :
      (code : Text) (weight price : F) (rules : List (PackageRules F))
      → Fits weight rules
      → add_rules code weight price rules ≡ ok (full_price price rules)
  unfolding add_rules
  Fits-add_rules code weight price [] h = refl
  Fits-add_rules code weight price (r ∷ rules) h =
      let light : too_heavy weight r ≡ false = ground (arith, h.0) in
      rw light (Fits-add_rules code weight (p.add_float price r.price) rules h.1)
