-- ===== src/App/Issue/Ends.antt =====
-- How `issueSingle` ends, with the database client.
use pvz_service.Base.{ℕ, ◌≡◌, refl, inl, inr, true, none, some, Option-cases}
use pvz_service.Base.Text.{codes}
use pvz_service.Domain.Error.{wrap}
use pvz_service.Domain.Event.{new_event, order_issued, client, Actor, OrderInfo}
use pvz_service.Domain.Order.{Order, OrderHistory, given_to_client}
use pvz_service.Domain.Platform.{Platform}
use pvz_service.Db.Tables.{Tables, change_order, find_order}
use pvz_service.Db.World.{Result-cases, World, new_uuid, time_now}
use pvz_service.Repository.Cached
use pvz_service.Repository.Cached.Coherent.{Coherent}
use pvz_service.Repository.Cached.Faithful.{get_by_id-IsFaithful}
use pvz_service.Repository.Orders.Rows.{find_order-id}
use pvz_service.App.Issue.{issue_single, issued, refuse_issue, store_issued}
use pvz_service.App.Guards.{MayIssue, refuse_issue-MayIssue}
use pvz_service.App.Outcome.{
  Changed, OperationEnds, OperationEnds-error, OperationEnds-map, update-ends,
}
use pvz_service.App.Outcome.Rows.{IsSound}
use pvz_service.App.Service.{Service, make_event, update_in_tx}

module _ {F : Type 0} ⦃p : Platform F⦄ where
  -- The order `o` was there, the four guards let it through, and the change was recorded.
  pub record Issued (receiver_id order_id now : ℕ) (db db' : Tables F) : Type 0 where
    pub order : Order F
    pub found : find_order order_id db.orders ≡ some order
    pub allowed : refuse_issue receiver_id order_id now order ≡ none
    pub may_issue : MayIssue receiver_id now order
    pub changed :
        Changed
          (change_order (issued now order))
          (record { order_id = order_id; status = given_to_client; changed_at = now })
          order_issued
          (record { type = client; id = receiver_id })
          (record { id = order_id; user_id = receiver_id; status = codes "issued" })
          db
          db'

  -- With the database client, coherent caches and sound tables, issueSingle either reports an
  -- error and changes no table, or the order was there, was the receiver's, neither given out nor
  -- returned, and within its storage period, its last instant included, and exactly the change to
  -- GivenToClient at that time, its history record and one outbox message were written; the caches
  -- fit the tables in both cases.
  pub issue_single-ends :
      (s : Service) (receiver_id order_id now : ℕ) (w : World F)
      → s.db_client ≡ true
      → Coherent w.caches w.db
      → IsSound w.db
      → OperationEnds
          (λ _ db'. Issued receiver_id order_id now w.db db')
          w.db
          (issue_single s receiver_id order_id now w)
  unfolding issue_single make_event time_now new_uuid store_issued
  issue_single-ends s receiver_id order_id now w client_there c sound =
      let read = get_by_id-IsFaithful order_id w c in
      let w1 = (Cached.get_by_id order_id w).1 in
      let Success = λ (u : Unit {0}) (d : Tables F). Issued receiver_id order_id now w.db d in
      elim (Result-cases (Cached.get_by_id order_id w).0) [
        | inr (e, missing) ↦ rw missing (
            OperationEnds-error Success w.db (wrap (codes "repo.GetByID") e) w1 read.coherent
              read.same_db)
        | inl (o, got) ↦ elim (Option-cases (refuse_issue receiver_id order_id now o)) [
          | inr (e, refused) ↦
              rw (got, refused) (OperationEnds-error Success w.db e w1 read.coherent read.same_db)
          | inl allowed ↦
              let found = read.right o got in
              let w2 = (time_now (new_uuid w1).1).1 in
              let h : OrderHistory = record {
                order_id = order_id;
                status = given_to_client;
                changed_at = now;
              } in
              let actor : Actor = record { type = client; id = receiver_id } in
              let info : OrderInfo = record {
                id = order_id;
                user_id = receiver_id;
                status = codes "issued";
              } in
              let event = new_event w1.next_id w2.clock order_issued actor info in
              rw (got, allowed, client_there)
                (OperationEnds-map _ Success w.db _
                  (λ u d changed. record {
                    order = o;
                    found = found;
                    allowed = allowed;
                    may_issue = refuse_issue-MayIssue receiver_id order_id now o allowed;
                    changed = changed;
                  })
                  (update-ends order_id (issued now o) o h w1.next_id w2.clock order_issued actor
                    info (update_in_tx (issued now o) h event) w.db w2 read.same_db read.coherent
                    sound found (find_order-id order_id w.db.orders o found) refl (λ step. step)))
        ]
      ]
