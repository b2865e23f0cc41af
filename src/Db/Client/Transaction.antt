-- ===== src/Db/Client/Transaction.antt =====
-- How `WithTransaction` of pkg/db/transaction.go ends.
use pvz_service.Base.{◌≡◌, refl, ap, ◌⊎◌, inl, inr, []}
use pvz_service.Base.Text.{codes}
use pvz_service.Domain.Error.{Error, wrap}
use pvz_service.Db.Tables.{apply_all}
use pvz_service.Db.World.{
  World, Exec, Result, ok, err, round_trip, next_fault, Result-cases, continue, relabel,
}
use pvz_service.Db.Client.{begin_tx, commit, rollback, rollback_on_error, with_transaction}
use pvz_service.Db.Client.Cases.{tripped}

module _ {F : Type 0} where
  -- The world in which the function of a transaction starts.
  abbrev pub begun : World F → World F
  begun w = record (tripped w) { pending = [] }

  -- The world after a commit.
  abbrev pub committed : World F → World F
  committed w = record (tripped w) { db = apply_all w.pending w.db; pending = [] }

  -- The four ends of a transaction.
  abbrev pub TxEnds : Exec F (Unit {0}) → World F → Result (Unit {0}) × World F → Type 0
  TxEnds fn w out =
      ((e : Error) × (out ≡ (err e, tripped w)))
      ⊎ ((e : Error) × ((fn (begun w)).0 ≡ err e) × (out ≡ (err e, rollback (fn (begun w)).1)))
      ⊎ (((fn (begun w)).0 ≡ ok tt)
          × ((e : Error) × (out ≡ (err e, rollback (tripped (fn (begun w)).1)))))
      ⊎ (((fn (begun w)).0 ≡ ok tt) × (out ≡ (ok tt, committed (fn (begun w)).1)))

  finish_cases :
      (fn : Exec F (Unit {0})) (w : World F) (r : Result (Unit {0})) (w1 : World F)
      → fn (begun w) ≡ (r, w1)
      → TxEnds fn w
          (rollback_on_error (continue (r, w1) (λ _ w'. relabel (codes "commit tx") (commit w'))))
  unfolding rollback_on_error commit round_trip
  finish_cases fn w (err e) w1 h =
      inr (inl (e, ap (λ (p : Result (Unit {0}) × World F). p.0) h, rw h))
  finish_cases fn w (ok u) w1 h = elim (Result-cases (next_fault w1.faults)) [
    | inr (e, fault) ↦ inr (
        inr (
          inl (
            ap (λ (p : Result (Unit {0}) × World F). p.0) h,
            (wrap (codes "commit tx") (wrap (codes "commit transaction") e), rw (h, fault)),
          )))
    | inl (v, fine) ↦
        inr (inr (inr (ap (λ (p : Result (Unit {0}) × World F). p.0) h, rw (h, fine))))
  ]

  pub with_transaction_cases :
      (fn : Exec F (Unit {0})) (w : World F) → TxEnds fn w (with_transaction fn w)
  unfolding with_transaction begin_tx round_trip
  with_transaction_cases fn w = elim (Result-cases (next_fault w.faults)) [
    | inr (e, fault) ↦ inl (wrap (codes "begin tx") (wrap (codes "begin transaction") e), rw fault)
    | inl (u, fine) ↦ let (r, w1) = fn (begun w) in rw fine (finish_cases fn w r w1 refl)
  ]

  -- If the function given to WithTransaction changes no committed table itself, WithTransaction
  -- either reports an error and leaves the committed tables as they were, or reports success, the
  -- function succeeded, and all of its pending writes are committed and none stays pending.
  pub with_transaction_atomic :
      (fn : Exec F (Unit {0})) (w : World F)
      → ((fn (begun w)).1.db ≡ w.db)
      → let out = with_transaction fn w in
        (((e : Error) × (out.0 ≡ err e)) × (out.1.db ≡ w.db))
        ⊎ ((out.0 ≡ ok tt)
            × ((fn (begun w)).0 ≡ ok tt)
            × (out.1.pending ≡ [])
            × (out.1.db ≡ apply_all (fn (begun w)).1.pending w.db))
  unfolding rollback
  with_transaction_atomic fn w own = elim (with_transaction_cases fn w) [
    | inl (e, out) ↦ inl ((e, rw out), rw out)
    | inr (inl (e, failed, out)) ↦ inl ((e, rw out), rw out own)
    | inr (inr (inl (done, (e, out)))) ↦ inl ((e, rw out), rw out own)
    | inr (inr (inr (done, out))) ↦
        inr (rw out, done, rw out, rw out (ap (apply_all (fn (begun w)).1.pending) own))
  ]
