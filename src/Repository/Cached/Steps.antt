-- ===== src/Repository/Cached/Steps.antt =====
-- Steps of an open transaction, what they keep of the caches, and how they follow each other.
use pvz_service.Base.{◌≡◌, refl, ◌∙◌, ◌⊎◌, inl, inr, List, ◌++◌}
use pvz_service.Base.Text.{Text, text_eq_instance}
use pvz_service.Domain.Error.{Error, wrap}
use pvz_service.Db.Client.{tx, visible}
use pvz_service.Db.Tables.{Write}
use pvz_service.Db.World.{World, Exec, Result, ok, err, continue, relabel}
use pvz_service.Repository.Cached.Coherent.{Coherent}

module _ {F : Type 0} where
  -- Inside a transaction the caches fit the committed tables and what the transaction sees: whether
  -- it commits or not, no entry is stale.
  pub record TxCoherent (w : World F) : Type 0 where
    pub committed : Coherent w.caches w.db
    pub seen : Coherent w.caches (visible tx w)

  -- A step in a transaction, as it ended: with pending writes of which `Q` holds, or with an error;
  -- the committed tables are as before, and the caches fit.
  pub record TxStep (Q : List (Write F) → Type 0) (w : World F) (out : Result (Unit {0}) × World F)
      : Type 0 where
    pub same_db : out.1.db ≡ w.db
    pub coherent : TxCoherent out.1
    pub ended : ((out.0 ≡ ok tt) × Q out.1.pending) ⊎ ((e : Error) × (out.0 ≡ err e))

  -- The step made the writes `ws`, and `Fits` held of what it saw.
  abbrev pub TxWrites : List (Write F) → Type 0 → World F → Result (Unit {0}) × World F → Type 0
  TxWrites ws Fits w out = TxStep (λ writes. Fits × (writes ≡ w.pending ++ ws)) w out

  -- One step after another, and a step whose error gets a label.
  pub TxStep-bind :
      (Q R : List (Write F) → Type 0) (k : Exec F (Unit {0})) (w : World F)
      (out : Result (Unit {0}) × World F)
      → TxStep Q w out
      → ((w1 : World F) → TxCoherent w1 → w1.db ≡ w.db → Q w1.pending → TxStep R w1 (k w1))
      → TxStep R w (continue out (λ _. k))
  TxStep-bind Q R k w (ok u, w1) step next = elim step.ended [
    | inl (done, q) ↦
        let rest = next w1 step.coherent step.same_db q in
        record {
          same_db = rest.same_db ∙ step.same_db;
          coherent = rest.coherent;
          ended = rest.ended;
        }
    | inr (e, failed) ↦ absurd (cc)
  ]
  TxStep-bind Q R k w (err e, w1) step next = record {
    same_db = step.same_db;
    coherent = step.coherent;
    ended = inr (e, refl);
  }

  pub TxStep-wrap :
      (Q : List (Write F) → Type 0) (label : Text) (w : World F) (out : Result (Unit {0}) × World F)
      → TxStep Q w out
      → TxStep Q w (relabel label out)
  TxStep-wrap Q label w (ok u, w1) step = step
  TxStep-wrap Q label w (err e, w1) step = record {
    same_db = step.same_db;
    coherent = step.coherent;
    ended = inr (wrap label e, refl);
  }

  pub TxStep-map :
      (Q R : List (Write F) → Type 0) (w : World F) (out : Result (Unit {0}) × World F)
      → ((ws : List (Write F)) → Q ws → R ws)
      → TxStep Q w out
      → TxStep R w out
  TxStep-map Q R w out f step = record {
    same_db = step.same_db;
    coherent = step.coherent;
    ended = elim step.ended [ inl (done, q) ↦ inl (done, f _ q) | inr failed ↦ inr failed ];
  }
