-- ===== src/Db/Client.antt =====
-- pkg/db/client.go and pkg/db/transaction.go, and database/sql below them: statements run by the
-- client, each committed at once, or in the open transaction, which sees its own writes.
pub mod Cases
pub mod Transaction
use pvz_service.Base.{ℕ, List, [], ◌++◌}
use pvz_service.Base.Text.{Text, codes}
use pvz_service.Domain.Error.{plain}
use pvz_service.Db.Tables.{Tables, Write, apply_all}
use pvz_service.Db.World.{World, Exec, Result, ok, err, ◌>>=◌, ◌>>◌, wrap_error, round_trip}

-- Who runs a statement: `Client.Exec` or `Tx.Exec`.
pub data Conn : Type 0 where
  client tx : Conn

-- What a statement does: a constraint is violated, or so many rows are affected by these writes.
pub data Outcome (F : Type 0) : Type 0 where
  violation : Text → Outcome F
  affected : ℕ → List (Write F) → Outcome F

module _ {F : Type 0} where
  unfoldable pub visible : Conn → World F → Tables F
  visible client w = w.db
  visible tx w = apply_all w.pending w.db

  unfoldable pub write : Conn → List (Write F) → World F → World F
  write client ws w = record w { db = apply_all ws w.db }
  write tx ws w = record w { pending = w.pending ++ ws }

  unfoldable pub perform : Conn → Outcome F → Exec F ℕ
  perform c (violation message) w = (err (plain message), w)
  perform c (affected n ws) w = (ok n, write c ws w)

  -- `Client.Exec` and `Tx.Exec`: the number of affected rows.
  unfoldable pub exec : Conn → (Tables F → Outcome F) → Exec F ℕ
  exec c statement =
      wrap_error (codes "exec query") do round_trip; λ w. perform c (statement (visible c w)) w

  -- `Client.Query`, `Client.QueryRow`: committed rows.
  unfoldable pub query : {A : Type 0} → (Tables F → A) → Exec F A
  query select = wrap_error (codes "query") do round_trip; λ w. (ok (select w.db), w)

  unfoldable pub query_row : {A : Type 0} → (Tables F → A) → Exec F A
  query_row select = do round_trip; λ w. (ok (select w.db), w)

  -- `Client.BeginTx`
  unfoldable pub begin_tx : Exec F (Unit {0})
  begin_tx =
      wrap_error (codes "begin transaction") do round_trip; λ w. (ok tt, record w { pending = [] })

  -- `Tx.Commit`; a commit that fails has written nothing.
  unfoldable pub commit : Exec F (Unit {0})
  commit =
      wrap_error (codes "commit transaction")
        do round_trip; λ w. (ok tt, record w { db = apply_all w.pending w.db; pending = [] })

  -- `Tx.Rollback`, whose error the deferred function drops.
  unfoldable pub rollback : World F → World F
  rollback w = record w { pending = [] }

  -- The deferred rollback of `WithTransaction`.
  unfoldable pub rollback_on_error : {A : Type 0} → Result A × World F → Result A × World F
  rollback_on_error (ok a, w) = (ok a, w)
  rollback_on_error (err e, w) = (err e, rollback w)

  -- `Client.WithTransaction`
  unfoldable pub with_transaction : Exec F (Unit {0}) → Exec F (Unit {0})
  with_transaction fn = do
    wrap_error (codes "begin tx") begin_tx
    λ w. rollback_on_error ((do fn; wrap_error (codes "commit tx") commit) w)
