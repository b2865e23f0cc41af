-- ===== src/Db/Client/Cases.antt =====
-- How a statement ends: with its writes made, or with an error and nothing written.
use pvz_service.Base.{ℕ, ◌≡◌, refl, ap, ◌⊎◌, inl, inr, List, []}
use mathlib.Core.List.{append-nil}
use pvz_service.Base.Text.{codes}
use pvz_service.Domain.Error.{Error, plain, wrap}
use pvz_service.Db.Tables.{Tables, Write, apply_all}
use pvz_service.Db.World.{World, Result, ok, err, round_trip, next_fault, rest_of, Result-cases}
use pvz_service.Db.Client.{
  Conn, client, tx, Outcome, violation, affected, visible, write, perform, exec,
}

module _ {F : Type 0} where
  -- The world after the round trip of a statement.
  abbrev pub tripped : World F → World F
  tripped w = record w { faults = rest_of w.faults }

  visible-tripped : (c : Conn) (w : World F) → visible c (tripped w) ≡ visible c w
  unfolding visible
  visible-tripped client w = refl
  visible-tripped tx w = refl

  -- What a statement that was made selected and wrote.
  abbrev pub Made : Conn → (Tables F → Outcome F) → World F → Result ℕ × World F → Type 0
  Made c statement w out =
      (n : ℕ) × (ws : List (Write F)) × (statement (visible c w) ≡ affected n ws)
      × (out ≡ (ok n, write c ws (tripped w)))

  perform_cases :
      (c : Conn) (statement : Tables F → Outcome F) (w : World F) (o : Outcome F)
      → statement (visible c w) ≡ o
      → Made c statement w (perform c o (tripped w))
        ⊎ ((e : Error) × (perform c o (tripped w) ≡ (err e, tripped w)))
  unfolding perform
  perform_cases c statement w (violation message) h = inr (plain message, refl)
  perform_cases c statement w (affected n ws) h = inl (n, ws, h, refl)

  -- A statement fails and writes nothing, or makes the writes that it selects on the visible rows.
  pub exec_cases :
      (c : Conn) (statement : Tables F → Outcome F) (w : World F)
      → Made c statement w (exec c statement w)
        ⊎ ((e : Error) × (exec c statement w ≡ (err e, tripped w)))
  unfolding exec round_trip
  exec_cases c statement w = elim (Result-cases (next_fault w.faults)) [
    | inr (e, fault) ↦ inr (wrap (codes "exec query") e, rw fault)
    | inl (u, fine) ↦
        let same = visible-tripped c w in
        elim (perform_cases c statement w (statement (visible c w)) refl) [
          | inl (n, ws, made, out) ↦ inl (n, ws, made, rw (fine, same, out))
          | inr (e, out) ↦ inr (wrap (codes "exec query") e, rw (fine, same, out))
        ]
  ]

  -- No writes change nothing.
  pub write-nil : (c : Conn) (w : World F) → write c [] w ≡ w
  unfolding write apply_all
  write-nil client w = refl
  write-nil tx w = ap (λ (ws : List (Write F)). record w { pending = ws }) (append-nil w.pending)

  -- A statement that ended with the writes `ws`, where `Fits` holds, or with an error.
  abbrev pub Ends : Conn → List (Write F) → Type 0 → World F → Result (Unit {0}) × World F → Type 0
  Ends c ws Fits w out =
      (Fits × (out ≡ (ok tt, write c ws (tripped w)))) ⊎ ((e : Error) × (out ≡ (err e, tripped w)))
