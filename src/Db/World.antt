-- ===== src/Db/World.antt =====
-- What a run acts on: the committed rows, the writes of the open transaction, the caches, the
-- counters, and the environment's choices: how far the clock moves at each reading, and which
-- statements fail, with which driver message. An action returns the new world with its result, an
-- error too: what was done before the error stays done.
use pvz_service.Base.{
  ℕ, suc, ◌+◌, ◌≡◌, refl, ◌⊎◌, inl, inr, Option, none, some, List, [], ◌∷◌, ◌++◌,
}
use pvz_service.Base.Text.{Text}
use pvz_service.Domain.Order.{Order, OrderHistory, PackageRules}
use pvz_service.Domain.Error.{Error, plain, wrap}
use pvz_service.Db.Tables.{Tables, Write}
use pvz_service.Cache.Lru.{LruCache}

pub data Result (A : Type 0) : Type 0 where
  ok : A → Result A
  err : Error → Result A

pub record Caches (F : Type 0) : Type 0 where
  pub orders : LruCache Text (Order F)
  pub receivers : LruCache Text (List (Order F))
  pub history : LruCache Text (List OrderHistory)
  pub package_rules : LruCache Text (List (PackageRules F))

-- The calls of `metrics.MetricsProvider`, in order.
pub data Metric : Type 0 where
  order_accepted : Metric
  orders_issued : ℕ → Metric
  orders_returned : Text → ℕ → Metric
  refresh_order_status : Metric
  cache_hit : Text → Text → Metric
  kafka_message_processed : Text → Metric
  update_cache_metrics : List (Text × ℕ) → Metric

pub record World (F : Type 0) : Type 0 where
  pub db : Tables F
  pub pending : List (Write F)
  pub caches : Caches F
  pub metrics : List Metric
  pub clock : ℕ
  pub ticks : List ℕ
  pub faults : List (Option Text)
  pub next_id : ℕ

abbrev pub Exec : Type 0 → Type 0 → Type 0
Exec F A = World F → Result A × World F

module _ {F A : Type 0} where
  abbrev pub pure : A → Exec F A
  pure a w = (ok a, w)

  abbrev pub throw : Error → Exec F A
  throw e w = (err e, w)

module _ {F A B : Type 0} where
  abbrev pub continue : Result A × World F → (A → Exec F B) → Result B × World F
  continue (ok a, w) f = f a w
  continue (err e, w) f = (err e, w)

  infixl 5 ◌>>=◌ ◌>>◌
  abbrev pub ◌>>=◌ : Exec F A → (A → Exec F B) → Exec F B
  ◌>>=◌ m f w = continue (m w) f

  abbrev pub ◌>>◌ : Exec F A → Exec F B → Exec F B
  m >> n = m >>= λ _. n

module _ {F A : Type 0} where
  -- `if err != nil { return fmt.Errorf("label: %w", err) }`
  abbrev pub relabel : Text → Result A × World F → Result A × World F
  relabel label (ok a, w) = (ok a, w)
  relabel label (err e, w) = (err (wrap label e), w)

  abbrev pub wrap_error : Text → Exec F A → Exec F A
  wrap_error label m w = relabel label (m w)

abbrev pub later : ℕ → List ℕ → ℕ
later clock [] = clock
later clock (t ∷ rest) = clock + t

abbrev pub rest_of {ℓ} : {A : Type ℓ} → List A → List A
rest_of [] = []
rest_of (x ∷ rest) = rest

-- What the next statement meets.
abbrev pub next_fault : List (Option Text) → Result (Unit {0})
next_fault [] = ok tt
next_fault (none ∷ rest) = ok tt
next_fault (some message ∷ rest) = err (plain message)

module _ {F : Type 0} where
  -- A reading of the clock, which may have moved on.
  unfoldable pub time_now : Exec F ℕ
  time_now w = (
    ok (later w.clock w.ticks),
    record w { clock = later w.clock w.ticks; ticks = rest_of w.ticks },
  )

  -- A fresh UUID.
  unfoldable pub new_uuid : Exec F ℕ
  new_uuid w = (ok w.next_id, record w { next_id = suc w.next_id })

  -- A round trip to the database, which may fail with the driver's message.
  unfoldable pub round_trip : Exec F (Unit {0})
  round_trip w = (next_fault w.faults, record w { faults = rest_of w.faults })

  unfoldable pub count_metric : Metric → Exec F (Unit {0})
  count_metric m w = (ok tt, record w { metrics = w.metrics ++ m ∷ [] })

-- To split on how an action ended.
pub Result-cases :
    {A : Type 0} (r : Result A) → ((a : A) × (r ≡ ok a)) ⊎ ((e : Error) × (r ≡ err e))
Result-cases (ok a) = inl (a, refl)
Result-cases (err e) = inr (e, refl)

pub ok_injective : {A : Type 0} {a b : A} → ok a ≡ ok b → a ≡ b
ok_injective h = cc
