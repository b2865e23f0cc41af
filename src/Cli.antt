-- ===== src/Cli.antt =====
-- internal/adapter/cli: what a command reads and prints, and the service behind it. The flags come
-- from cobra, files from the operating system and orders from JSON: all are parameters. A command
-- takes the state of the service and the lines printed so far, and returns them with its result.
pub mod Errors
pub mod Ids
pub mod Commands
pub mod Process
pub mod Scroll
pub mod Scrolling
pub mod Input
pub mod Run
use pvz_service.Base.{ℕ, Bool, Option, List, [], ◌∷◌, ◌++◌, if◌then◌else◌}
use pvz_service.Base.Text.{Text, codes, text_eq}
use pvz_service.Domain.Error.{Error, wrap}
use pvz_service.Domain.Order.{AcceptOrderRequest, Order, OrderToImport}
use pvz_service.Db.World.{Result, err, ok}

-- `cli.OrderService`, on a state of its own. `ImportOrders` returns a count with an error too.
pub record OrderService (F S : Type 0) : Type 0 where
  pub accept_order : AcceptOrderRequest F → S → Result F × S
  pub return_order_to_delivery : ℕ → S → Result (Unit {0}) × S
  pub issue_orders_to_client : ℕ → List ℕ → S → Result (Unit {0}) × S
  pub return_orders_from_client : ℕ → List ℕ → S → Result (Unit {0}) × S
  pub get_receiver_orders : ℕ → Bool → ℕ → ℕ → ℕ → S → Result (List (Order F) × ℕ) × S
  pub get_receiver_orders_scroll : ℕ → ℕ → ℕ → S → Result (List (Order F) × ℕ) × S
  pub get_returned_orders : ℕ → ℕ → S → Result (List (Order F) × ℕ) × S
  pub get_order_history : S → Result (List (Order F)) × S
  pub import_orders : List (OrderToImport F) → S → (ℕ × Option Error) × S

-- `cmd.Flags()`
pub record Flags (F : Type 0) : Type 0 where
  pub get_uint64 : Text → Result ℕ
  pub get_float64 : Text → Result F
  pub get_string : Text → Result Text
  pub get_bool : Text → Result Bool

-- `strconv.Quote`, the text of an error of `time.Parse`, `os.ReadFile` and `json.Unmarshal`.
pub record Outside (F : Type 0) : Type 0 where
  pub quote : Text → Text
  pub date_error : Text → Text
  pub read_file : Text → Result Text
  pub unmarshal : Text → Result (List (OrderToImport F))

-- The state of the service, and the lines on standard output.
pub record Session (S : Type 0) : Type 0 where
  pub service : S
  pub output : List Text

abbrev pub Command : Type 0 → Type 0 → Type 0
Command S A = Session S → Result A × Session S

module _ {S A : Type 0} where
  abbrev pub done : A → Command S A
  done a s = (ok a, s)

  abbrev pub fail : Error → Command S A
  fail e s = (err e, s)

  -- A call of a library: its error, under a label.
  abbrev pub checked : Text → Result A → Command S A
  checked label (ok a) s = (ok a, s)
  checked label (err e) s = (err (wrap label e), s)

  -- A check of the command itself, whose error is returned as it is.
  abbrev pub as_is : Result A → Command S A
  as_is r s = (r, s)

  -- A call of the service.
  abbrev pub call : (S → Result A × S) → Command S A
  call f s = let (r, service) = f s.service in (r, record s { service = service })

module _ {S A B : Type 0} where
  abbrev pub proceed : Result A × Session S → (A → Command S B) → Result B × Session S
  proceed (ok a, s) f = f a s
  proceed (err e, s) f = (err e, s)

  infixl 5 ◌>>=◌ ◌>>◌
  abbrev pub ◌>>=◌ : Command S A → (A → Command S B) → Command S B
  ◌>>=◌ m f s = proceed (m s) f

  abbrev pub ◌>>◌ : Command S A → Command S B → Command S B
  m >> n = m >>= λ _. n

module _ {S : Type 0} where
  -- `fmt.Printf` of one line
  unfoldable pub print_line : Text → Command S (Unit {0})
  print_line line s = (ok tt, record s { output = s.output ++ line ∷ [] })

  unfoldable pub print_lines : List Text → Command S (Unit {0})
  print_lines lines s = (ok tt, record s { output = s.output ++ lines })

-- `MapPackageType` of mapping.go
unfoldable pub map_package_type : Text → Text
map_package_type package_type = if text_eq package_type [] then codes "none" else package_type
