-- ===== src/Domain/Order.antt =====
-- internal/domain/order.go
use pvz_service.Base.{ℕ, Bool, true, false}
use pvz_service.Base.Text.{Text, codes}

pub data OrderStatus : Type 0 where
  in_storage given_to_client returned_from_client returned_without_client : OrderStatus
  given_to_courier : OrderStatus

-- `==` on statuses.
abbrev pub same_status : OrderStatus → OrderStatus → Bool
same_status in_storage in_storage = true
same_status given_to_client given_to_client = true
same_status returned_from_client returned_from_client = true
same_status returned_without_client returned_without_client = true
same_status given_to_courier given_to_courier = true
same_status _ _ = false

-- `F` is the type of float64.
pub record Order (F : Type 0) : Type 0 where
  pub order_id : ℕ
  pub receiver_id : ℕ
  pub storage_until : ℕ
  pub status : OrderStatus
  pub accept_time : ℕ
  pub last_update_time : ℕ
  pub package_type : Text
  pub weight : F
  pub price : F

pub record OrderHistory : Type 0 where
  pub order_id : ℕ
  pub status : OrderStatus
  pub changed_at : ℕ

pub record OrderToImport (F : Type 0) : Type 0 where
  pub order_id : ℕ
  pub receiver_id : ℕ
  pub storage_until : Text
  pub package_type : Text
  pub weight : F
  pub price : F

pub record AcceptOrderRequest (F : Type 0) : Type 0 where
  pub receiver_id : ℕ
  pub order_id : ℕ
  pub storage_until : ℕ
  pub weight : F
  pub price : F
  pub package_type : Text

pub record ReceiverOrdersRequest : Type 0 where
  pub receiver_id : ℕ
  pub in_pvz : Bool
  pub last_n : ℕ
  pub page : ℕ
  pub limit : ℕ

pub record PackageRules (F : Type 0) : Type 0 where
  pub max_weight : F
  pub price : F

unfoldable pub get_status_string : OrderStatus → Text
get_status_string in_storage = codes "In Storage"
get_status_string given_to_client = codes "Given to client"
get_status_string returned_from_client = codes "Returned from client"
get_status_string given_to_courier = codes "Given to courier"
get_status_string returned_without_client = codes "Given to courier without client"
