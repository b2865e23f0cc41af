-- ===== src/App/Paginate.antt =====
-- `Paginate` of internal/app/service.go, in uint64 arithmetic; the proofs are in the modules below.
pub mod Pages
pub mod Wrap
use pvz_service.Base.{
  ℕ, ◌+◌, ◌-◌, ◌*◌, ◌%◌, ◌^◌, Option, none, some, List, [], ltb, leb, ◌==◌, if◌then◌else◌, length,
  take, drop,
}

abbrev pub u64 : ℕ → ℕ
u64 n = n % 2 ^ 64

module _ {A : Type 0} where
  -- `items[start:end]`; `none` is the panic on bounds out of order or out of range.
  unfoldable pub slice : List A → ℕ → ℕ → Option (List A)
  slice items start end =
      if leb start end
      then (if leb end (length items) then some (take (end - start) (drop start items)) else none)
      else none

  -- `Paginate` from its first return on, with the two indices computed.
  unfoldable pub window : List A → ℕ → ℕ → ℕ → Option (List A)
  unfolding slice
  window items items_per_page start_index end_index =
      let total_items = length items in
      if items_per_page == 0
      then some []
      else if leb total_items start_index
      then some []
      else slice items start_index (if ltb total_items end_index then total_items else end_index)

  unfoldable pub paginate : List A → ℕ → ℕ → Option (List A)
  unfolding window
  paginate items current_page items_per_page =
      let page = if current_page == 0 then 1 else current_page in
      let start_index = u64 ((page - 1) * items_per_page) in
      window items items_per_page start_index (u64 (start_index + items_per_page))
