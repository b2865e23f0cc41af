-- ===== src/App/Paginate/Wrap.antt =====
-- Where uint64 arithmetic wraps: the panic of `Paginate`, exactly.
use pvz_service.Base.{
  ℕ, ◌+◌, ◌-◌, ◌*◌, ◌<◌, ◌≡◌, ◌≢◌, ◌↔◌, none, List, length, ◌==◌, if◌then◌else◌, arith,
}
use pvz_service.App.Paginate.{window, paginate, u64}

module _ {A : Type 0} where
  window-panics :
      (items : List A) (per start end : ℕ)
      → (window items per start end ≡ none) ↔ ((per ≢ 0) × (start < length items) × (end < start))
  unfolding window
  window-panics items per start end = (λ h. ground arith, λ h. ground arith)

  -- Paginate panics exactly when the page size is not 0, the wrapped start index lies inside the
  -- list, and the wrapped end index lies before the start.
  pub paginate-panics :
      (items : List A) (page per : ℕ)
      → let start = u64 (((if page == 0 then 1 else page) - 1) * per) in
        (paginate items page per ≡ none)
        ↔ ((per ≢ 0) × (start < length items) × (u64 (start + per) < start))
  unfolding paginate
  paginate-panics items page per = window-panics items per _ _
