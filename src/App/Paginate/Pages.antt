-- ===== src/App/Paginate/Pages.antt =====
-- What a page holds, for the page numbers and sizes that the gRPC requests carry (uint32).
use native.Mathlib.Nat.{mod-eq_of_lt, zero-mul}
use pvz_service.Base.{
  ℕ, zero, suc, ◌+◌, ◌-◌, ◌*◌, ◌^◌, ◌<◌, ◌≤◌, ◌≡◌, ◌∙◌, ap, refl, ap, sym, ◌∙◌, Option, none, some,
  List, [], ◌++◌, length, take, drop, ◌==◌, if◌then◌else◌, arith, take_of_length-le,
  drop_of_length-le, length-drop, take-nil, take-add,
}
use pvz_service.App.Paginate.{window, paginate, u64}

-- Index of the first item of a page; page 0 is read as page 1.
abbrev pub page_start : ℕ → ℕ → ℕ
page_start page per = (page - 1) * per

start_bound : (page per : ℕ) → page < 2 ^ 32 → per < 2 ^ 32 → page_start page per + per < 2 ^ 64
start_bound page per hp hq = grind arith

-- Page 0 starts where page 1 does.
page_number : (page per : ℕ) → ((if page == 0 then 1 else page) - 1) * per ≡ page_start page per
page_number zero per = refl
page_number (suc page) per = ground arith

module _ {A : Type 0} where
  take-drop_clipped :
      (items : List A) (start per : ℕ)
      → length items < start + per
      → take (length items - start) (drop start items) ≡ take per (drop start items)
  take-drop_clipped items start per h =
      rw
        (take_of_length-le (length items - start) (drop start items)
          (omega (arith, length-drop start items)))
        (sym (take_of_length-le per (drop start items) (omega (arith, length-drop start items))))

  window-take-drop :
      (items : List A) (per start : ℕ)
      → window items per start (start + per) ≡ some (take per (drop start items))
  unfolding window
  window-take-drop items zero start = refl
  window-take-drop items (suc per) start = ground (
    arith,
    take-drop_clipped items start (suc per),
    drop_of_length-le start items,
    take-nil {A = A} (suc per),
  )

  -- With page number and page size below 2^32, Paginate does not panic and returns the items of
  -- that page, fewer or none at the end of the list; page 0 is page 1.
  pub paginate-take-drop :
      (items : List A) (page per : ℕ)
      → page < 2 ^ 32
      → per < 2 ^ 32
      → paginate items page per ≡ some (take per (drop (page_start page per) items))
  paginate-take-drop items page per hp hq =
      let bound = start_bound page per hp hq in
      let start_eq : u64 (page_start page per) ≡ page_start page per = mod-eq_of_lt (omega arith) in
      let end_eq : u64 (page_start page per + per) ≡ page_start page per + per =
        mod-eq_of_lt bound in
      unfold paginate in
      rw (page_number page per, start_eq, end_eq) (window-take-drop items per (page_start page per))

  -- A client that reads the pages 1 to `k`, one behind the other.
  pub read_pages : List A → ℕ → ℕ → Option (List A)
  read_pages items per zero = some []
  read_pages items per (suc k) = elim (read_pages items per k) [
    | none ↦ none
    | some read ↦ elim (paginate items (suc k) per) [
      | none ↦ none
      | some page ↦ some (read ++ page)
    ]
  ]

  paginate-suc :
      (items : List A) (per k : ℕ)
      → suc k < 2 ^ 32
      → per < 2 ^ 32
      → paginate items (suc k) per ≡ some (take per (drop (k * per) items))
  paginate-suc items per k h hp =
      let index : suc k - 1 ≡ k = omega arith in
      paginate-take-drop items (suc k) per h hp
      ∙ ap (λ (i : ℕ). some (take per (drop (i * per) items))) index

  read_pages-take :
      (items : List A) (per k : ℕ)
      → k < 2 ^ 32
      → per < 2 ^ 32
      → read_pages items per k ≡ some (take (k * per) items)
  unfolding read_pages
  read_pages-take items per zero h hp = rw zero-mul
  read_pages-take items per (suc k) h hp =
      let split : suc k * per ≡ k * per + per = omega arith in
      rw (
        read_pages-take items per k (omega arith) hp,
        paginate-suc items per k h hp,
        split,
        take-add (k * per) per items,
      )

  -- With k and the page size below 2^32, the pages 1 to k one behind the other are the first k
  -- times page-size items, and the whole list once that reaches its length.
  pub read_pages-prefix :
      (items : List A) (per k : ℕ)
      → k < 2 ^ 32
      → per < 2 ^ 32
      → (read_pages items per k ≡ some (take (k * per) items))
        × (length items ≤ k * per → read_pages items per k ≡ some items)
  read_pages-prefix items per k hk hp = (
    read_pages-take items per k hk hp,
    λ h. read_pages-take items per k hk hp ∙ ap some (take_of_length-le (k * per) items h),
  )
