-- ===== src/Domain/Platform.antt =====
-- What the code takes from float64, time.Time and package time: the carrier of float64 stays
-- abstract, an instant is a number of nanoseconds, a duration the difference of two.
use pvz_service.Base.{ℕ, ◌*◌, Bool, Option}
use pvz_service.Base.Text.{Text}

pub record Platform (F : Type 0) : Type 0 where
  -- 0, `+` and `>` of float64
  pub zero_float : F
  pub add_float : F → F → F
  pub gt_float : F → F → Bool
  -- `fmt.Sprintf("%.Nf", x)`
  pub fixed : ℕ → F → Text
  -- `Duration.Hours`
  pub hours : ℕ → F
  -- `time.Format` and `time.Parse` with the layout of `cli.TimeFormat`
  pub format_date : ℕ → Text
  pub parse_date : Text → Option ℕ

abbrev pub second : ℕ
second = 1_000_000_000

abbrev pub minute : ℕ
minute = 60 * second

abbrev pub hour : ℕ
hour = 60 * minute
