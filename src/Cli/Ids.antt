-- ===== src/Cli/Ids.antt =====
-- The list of identifiers of internal/adapter/cli/process_orders.go: `strings.Split` at commas, and
-- `strconv.ParseUint` of each part, to the base 10 in 64 bits.
use pvz_service.Base.{
  ℕ, zero, suc, ◌+◌, ◌-◌, ◌*◌, ◌/◌, ◌%◌, ◌^◌, ◌≤◌, ◌<◌, ◌≡◌, refl, ap, ◌∙◌, ◌≢◌, inl, inr, false,
  ◌||◌, List, [], ◌∷◌, ◌++◌, arith, ltb, leb, ◌==◌, if◌then◌else◌, Bool-cases, All,
}
use pvz_service.Base.Text.{Text, codes, decimal, digits}
use pvz_service.Domain.Error.{Error, plain, wrap}
use pvz_service.Db.World.{Result, err, ok}

abbrev extend_first : ℕ → List Text → List Text
extend_first c [] = (c ∷ []) ∷ []
extend_first c (part ∷ parts) = (c ∷ part) ∷ parts

unfoldable pub split_commas : Text → List Text
split_commas [] = [] ∷ []
split_commas (c ∷ s) =
    let parts = split_commas s in if c == b',' then [] ∷ parts else extend_first c parts

-- The outcome of ParseUint before its error is made.
pub data Parsed : Type 0 where
  value : ℕ → Parsed
  bad_syntax : Parsed
  out_of_range : Parsed

-- The loop of ParseUint, with the number so far.
unfoldable pub parse_digits : ℕ → Text → Parsed
parse_digits n [] = value n
parse_digits n (c ∷ s) =
    let next = n * 10 + (c - b'0') in
    let parsed = parse_digits next s in
    if ltb c b'0' || ltb b'9' c
    then bad_syntax
    else if leb (2 ^ 64) next
    then out_of_range
    else parsed

module _ (quote : Text → Text) where
  -- `NumError.Error()`
  unfoldable pub num_error : Text → Text → Error
  num_error s reason =
      plain (codes "strconv.ParseUint: parsing " ++ (quote s ++ (codes ": " ++ reason)))

  abbrev pub parsed_or : Text → Parsed → Result ℕ
  parsed_or s (value n) = ok n
  parsed_or s bad_syntax = err (num_error s (codes "invalid syntax"))
  parsed_or s out_of_range = err (num_error s (codes "value out of range"))

  unfoldable pub parse_uint : Text → Result ℕ
  unfolding parse_digits num_error
  parse_uint [] = err (num_error [] (codes "invalid syntax"))
  parse_uint (c ∷ s) = parsed_or (c ∷ s) (parse_digits 0 (c ∷ s))

  abbrev add_id : Result ℕ → Result (List ℕ) → Result (List ℕ)
  add_id (err e) rest = err (wrap (codes "strconv.ParseUint") e)
  add_id (ok id) (err e) = err e
  add_id (ok id) (ok ids) = ok (id ∷ ids)

  -- The loop over the parts; it ends at the first that is no identifier.
  unfoldable pub parse_ids : List Text → Result (List ℕ)
  unfolding parse_uint
  parse_ids [] = ok []
  parse_ids (s ∷ parts) = add_id (parse_uint s) (parse_ids parts)

  unfoldable pub parse_order_ids : Text → Result (List ℕ)
  unfolding split_commas parse_ids
  parse_order_ids s = parse_ids (split_commas s)

-- Identifiers as a user lists them.
pub id_list : List ℕ → Text
id_list [] = []
id_list (id ∷ []) = decimal id
id_list (id ∷ next ∷ ids) = decimal id ++ b',' ∷ id_list (next ∷ ids)

IsDigit : ℕ → Type 0
IsDigit c = (b'0' ≤ c) × (c ≤ b'9')

digits-IsDigit : (fuel n : ℕ) (out : Text) → All IsDigit out → All IsDigit (digits fuel n out)
unfolding digits IsDigit
digits-IsDigit zero n out h = h
digits-IsDigit (suc fuel) n out h = elim (Bool-cases (ltb n 10)) [
  | inl small ↦ rw small ((omega arith, ground arith), h)
  | inr large ↦
      rw large
        (digits-IsDigit fuel (n / 10) ((b'0' + n % 10) ∷ out) ((omega arith, omega arith), h))
]

decimal-IsDigit : (n : ℕ) → All IsDigit (decimal n)
unfolding decimal
decimal-IsDigit n = digits-IsDigit (suc n) n [] tt

digits-nonempty : (fuel n : ℕ) (out : Text) → out ≢ [] → digits fuel n out ≢ []
unfolding digits
digits-nonempty zero n out h = h
digits-nonempty (suc fuel) n out h = elim (Bool-cases (ltb n 10)) [
  | inl small ↦ rw small (λ e. cc)
  | inr large ↦ rw large (digits-nonempty fuel (n / 10) ((b'0' + n % 10) ∷ out) (λ e. cc))
]

decimal-nonempty : (n : ℕ) → decimal n ≢ []
unfolding decimal digits
decimal-nonempty n = elim (Bool-cases (ltb n 10)) [
  | inl small ↦ rw small (λ e. cc)
  | inr large ↦ rw large (digits-nonempty n (n / 10) ((b'0' + n % 10) ∷ []) (λ e. cc))
]

split_commas-one : (d : Text) → All IsDigit d → split_commas d ≡ d ∷ []
unfolding split_commas IsDigit
split_commas-one [] h = refl
split_commas-one (c ∷ d) h =
    let other : (c == b',') ≡ false = ground arith in rw (other, split_commas-one d h.1) refl

split_commas-append :
    (d s : Text) → All IsDigit d → split_commas (d ++ b',' ∷ s) ≡ d ∷ split_commas s
unfolding split_commas IsDigit
split_commas-append [] s h = refl
split_commas-append (c ∷ d) s h =
    let other : (c == b',') ≡ false = ground arith in rw (other, split_commas-append d s h.1) refl

-- One more digit.
parse_digits-digit :
    (n d : ℕ) (out : Text)
    → d < 10
    → n * 10 + d < 2 ^ 64
    → parse_digits n ((b'0' + d) ∷ out) ≡ parse_digits (n * 10 + d) out
unfolding parse_digits
parse_digits-digit n d out small fits =
    let digit : (ltb (b'0' + d) b'0' || ltb b'9' (b'0' + d)) ≡ false = ground arith in
    let next : n * 10 + (b'0' + d - b'0') ≡ n * 10 + d = omega arith in
    let below : leb (2 ^ 64) (n * 10 + d) ≡ false = ground arith in rw (digit, next, below) refl

parse_digits-digits :
    (fuel n : ℕ) (out : Text)
    → n < fuel
    → n < 2 ^ 64
    → parse_digits 0 (digits fuel n out) ≡ parse_digits n out
unfolding digits
parse_digits-digits zero n out h b = absurd (omega arith)
parse_digits-digits (suc fuel) n out h b = elim (Bool-cases (ltb n 10)) [
  | inl small ↦ rw small (
      parse_digits-digit 0 n out (ground arith) (omega arith)
      ∙ ap (λ (k : ℕ). parse_digits k out) (omega arith))
  | inr large ↦ rw large (
      parse_digits-digits fuel (n / 10) ((b'0' + n % 10) ∷ out) (ground arith) (omega arith)
      ∙ (parse_digits-digit (n / 10) (n % 10) out (omega arith) (omega arith)
          ∙ ap (λ (k : ℕ). parse_digits k out) (omega arith)))
]

module _ (quote : Text → Text) where
  parse_uint-value :
      (s : Text) (n : ℕ) → s ≢ [] → parse_digits 0 s ≡ value n → parse_uint quote s ≡ ok n
  unfolding parse_uint
  parse_uint-value [] n some_digit read = absurd (some_digit refl)
  parse_uint-value (c ∷ s) n some_digit read = ap (parsed_or quote (c ∷ s)) read

  parse_uint-decimal : (n : ℕ) → n < 2 ^ 64 → parse_uint quote (decimal n) ≡ ok n
  unfolding parse_digits
  parse_uint-decimal n b =
      parse_uint-value (decimal n) n (decimal-nonempty n)
        (unfold decimal in parse_digits-digits (suc n) n [] (omega arith) b)

  parse_order_ids-cons :
      (id : ℕ) (s : Text)
      → id < 2 ^ 64
      → parse_order_ids quote (decimal id ++ b',' ∷ s)
        ≡ add_id quote (ok id) (parse_order_ids quote s)
  unfolding parse_order_ids parse_ids
  parse_order_ids-cons id s b =
      rw (split_commas-append (decimal id) s (decimal-IsDigit id), parse_uint-decimal id b) refl

  -- Identifiers below 2^64, at least one, printed in decimal with commas between them, are read
  -- back by process-orders as they were.
  pub parse_order_ids-round_trip :
      (id : ℕ) (ids : List ℕ)
      → id < 2 ^ 64
      → All (λ i. i < 2 ^ 64) ids
      → parse_order_ids quote (id_list (id ∷ ids)) ≡ ok (id ∷ ids)
  unfolding id_list
  parse_order_ids-round_trip id [] b bs =
      unfold parse_order_ids parse_ids in
      rw (split_commas-one (decimal id) (decimal-IsDigit id), parse_uint-decimal id b) refl
  parse_order_ids-round_trip id (next ∷ ids) b bs =
      parse_order_ids-cons id (id_list (next ∷ ids)) b
      ∙ ap (add_id quote (ok id)) (parse_order_ids-round_trip next ids bs.0 bs.1)
