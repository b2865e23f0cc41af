-- ===== src/Repository/Cached/Keys.antt =====
-- Different orders, receivers and lists have different keys.
use pvz_service.Base.{ℕ, ◌≡◌, ap, ◌≢◌, [], ◌∷◌, arith, drop}
use pvz_service.Base.Text.Decimal.{decimal-injective}
use pvz_service.Base.Text.{Text}
use pvz_service.Repository.Cached.{
  order_key, receiver_key, history_key, rules_key, returned_key, all_key,
}

pub order_key-injective : (m n : ℕ) → order_key m ≡ order_key n → m ≡ n
unfolding order_key
order_key-injective m n e = decimal-injective m n (ap (drop 6) e)

pub receiver_key-injective : (m n : ℕ) → receiver_key m ≡ receiver_key n → m ≡ n
unfolding receiver_key
receiver_key-injective m n e = decimal-injective m n (ap (drop 9) e)

pub history_key-injective : (m n : ℕ) → history_key m ≡ history_key n → m ≡ n
unfolding history_key
history_key-injective m n e = decimal-injective m n (ap (drop 8) e)

pub rules_key-injective : (s t : Text) → rules_key s ≡ rules_key t → s ≡ t
unfolding rules_key
rules_key-injective s t e = ap (drop 14) e

-- The third letter tells the three kinds of lists of orders apart.
third : Text → ℕ
third [] = 0
third (a ∷ []) = 0
third (a ∷ b ∷ []) = 0
third (a ∷ b ∷ c ∷ s) = c

pub receiver-ne-returned : (n : ℕ) → receiver_key n ≢ returned_key
unfolding receiver_key third
receiver-ne-returned n e = omega (arith, ap third e)

pub receiver-ne-all : (n : ℕ) → receiver_key n ≢ all_key
unfolding receiver_key third
receiver-ne-all n e = omega (arith, ap third e)

pub returned-ne-all : returned_key ≢ all_key
unfolding third
returned-ne-all e = omega (arith, ap third e)
