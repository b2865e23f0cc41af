-- ===== src/Notifier/Telegram/Attempts.antt =====
-- The attempts of `SendMessage` in internal/infra/telegram/telegram_client.go.
use pvz_service.Base.{
  ℕ, zero, suc, ◌+◌, ◌<◌, ◌≡◌, refl, ◌↔◌, inl, inr, Option, none, some, List, arith, pos_part,
}
use mathlib.Core.Path.{subst}
use pvz_service.Base.Text.{Text}
use pvz_service.Domain.Error.{Error}
use pvz_service.Db.World.{Result-cases, err, ok}
use pvz_service.Notifier.Telegram.{
  Step, send_message, Network, SendMessageRequest, TelegramConfig, after_attempt, after_wait,
  send_attempts, send_message_attempt, to_send,
}

module _ {Req Resp : Type 0} (network : Network Req Resp) (config : TelegramConfig)
    (message : SendMessageRequest) where
  -- The attempt fails, and the wait that follows is not interrupted.
  abbrev pub Passes : ℕ → Type 0
  Passes n =
      ((e : Error) × (send_message_attempt network config n message ≡ err e))
      × (network.interrupted n ≡ none)

  -- Of `left` attempts from `n` on, the first that does not fail succeeds.
  abbrev pub SucceedsFrom : ℕ → ℕ → Type 0
  SucceedsFrom n left =
      (i : ℕ) × (i < left)
      × ((j : ℕ) → j < i → Passes (n + j))
      × (send_message_attempt network config (n + i) message ≡ ok tt)

  later-SucceedsFrom :
      (n left : ℕ) → Passes n → SucceedsFrom (n + 1) left → SucceedsFrom n (suc left)
  later-SucceedsFrom n left passed (i, below, before, success) = (
    suc i,
    omega arith,
    earlier,
    subst (λ (k : ℕ). send_message_attempt network config k message ≡ ok tt) (omega arith) success,
  )
    where
      earlier : (j : ℕ) → j < suc i → Passes (n + j)
      earlier zero h = subst Passes (omega arith) passed
      earlier (suc j) h = subst Passes (omega arith) (before j (omega arith))

  at_once :
      (n left : ℕ)
      → send_message_attempt network config n message ≡ ok tt
      → SucceedsFrom n (suc left)
  at_once n left success = (
    0,
    omega arith,
    λ j b. absurd (omega arith),
    subst (λ (k : ℕ). send_message_attempt network config k message ≡ ok tt) (omega arith) success,
  )

  waited-SucceedsFrom :
      (left n : ℕ) (e : Error) (r : Option Error × List Step) (o : Option Error)
      → send_message_attempt network config n message ≡ err e
      → network.interrupted n ≡ o
      → (after_wait network config n o r).0 ≡ none
      → (r.0 ≡ none → SucceedsFrom (n + 1) left)
      → SucceedsFrom n (suc left)
  waited-SucceedsFrom left n e r none failure goes_on h onwards =
      later-SucceedsFrom n left ((e, failure), goes_on) (onwards h)
  waited-SucceedsFrom left n e r (some context_error) failure stopped h onwards = cc

  failed-SucceedsFrom :
      (left n : ℕ) (e : Error)
      → send_message_attempt network config n message ≡ err e
      → (after_attempt network config left n
          (err e)
          (send_attempts network config message left (n + 1))).0
        ≡ none
      → ((send_attempts network config message left (n + 1) (some e)).0 ≡ none
          → SucceedsFrom (n + 1) left)
      → SucceedsFrom n (suc left)
  unfolding send_attempts
  failed-SucceedsFrom zero n e failure h onwards = cc
  failed-SucceedsFrom (suc left) n e failure h onwards =
      waited-SucceedsFrom (suc left) n e _ (network.interrupted n) failure refl h onwards

  sent-SucceedsFrom :
      (left n : ℕ) (last_err : Option Error)
      → (send_attempts network config message left n last_err).0 ≡ none
      → SucceedsFrom n left
  unfolding send_attempts
  sent-SucceedsFrom zero n last_err h = cc
  sent-SucceedsFrom (suc left) n last_err h =
      elim (Result-cases (send_message_attempt network config n message)) [
        | inl (tt, success) ↦ at_once n left success
        | inr (e, failure) ↦
            failed-SucceedsFrom left n e failure (rw failure at h)
              (sent-SucceedsFrom left (n + 1) (some e))
      ]

  SucceedsFrom-sent :
      (left n : ℕ) (last_err : Option Error)
      → SucceedsFrom n left
      → (send_attempts network config message left n last_err).0 ≡ none
  unfolding send_attempts
  SucceedsFrom-sent zero n last_err (i, below, before, success) = absurd (omega arith)
  SucceedsFrom-sent (suc left) n last_err (zero, below, before, success) =
      let sent : send_message_attempt network config n message ≡ ok tt =
        subst (λ (k : ℕ). send_message_attempt network config k message ≡ ok tt) (omega arith)
          success in
      rw sent refl
  SucceedsFrom-sent (suc zero) n last_err (suc i, below, before, success) = absurd (omega arith)
  SucceedsFrom-sent (suc (suc left)) n last_err (suc i, below, before, success) =
      let ((e, failure), goes_on) : Passes n =
        subst Passes (omega arith) (before 0 (omega arith)) in
      let rest : SucceedsFrom (n + 1) (suc left) = (
        i,
        omega arith,
        λ j b. subst Passes (omega arith) (before (suc j) (omega arith)),
        subst (λ (k : ℕ). send_message_attempt network config k message ≡ ok tt) (omega arith)
            success,
      ) in
      rw (failure, goes_on) (SucceedsFrom-sent (suc left) (n + 1) (some e) rest)

module _ {Req Resp : Type 0} (network : Network Req Resp) (config : TelegramConfig) where
  -- SendMessage reports no error exactly if one of its attempts, of which there are as many as the
  -- configuration says and none for a negative number, succeeds, every attempt before it failed,
  -- and the context did not end in a wait before it.
  pub send_message-SucceedsFrom :
      (text : Text)
      → ((send_message network config text).0 ≡ none)
        ↔ SucceedsFrom network config
            (to_send network config text)
            1
            (pos_part config.retry_attempts)
  unfolding send_message
  send_message-SucceedsFrom text =
      let message = to_send network config text in
      let left = pos_part config.retry_attempts in
      (
        sent-SucceedsFrom network config message left 1 none,
        SucceedsFrom-sent network config message left 1 none,
      )
