-- ===== src/Notifier/Telegram.antt =====
-- internal/infra/telegram: the client with its attempts, and when the notifier uses it. The texts of
-- the messages are given. What the network and JSON answer may differ at each attempt, and the
-- context may end during any wait: both are parameters.
pub mod Attempts
use mathlib.Core.Path.{subst}
use pvz_service.Base.{
  ℕ, zero, suc, ◌+◌, ◌*◌, Bool, true, false, not, ◌&&◌, Option, none, some, List, [], ◌∷◌, ◌++◌,
  if◌then◌else◌, ℤ, pos_part, pos, negsuc,
}
use pvz_service.Base.Text.{Text, codes, text_eq}
use pvz_service.Domain.Error.{Error, plain, wrap}
use pvz_service.Domain.Platform.{second}
use pvz_service.Db.World.{Result, Result-cases, err, ok}

-- `TelegramConfig`, without the timeout, which is the HTTP client's.
pub record TelegramConfig : Type 0 where
  pub bot_token : Text
  pub chat_id : ℤ
  pub enabled : Bool
  pub retry_attempts : ℤ

pub record TelegramResponse : Type 0 where
  pub is_ok : Bool
  pub description : Text
  pub error_code : ℤ

pub record SendMessageRequest : Type 0 where
  pub chat_id : ℤ
  pub text : Text
  pub parse_mode : Text

-- The calls of one attempt, by its number: `json.Marshal`, `http.NewRequestWithContext`,
-- `http.Client.Do`, `io.ReadAll` and `json.Unmarshal`; `ctx.Err()` if the context ends in the wait
-- that follows; `%d` of an int.
pub record Network (Req Resp : Type 0) : Type 0 where
  pub marshal : ℕ → SendMessageRequest → Result Text
  pub new_request : ℕ → Text → Text → Result Req
  pub do_request : ℕ → Req → Result Resp
  pub read_all : ℕ → Resp → Result Text
  pub unmarshal : ℕ → Text → Result TelegramResponse
  pub interrupted : ℕ → Option Error
  pub int_text : ℤ → Text

-- What `SendMessage` does: an attempt, or the start of a wait of so many nanoseconds.
pub data Step : Type 0 where
  attempted : ℕ → Step
  waits : ℕ → Step

abbrev then_do : {A B : Type 0} → Text → Result A → (A → Result B) → Result B
then_do label (ok a) f = f a
then_do label (err e) f = err (wrap label e)

abbrev is_zero : ℤ → Bool
is_zero (pos zero) = true
is_zero (pos (suc n)) = false
is_zero (negsuc n) = false

-- `t.config.Enabled && t.config.ChatID != 0 && t.config.BotToken != ""`
unfoldable pub is_enabled : TelegramConfig → Bool
is_enabled config =
    config.enabled && (not (is_zero config.chat_id) && not (text_eq config.bot_token []))

module _ {Req Resp : Type 0} (network : Network Req Resp) (config : TelegramConfig) where
  abbrev api_url : Text
  api_url = codes "https://api.telegram.org/bot" ++ config.bot_token

  abbrev telegram_answer : TelegramResponse → Result (Unit {0})
  telegram_answer response =
      if response.is_ok
      then ok tt
      else err (
          plain (
            codes "telegram API error "
            ++ (network.int_text response.error_code ++ (codes ": " ++ response.description))))

  unfoldable pub send_message_attempt : ℕ → SendMessageRequest → Result (Unit {0})
  send_message_attempt n message =
      then_do (codes "marshal request") (network.marshal n message) λ json_data.
        then_do (codes "create request")
          (network.new_request n (api_url ++ codes "/sendMessage") json_data)
          λ req. then_do (codes "send request") (network.do_request n req) λ resp.
            then_do (codes "read response") (network.read_all n resp) λ body.
              then_do (codes "unmarshal response") (network.unmarshal n body) telegram_answer

  abbrev pub to_send : Text → SendMessageRequest
  to_send text = record { chat_id = config.chat_id; text = text; parse_mode = codes "HTML" }

  abbrev failed_after : Text → Text
  failed_after attempts =
      codes "failed to send telegram message after " ++ (attempts ++ codes " attempts")

  -- The error after the loop; `lastErr` is nil if there was no attempt.
  abbrev pub all_failed : Option Error → Error
  all_failed (some e) = wrap (failed_after (network.int_text config.retry_attempts)) e
  all_failed none =
      plain (failed_after (network.int_text config.retry_attempts) ++ codes ": %!w(<nil>)")

  abbrev pub after_wait : ℕ → Option Error → Option Error × List Step → Option Error × List Step
  after_wait attempt (some context_error) (r, done_later) =
      (some context_error, attempted attempt ∷ waits (attempt * second) ∷ [])
  after_wait attempt none (r, done_later) =
      (r, attempted attempt ∷ waits (attempt * second) ∷ done_later)

  -- What follows an attempt; `rest` goes on with the error of it.
  abbrev pub after_attempt :
      ℕ
      → ℕ
      → Result (Unit {0})
      → (Option Error → Option Error × List Step)
      → Option Error × List Step
  after_attempt left attempt (ok _) rest = (none, attempted attempt ∷ [])
  after_attempt zero attempt (err e) rest =
      let (r, done_later) = rest (some e) in (r, attempted attempt ∷ done_later)
  after_attempt (suc left) attempt (err e) rest =
      after_wait attempt (network.interrupted attempt) (rest (some e))

  -- The loop of `SendMessage`, with the attempts that are left, the number of the next one, and
  -- `lastErr`.
  unfoldable pub send_attempts :
      SendMessageRequest → ℕ → ℕ → Option Error → Option Error × List Step
  unfolding send_message_attempt
  send_attempts message zero attempt last_err = (some (all_failed last_err), [])
  send_attempts message (suc left) attempt last_err =
      after_attempt left attempt (send_message_attempt attempt message)
        (send_attempts message left (attempt + 1))

  unfoldable pub send_message : Text → Option Error × List Step
  unfolding send_attempts
  send_message text = send_attempts (to_send text) (pos_part config.retry_attempts) 1 none

  abbrev labelled : Text → Option Error × List Step → Option Error × List Step
  labelled label (none, taken) = (none, taken)
  labelled label (some e, taken) = (some (wrap label e), taken)

  unfoldable pub notify : Text → Text → Option Error × List Step
  unfolding is_enabled send_message
  notify label message =
      if is_enabled config then labelled label (send_message message) else (none, [])

  -- `NotifyEvent`, `NotifyStatistics` and `NotifyError`, on the text that they format.
  unfoldable pub notify_event : Text → Option Error × List Step
  unfolding notify
  notify_event message = notify (codes "send telegram notification") message

  unfoldable pub notify_statistics : Text → Option Error × List Step
  unfolding notify
  notify_statistics message = notify (codes "send telegram statistics") message

  unfoldable pub notify_error : Text → Option Error × List Step
  unfolding notify
  notify_error message = notify (codes "send telegram error") message
