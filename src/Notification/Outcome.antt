-- ===== src/Notification/Outcome.antt =====
-- packages/core/src/notification/outcome.ts: what the answer to a delivery means.
-- A status is a number, a body stands for what its parser (contracts/src/boundary) read from it.
pub mod Laws
mod Tests
use open_mcc_manager.Prelude.{
  ℕ, ◌+◌, ◌-◌, ◌*◌, ◌/◌, String, Bool, true, false, ◌&&◌, ◌||◌, Option, none, some, List, [], ◌∷◌,
  min, max, leb, ltb, ◌==◌, every, is_digit, decimal, trim, str_eq, get_or_else, if◌then◌else◌,
}

-- A text, with the number that its template ends in.
pub data Reason : Type 0 where
  text : String → Reason
  numbered : String → ℕ → Reason

pub data DeliveryOutcome : Type 0 where
  delivered : (status_code : Option ℕ) → DeliveryOutcome
  retryable :
      (status_code : Option ℕ) (reason : Reason) (retry_after_seconds : Option ℕ)
      (detail : Option String)
      → DeliveryOutcome
  terminal :
      (status_code : Option ℕ) (reason : Reason) (stop_sending : Bool) (detail : Option String)
      → DeliveryOutcome

abbrev pub max_retry_after_seconds : ℕ
max_retry_after_seconds = 60 * 60

-- `RETRYABLE_STATUS.has`
is_retryable_status : ℕ → Bool
is_retryable_status status =
    status == 408
    || status == 425
    || status == 429
    || status == 500
    || status == 502
    || status == 503
    || status == 504

-- The last lines of `parseRetryAfter`, at a date that was read: `Math.ceil((at - now) / 1000)`,
-- and 0 for a date that is not in the future.
until_date : ℕ → ℕ → ℕ
until_date at now = if leb at now then 0 else min ((at - now + 999) / 1000) max_retry_after_seconds

-- `Math.min(asked, MAX_RETRY_AFTER_SECONDS)`, where something was asked.
abbrev capped : Option ℕ → Option ℕ
capped none = none
capped (some asked) = some (min asked max_retry_after_seconds)

-- The longer of the waits that the header and the body ask for.
longest_asked : Option ℕ → Option ℕ → Option ℕ
longest_asked none none = none
longest_asked none (some b) = some b
longest_asked (some a) none = some a
longest_asked (some a) (some b) = some (max a b)

-- `RESEND_QUOTA_SPENT.has`
is_quota_spent : String → Bool
is_quota_spent name = str_eq name "daily_quota_exceeded" || str_eq name "monthly_quota_exceeded"

-- `TelegramReply` of packages/contracts/src/boundary/telegram.ts
pub record TelegramReply : Type 0 where
  pub ok : Bool
  pub error_code : Option ℕ
  pub description : Option String
  pub retry_after_seconds : Option ℕ

-- `TELEGRAM_REASONS[code] ?? …`
telegram_reason : ℕ → Reason
telegram_reason code =
    if code == 400
    then text "Telegram refused the message; check the chat ID"
    else if code == 401
    then text "Telegram did not accept the bot token"
    else if code == 403
    then text "The bot may not post in that chat"
    else if code == 404
    then text "Telegram did not accept the bot token"
    else if code == 429
    then text "Telegram asked us to slow down"
    else numbered "Telegram refused with " code

-- `TELEGRAM_TERMINAL.has`
is_telegram_terminal : ℕ → Bool
is_telegram_terminal code = code == 400 || code == 401 || code == 403 || code == 404

-- A refusal by Telegram, with its code.
telegram_answer : TelegramReply → ℕ → DeliveryOutcome
unfolding telegram_reason is_telegram_terminal
telegram_answer reply code =
    let reason = telegram_reason code in
    let retry_after = capped reply.retry_after_seconds in
    if code == 429
    then retryable (some code) reason retry_after reply.description
    else if is_telegram_terminal code
    then terminal (some code) reason false reply.description
    else retryable (some code) reason retry_after reply.description

-- `date_parse` is `Date.parse`, on the trimmed text.
module _ (date_parse : List ℕ → Option ℕ) where
  unfoldable pub parse_retry_after : Option (List ℕ) → ℕ → Option ℕ
  unfolding until_date
  parse_retry_after none now = none
  parse_retry_after (some value) now = elim (trim value) [
    | [] ↦ none
    | c ∷ cs ↦
        if every is_digit (c ∷ cs)
        then some (min (decimal 0 (c ∷ cs)) max_retry_after_seconds)
        else elim (date_parse (c ∷ cs)) [ none ↦ none | some at ↦ some (until_date at now) ]
  ]

  unfoldable pub classify_http_status : ℕ → Option (List ℕ) → ℕ → DeliveryOutcome
  unfolding is_retryable_status
  classify_http_status status retry_after now =
      if leb 200 status && ltb status 300
      then delivered (some status)
      else if status == 410
      then terminal (some status) (text "This destination asked us to stop sending") true none
      else if is_retryable_status status || leb 500 status
      then retryable (some status) (numbered "Server answered " status)
          (parse_retry_after retry_after now) none
      else terminal (some status) (numbered "Server refused with " status) false none

  -- `from_body` is what `parseDiscordRetryAfter` read.
  unfoldable pub classify_discord_reply : ℕ → Option (List ℕ) → Option ℕ → ℕ → DeliveryOutcome
  unfolding longest_asked
  classify_discord_reply status retry_after from_body now =
      if status == 429
      then retryable (some status) (numbered "Server answered " status)
          (capped (longest_asked (parse_retry_after retry_after now) from_body)) none
      else classify_http_status status retry_after now

  -- `error_name` is what `parseResendErrorName` read.
  unfoldable pub classify_resend_reply : ℕ → Option (List ℕ) → Option String → ℕ → DeliveryOutcome
  unfolding is_quota_spent
  classify_resend_reply status retry_after error_name now =
      if status == 429 && is_quota_spent (get_or_else error_name "")
      then terminal (some status) (text "The email service has used up its sending quota") false
          none
      else classify_http_status status retry_after now

  unfoldable pub classify_telegram_reply : ℕ → Option TelegramReply → DeliveryOutcome
  unfolding telegram_answer
  classify_telegram_reply http_status none = classify_http_status http_status none 0
  classify_telegram_reply http_status (some reply) =
      if reply.ok
      then delivered (some http_status)
      else telegram_answer reply (get_or_else reply.error_code http_status)

unfoldable pub classify_network_failure : Reason → DeliveryOutcome
classify_network_failure reason = retryable none reason none none

unfoldable pub classify_refusal : Reason → DeliveryOutcome
classify_refusal reason = terminal none reason false none

unfoldable pub classify_smtp_reply : ℕ → Reason → DeliveryOutcome
classify_smtp_reply code reason =
    if leb 200 code && ltb code 400
    then delivered (some code)
    else if leb 400 code && ltb code 500
    then retryable (some code) reason none none
    else terminal (some code) reason false none
