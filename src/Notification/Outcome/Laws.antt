-- ===== src/Notification/Outcome/Laws.antt =====
-- When a destination is retried, given up or told to stop, whichever service answered.
use open_mcc_manager.Prelude.{ℕ, ◌≤◌, ◌≡◌, ◌↔◌, String, true, Option, none, some, List, arith}
use open_mcc_manager.Notification.Outcome.{
  Reason, DeliveryOutcome, delivered, retryable, terminal, TelegramReply, parse_retry_after,
  classify_http_status, classify_discord_reply, classify_resend_reply, classify_telegram_reply,
  classify_network_failure, classify_refusal, classify_smtp_reply,
}

-- An answer of one of the services, or a failure to get one.
pub data Answer : Type 0 where
  http : (status : ℕ) (retry_after : Option (List ℕ)) (now : ℕ) → Answer
  discord : (status : ℕ) (retry_after : Option (List ℕ)) (from_body : Option ℕ) (now : ℕ) → Answer
  resend :
      (status : ℕ) (retry_after : Option (List ℕ)) (error_name : Option String) (now : ℕ) → Answer
  telegram : (status : ℕ) (reply : Option TelegramReply) → Answer
  smtp : (code : ℕ) (reason : Reason) → Answer
  network refusal : (reason : Reason) → Answer

abbrev pub wait_of : DeliveryOutcome → ℕ
wait_of (delivered _) = 0
wait_of (retryable _ _ none _) = 0
wait_of (retryable _ _ (some seconds) _) = seconds
wait_of (terminal _ _ _ _) = 0

-- The statuses with which a destination asks to be left alone.
abbrev pub AsksToStop : Answer → Type 0
AsksToStop (http status _ _) = status ≡ 410
AsksToStop (discord status _ _ _) = status ≡ 410
AsksToStop (resend status _ _ _) = status ≡ 410
AsksToStop (telegram status none) = status ≡ 410
AsksToStop _ = ⊥

abbrev pub Stops : DeliveryOutcome → Type 0
Stops (terminal _ _ true _) = Unit
Stops _ = ⊥

module _ (date_parse : List ℕ → Option ℕ) where
  pub classify : Answer → DeliveryOutcome
  classify (http status retry_after now) = classify_http_status date_parse status retry_after now
  classify (discord status retry_after from_body now) =
      classify_discord_reply date_parse status retry_after from_body now
  classify (resend status retry_after error_name now) =
      classify_resend_reply date_parse status retry_after error_name now
  classify (telegram status reply) = classify_telegram_reply date_parse status reply
  classify (smtp code reason) = classify_smtp_reply code reason
  classify (network reason) = classify_network_failure reason
  classify (refusal reason) = classify_refusal reason

  parse_retry_after-le :
      (value : Option (List ℕ)) (now : ℕ) (seconds : ℕ)
      → parse_retry_after date_parse value now ≡ some seconds
      → seconds ≤ 3600
  unfolding parse_retry_after
  parse_retry_after-le value now seconds e = ground arith

  wait_of-classify_http :
      (status : ℕ) (retry_after : Option (List ℕ)) (now : ℕ)
      → wait_of (classify_http_status date_parse status retry_after now) ≤ 3600
  unfolding classify_http_status
  wait_of-classify_http status retry_after now = grind (arith, parse_retry_after-le)

  -- Whatever a service answers, and whatever wait it asks for, the wait that is kept is an hour at
  -- most.
  pub wait_of-classify : (a : Answer) → wait_of (classify a) ≤ 3600
  unfolding classify classify_discord_reply classify_resend_reply classify_telegram_reply
      classify_network_failure classify_refusal classify_smtp_reply
  wait_of-classify (http status retry_after now) = wait_of-classify_http status retry_after now
  wait_of-classify (discord status retry_after from_body now) =
      ground (arith, wait_of-classify_http status retry_after now)
  wait_of-classify (resend status retry_after error_name now) =
      ground (arith, wait_of-classify_http status retry_after now)
  wait_of-classify (telegram status none) = wait_of-classify_http status none 0
  wait_of-classify (telegram status (some reply)) = ground arith
  wait_of-classify (smtp code reason) = ground arith
  wait_of-classify (network reason) = ground arith
  wait_of-classify (refusal reason) = ground arith

  -- A destination is told apart as one that wants no more deliveries exactly by the status 410 of
  -- an HTTP answer: no other answer of any service turns a destination off.
  pub Stops-classify_iff : (a : Answer) → Stops (classify a) ↔ AsksToStop a
  unfolding classify classify_http_status classify_discord_reply classify_resend_reply
      classify_telegram_reply classify_network_failure classify_refusal classify_smtp_reply
  Stops-classify_iff (http status retry_after now) = ground arith
  Stops-classify_iff (discord status retry_after from_body now) = ground arith
  Stops-classify_iff (resend status retry_after error_name now) = ground arith
  Stops-classify_iff (telegram status none) = ground arith
  Stops-classify_iff (telegram status (some reply)) = ground arith
  Stops-classify_iff (smtp code reason) = ground arith
  Stops-classify_iff (network reason) = ground arith
  Stops-classify_iff (refusal reason) = ground arith
