-- ===== src/Notification/Outcome/Tests.antt =====
-- Answers to a delivery.
use open_mcc_manager.Prelude.{◌≤◌, ◌↔◌, none, some, codes}
use open_mcc_manager.Notification.Outcome.Laws.{
  Answer, http, discord, wait_of, Stops, AsksToStop, classify, wait_of-classify, Stops-classify_iff,
}

-- A busy service that asks for a wait of two hours.
abbrev busy : Answer
busy = discord 429 (some (codes " 7200")) (some 5) 0

wait_of-classify_example : wait_of (classify (λ text. none) busy) ≤ 3600
wait_of-classify_example = wait_of-classify (λ text. none) busy

abbrev gone : Answer
gone = http 410 none 0

Stops-classify_iff_example : Stops (classify (λ text. none) gone) ↔ AsksToStop gone
Stops-classify_iff_example = Stops-classify_iff (λ text. none) gone
