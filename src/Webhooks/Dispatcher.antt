-- ===== src/Webhooks/Dispatcher.antt =====
-- services/webhooks/internal/dispatcher/dispatcher.go: one attempt of a claimed delivery. What the
-- POST brought is an argument.
use ledgercore.Base.{
  ℕ, ◌+◌, Bool, false, ◌&&◌, Option, none, some, Text, codes, ◌++◌, ltb, leb, take, if◌then◌else◌,
}
use ledgercore.Money.Decimal.{decimal}
use ledgercore.Webhooks.{ClaimedDelivery, backoff, is_dead}
use ledgercore.Webhooks.Tables.{WebhookDb, mark_delivered, mark_failed}

-- What Send returns: a status code, or an error with its message.
pub data Sent : Type 0 where
  answered : ℕ → Sent
  broken : Text → Sent

abbrev pub is_success : Sent → Bool
is_success (answered code) = leb 200 code && ltb code 300
is_success (broken message) = false

abbrev pub code_of : Sent → Option ℕ
code_of (answered code) = some code
code_of (broken message) = none

-- maxErrorLen
abbrev pub error_text : Sent → Text
error_text (answered code) = codes "endpoint returned status " ++ decimal code
error_text (broken message) = take 500 message

-- The branch of a failed attempt.
unfoldable pub record_failure : ℕ → Sent → ClaimedDelivery → WebhookDb → WebhookDb
record_failure now sent c db =
    let attempts = c.attempts + 1 in
    let is_over = is_dead attempts in
    mark_failed c.tenant_id c.id attempts (code_of sent) (error_text sent)
      (if is_over then now else now + backoff attempts) is_over db

-- process
unfoldable pub process : ℕ → Sent → ClaimedDelivery → WebhookDb → WebhookDb
process now (broken message) c db = record_failure now (broken message) c db
process now (answered code) c db =
    if is_success (answered code)
    then mark_delivered now c.tenant_id c.id code db
    else record_failure now (answered code) c db
