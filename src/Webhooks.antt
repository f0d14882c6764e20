-- ===== src/Webhooks.antt =====
-- services/webhooks/internal/domain/domain.go: subscriptions, deliveries, event types and the policy of
-- retries. Identifiers and instants are numbers, 0 stands for the nil uuid, and an instant and a
-- duration count nanoseconds.
pub mod Tables
pub mod Dispatcher
pub mod Soundness
pub mod Lifecycle
pub mod Tries
pub mod Attempts
pub mod Fanout
pub mod Subscriptions
mod Examples
use ledgercore.Base.{
  ℕ, zero, suc, ◌+◌, ◌-◌, ◌*◌, ◌==◌, ◌≡◌, Bool, true, false, not, ◌&&◌, ◌||◌, List, [], ◌∷◌, ◌++◌,
  Option, none, some, Text, codes, text_eq, ltb, leb, any, all, length, if◌then◌else◌,
}

-- Wildcard
abbrev pub wildcard : Text
wildcard = codes "*"

-- KnownEventTypes
abbrev pub known_event_types : List Text
known_event_types =
    codes "ledger.transaction.posted"
    ∷ codes "ledger.transaction.reversed"
    ∷ codes "ledger.hold.created"
    ∷ codes "ledger.hold.captured"
    ∷ codes "ledger.hold.released"
    ∷ codes "recon.discrepancy.detected"
    ∷ []

-- Matches
unfoldable pub matches : List Text → Text → Bool
matches types type = any (λ t. text_eq t wildcard || text_eq t type) types

-- ValidateEventTypes: whether it returns no error.
unfoldable pub validate_event_types : List Text → Bool
validate_event_types types =
    not (length types == 0)
    && all (λ t. text_eq t wildcard || any (text_eq t) known_event_types) types

-- NormalizeEventTypes
unfoldable pub normalize_from : List Text → List Text → List Text
normalize_from seen [] = []
normalize_from seen (t ∷ ts) =
    let skip = normalize_from seen ts in
    let keep = normalize_from (t ∷ seen) ts in if any (text_eq t) seen then skip else t ∷ keep

unfoldable pub normalize_event_types : List Text → List Text
normalize_event_types types = normalize_from [] types

-- RotationGrace: 24 hours.
abbrev pub minute : ℕ
minute = 60_000_000_000

abbrev pub rotation_grace : ℕ
rotation_grace = 1440 * minute

-- MaxAttempts
abbrev pub max_attempts : ℕ
max_attempts = 5

-- backoffSchedule
abbrev pub backoff_schedule : List ℕ
backoff_schedule = 1 * minute ∷ 5 * minute ∷ 30 * minute ∷ 120 * minute ∷ 720 * minute ∷ []

abbrev pub wait_at : List ℕ → ℕ → ℕ
wait_at [] i = 0
wait_at (w ∷ ws) zero = w
wait_at (w ∷ ws) (suc i) = wait_at ws i

-- Backoff: an attempt out of range is clamped to the schedule.
unfoldable pub backoff : ℕ → ℕ
backoff attempts =
    let low = if ltb attempts 1 then 1 else attempts in
    let clamped = if ltb (length backoff_schedule) low then length backoff_schedule else low in
    wait_at backoff_schedule (clamped - 1)

-- IsDead
abbrev pub is_dead : ℕ → Bool
is_dead attempts = leb max_attempts attempts

pub data Status : Type 0 where
  pending delivered failed dead : Status

pub record Subscription : Type 0 where
  pub id : ℕ
  pub tenant_id : ℕ
  pub url : Text
  pub secret : Text
  pub event_types : List Text
  pub active : Bool
  pub created_at : ℕ
  pub previous_secret : Option Text
  pub previous_secret_expires_at : Option ℕ

pub record Delivery : Type 0 where
  pub id : ℕ
  pub tenant_id : ℕ
  pub subscription_id : ℕ
  pub event_id : ℕ
  pub event_type : Text
  pub payload : Text
  pub status : Status
  pub attempts : ℕ
  pub next_attempt_at : ℕ
  pub last_status_code : Option ℕ
  pub last_error : Option Text
  pub created_at : ℕ
  pub delivered_at : Option ℕ

pub record ClaimedDelivery : Type 0 where
  pub id : ℕ
  pub tenant_id : ℕ
  pub subscription_id : ℕ
  pub event_id : ℕ
  pub event_type : Text
  pub payload : Text
  pub attempts : ℕ
  pub url : Text
  pub secret : Text
  pub previous_secret : Option Text
  pub previous_secret_expires_at : Option ℕ

-- signingSecrets: the current secret, and the previous one while its grace lasts.
unfoldable pub signing_secrets : Text → Option Text → Option ℕ → ℕ → List Text
signing_secrets secret none expires now = secret ∷ []
signing_secrets secret (some prev) none now = secret ∷ []
signing_secrets secret (some prev) (some expires) now =
    secret ∷ (if not (length prev == 0) && ltb now expires then prev ∷ [] else [])
