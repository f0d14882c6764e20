-- ===== src/Webhooks/Tables.antt =====
-- services/webhooks/internal/adapters/postgres: the tables of the service, of all tenants, and the
-- statements on them. Secrets are stored as they are, as in a service without a master key.
use ledgercore.Base.{
  to_micros, ℕ, ◌+◌, ◌==◌, Bool, true, false, not, ◌&&◌, ◌||◌, List, [], ◌∷◌, map, Option, none,
  some, Text, ltb, leb, any, find?, select, take, Result, ok, err, if◌then◌else◌, sort_by,
  insert_missing,
}
use ledgercore.Webhooks.{
  Subscription, Delivery, ClaimedDelivery, Status, pending, delivered, failed, dead,
}

-- domain.ErrNotFound, domain.ErrConflict and a validation error.
pub data WebhookError : Type 0 where
  not_found conflict invalid : WebhookError

pub record WebhookDb : Type 0 where
  pub subscriptions : List Subscription
  pub deliveries : List Delivery

-- ORDER BY created_at, id.
abbrev pub subscription_before : Subscription → Subscription → Bool
subscription_before x y =
    ltb x.created_at y.created_at || (x.created_at == y.created_at && ltb x.id y.id)

-- ListActive
unfoldable pub list_active : ℕ → WebhookDb → List Subscription
list_active tenant db =
    sort_by subscription_before
      (select (λ (s : Subscription). s.tenant_id == tenant && s.active) db.subscriptions)

abbrev pub same_key : Delivery → Delivery → Bool
same_key e d = d.subscription_id == e.subscription_id && d.event_id == e.event_id

-- A row as the table keeps it.
abbrev pub delivery_row : Delivery → Delivery
delivery_row d = record d {
  next_attempt_at = to_micros d.next_attempt_at;
  created_at = to_micros d.created_at;
}

-- InsertPending: a delivery of a subscription and an event that have one is left out.
unfoldable pub insert_pending : List Delivery → List Delivery → List Delivery
insert_pending ds rows = insert_missing same_key (map delivery_row ds) rows

-- UPDATE deliveries ... WHERE id = $n AND tenant_id = $m.
abbrev pub is_row : ℕ → ℕ → Delivery → Bool
is_row tenant id d = d.id == id && d.tenant_id == tenant

abbrev pub update_delivery : ℕ → ℕ → (Delivery → Delivery) → WebhookDb → WebhookDb
update_delivery tenant id f db = record db {
  deliveries = map (λ (d : Delivery). if is_row tenant id d then f d else d) db.deliveries;
}

-- MarkDelivered
abbrev pub as_delivered : ℕ → ℕ → Delivery → Delivery
as_delivered now code d = record d {
  status = delivered;
  delivered_at = some now;
  last_status_code = some code;
  last_error = none;
}

unfoldable pub mark_delivered : ℕ → ℕ → ℕ → ℕ → WebhookDb → WebhookDb
mark_delivered now tenant id code = update_delivery tenant id (as_delivered now code)

-- MarkFailed
abbrev pub as_failed : ℕ → Option ℕ → Text → ℕ → Bool → Delivery → Delivery
as_failed attempts code error next is_over d = record d {
  status = if is_over then dead else failed;
  attempts = attempts;
  last_status_code = code;
  last_error = some error;
  next_attempt_at = to_micros next;
}

unfoldable pub mark_failed : ℕ → ℕ → ℕ → Option ℕ → Text → ℕ → Bool → WebhookDb → WebhookDb
mark_failed tenant id attempts code error next is_over =
    update_delivery tenant id (as_failed attempts code error next is_over)

-- Requeue
abbrev pub is_retryable : Status → Bool
is_retryable pending = false
is_retryable delivered = false
is_retryable failed = true
is_retryable dead = true

abbrev pub requeued : ℕ → Delivery → Delivery
requeued now d = record d { status = pending; attempts = 0; next_attempt_at = now }

abbrev pub requeue_row :
    ℕ → ℕ → ℕ → Option Delivery → WebhookDb → Result WebhookError Delivery × WebhookDb
requeue_row now tenant id none db = (err not_found, db)
requeue_row now tenant id (some d) db =
    if is_retryable d.status
    then (ok (requeued now d), update_delivery tenant id (requeued now) db)
    else (err conflict, db)

unfoldable pub requeue : ℕ → ℕ → ℕ → WebhookDb → Result WebhookError Delivery × WebhookDb
requeue now tenant id db = requeue_row now tenant id (find? (is_row tenant id) db.deliveries) db

-- claim_due_deliveries, in migration 0004: the deliveries that are due, the earliest first.
abbrev pub is_claimable : Status → Bool
is_claimable pending = true
is_claimable delivered = false
is_claimable failed = true
is_claimable dead = false

abbrev pub subscription_of : Delivery → List Subscription → Option Subscription
subscription_of d = find? (λ (s : Subscription). s.id == d.subscription_id)

abbrev pub is_active_of : Option Subscription → Bool
is_active_of none = false
is_active_of (some s) = s.active

abbrev pub is_due : ℕ → WebhookDb → Delivery → Bool
is_due now db d =
    is_claimable d.status
    && leb d.next_attempt_at now
    && is_active_of (subscription_of d db.subscriptions)

abbrev pub due_before : Delivery → Delivery → Bool
due_before x y = ltb x.next_attempt_at y.next_attempt_at

abbrev pub created_before : Delivery → Delivery → Bool
created_before x y = ltb x.created_at y.created_at

-- A delivery joined with its endpoint.
abbrev pub claim_of : Delivery → Subscription → ClaimedDelivery
claim_of d s = record {
  id = d.id;
  tenant_id = d.tenant_id;
  subscription_id = d.subscription_id;
  event_id = d.event_id;
  event_type = d.event_type;
  payload = d.payload;
  attempts = d.attempts;
  url = s.url;
  secret = s.secret;
  previous_secret = s.previous_secret;
  previous_secret_expires_at = s.previous_secret_expires_at;
}

abbrev pub join_endpoint :
    Option Subscription → Delivery → List ClaimedDelivery → List ClaimedDelivery
join_endpoint none d rest = rest
join_endpoint (some s) d rest = claim_of d s ∷ rest

unfoldable pub join_endpoints : List Subscription → List Delivery → List ClaimedDelivery
join_endpoints subs [] = []
join_endpoints subs (d ∷ ds) = join_endpoint (subscription_of d subs) d (join_endpoints subs ds)

-- The deliveries that a claim takes. `locked` tells the rows that another claim holds at that
-- moment, which are skipped.
unfoldable pub claimed_rows : (ℕ → Bool) → ℕ → ℕ → WebhookDb → List Delivery
claimed_rows locked limit now db = take limit (
    sort_by due_before
      (select (λ (d : Delivery). is_due now db d && not (locked d.id)) db.deliveries))

abbrev pub is_among : List Delivery → Delivery → Bool
is_among ds d = any (λ (x : Delivery). x.id == d.id) ds

-- ClaimDue: the rows are leased, and returned with their endpoints.
unfoldable pub claim_due : (ℕ → Bool) → ℕ → ℕ → ℕ → WebhookDb → List ClaimedDelivery × WebhookDb
claim_due locked limit lease now db =
    let rows = claimed_rows locked limit now db in
    (
      join_endpoints db.subscriptions (sort_by created_before rows),
      record db {
        deliveries =
            map
              (λ (d : Delivery).
                if is_among rows d then record d { next_attempt_at = now + lease } else d)
              db.deliveries;
      },
    )
