-- ===== src/Webhooks/Examples.antt =====
-- One subscription, one event, and instances of the theorems on deliveries.
use ledgercore.Base.{
  ℕ, ◌+◌, ◌<◌, ◌≤◌, ◌*◌, ◌++◌, ◌≡◌, refl, codes, some, none, ok, [], ◌∷◌, List, true, false, arith,
  All, take,
}
use ledgercore.Base.{to_micros, sort_by, insert_sorted, insert_missing}
use ledgercore.Webhooks.{
  ClaimedDelivery, backoff, wildcard, rotation_grace, minute, Subscription, Delivery, pending,
}
use ledgercore.Webhooks.Tables.{
  claim_of, requeue, claimed_rows, join_endpoints, mark_failed, WebhookDb, list_active,
  insert_pending, claim_due,
}
use ledgercore.Webhooks.Dispatcher.{process, record_failure, answered}
use ledgercore.Webhooks.Soundness.{IsSound}
use ledgercore.Webhooks.Lifecycle.{
  attempt, crash, retry, World, enqueue, claim, Reach, start, after_step, Reach-IsSound,
}
use ledgercore.Webhooks.Tries.{Try, ending}
use ledgercore.Webhooks.Attempts.{EndsAs, run_attempts-EndsAs}
use ledgercore.Webhooks.Fanout.{Envelope, Outside, handle, acked, Reaches, handle-Reaches}
use ledgercore.Webhooks.Subscriptions.{
  table_secrets, purge_expired_previous_secrets, rotate_secret, rotate_secret-signs,
}

abbrev endpoint : Subscription
endpoint = record {
  id = 5;
  tenant_id = 1;
  url = codes "https://a.b";
  secret = codes "old";
  event_types = wildcard ∷ [];
  active = true;
  created_at = 1;
  previous_secret = none;
  previous_secret_expires_at = none;
}

abbrev waiting : Delivery
waiting = record {
  id = 50;
  tenant_id = 1;
  subscription_id = 5;
  event_id = 7;
  event_type = codes "e";
  payload = codes "{}";
  status = pending;
  attempts = 0;
  next_attempt_at = 3;
  last_status_code = none;
  last_error = none;
  created_at = 3;
  delivered_at = none;
}

abbrev tables : WebhookDb
tables = record { subscriptions = endpoint ∷ []; deliveries = waiting ∷ [] }

abbrev refusal : Try
refusal = record { endpoint = endpoint; now = 9; sent = answered 500 }

abbrev five_refusals : List Try
five_refusals = refusal ∷ refusal ∷ refusal ∷ refusal ∷ refusal ∷ []

run_attempts-EndsAs_example : EndsAs 1 50 five_refusals tables (ending (take 5 five_refusals))
run_attempts-EndsAs_example =
    run_attempts-EndsAs 1 50 five_refusals tables waiting refl refl refl (omega arith)

abbrev event : Envelope
event = record { id = 7; tenant_id = 1; type = codes "e"; raw = codes "{}" }

abbrev first_call : Outside
first_call = record { now = 3; fresh = λ i. i + 50 }

abbrev second_call : Outside
second_call = record { now = 4; fresh = λ i. i + 90 }

abbrev no_deliveries : WebhookDb
no_deliveries = record { subscriptions = endpoint ∷ []; deliveries = [] }

handle-Reaches_example :
    let after = (handle first_call (some event) no_deliveries).1 in
    All (Reaches event after.deliveries) (list_active 1 no_deliveries)
    × (handle second_call (some event) after ≡ (acked, after))
handle-Reaches_example = handle-Reaches first_call second_call event no_deliveries refl

rotate_secret-signs_example :
    let out = rotate_secret first_call 1 5 (codes "new") tables in
    let expires = first_call.now + rotation_grace in
    (out.0 ≡ ok (codes "new", expires))
    × ((t : ℕ) → t < to_micros expires → table_secrets t 1 5 out.1 ≡ codes "new" ∷ codes "old" ∷ [])
    × ((t : ℕ) → to_micros expires ≤ t → table_secrets t 1 5 out.1 ≡ codes "new" ∷ [])
    × ((sweep t : ℕ)
        → sweep ≤ t
        → table_secrets t 1 5 (purge_expired_previous_secrets sweep out.1)
          ≡ table_secrets t 1 5 out.1)
rotate_secret-signs_example =
    rotate_secret-signs first_call 1 5 (codes "new") tables endpoint refl refl

-- The event comes in, a worker claims its delivery, and the endpoint refuses it; a worker claims the
-- delivery again and crashes; it is retried by hand.
abbrev world_0 : World
world_0 = record { db = no_deliveries; held = [] }

abbrev world_1 : World
world_1 = record {
  db = record { subscriptions = endpoint ∷ []; deliveries = insert_pending (waiting ∷ []) [] };
  held = [];
}

abbrev claimed_at : ℕ → World → World
claimed_at now w = record {
  db = (claim_due (λ i. false) 50 (2 * minute) now w.db).1;
  held = w.held ++ (claim_due (λ i. false) 50 (2 * minute) now w.db).0;
}

abbrev first_claim : ClaimedDelivery
first_claim = claim_of waiting endpoint

abbrev refused : World
refused = record { db = process 9 (answered 500) first_claim (claimed_at 9 world_1).db; held = [] }

abbrev second_claim : ClaimedDelivery
second_claim = record first_claim { attempts = 1 }

abbrev crashed : World
crashed = record (claimed_at (1 * minute + 9) refused) { held = [] }

abbrev retried : World
retried = record crashed { db = (requeue (2 * minute) 1 50 crashed.db).1 }

first_held : (claimed_at 9 world_1).held ≡ [] ++ (first_claim ∷ [])
unfolding claim_due claimed_rows sort_by insert_sorted insert_pending insert_missing join_endpoints
    to_micros
first_held = refl

second_held : (claimed_at (1 * minute + 9) refused).held ≡ [] ++ (second_claim ∷ [])
unfolding claim_due claimed_rows sort_by insert_sorted insert_pending insert_missing join_endpoints
    to_micros process record_failure mark_failed backoff
second_held = refl

reached : Reach world_0 retried
reached =
    after_step
      (after_step
        (after_step
          (after_step
            (after_step (after_step start (enqueue world_0 (waiting ∷ []) ((refl, refl), tt)))
              (claim world_1 (λ i. false) 50 (2 * minute) 9))
            (attempt (claimed_at 9 world_1) [] [] first_claim 9 (answered 500) first_held))
          (claim refused (λ i. false) 50 (2 * minute) (1 * minute + 9)))
        (crash (claimed_at (1 * minute + 9) refused) [] [] second_claim second_held))
      (retry crashed (2 * minute) 1 50)

Reach-IsSound_example : All IsSound retried.db.deliveries
Reach-IsSound_example = Reach-IsSound (endpoint ∷ []) retried reached
