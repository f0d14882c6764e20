-- ===== src/Webhooks/Tries.antt =====
-- services/webhooks: a series of attempts on one delivery, and what each does to its row.
use ledgercore.Base.{
  ℕ, ◌+◌, ◌≡◌, refl, sym, ap, ◌∙◌, subst, Bool, true, false, List, [], ◌∷◌, map, Option, none, some,
  any, find?, if◌then◌else◌, Bool-cases, inl, inr, arith,
}
use ledgercore.Webhooks.{
  Subscription, Delivery, ClaimedDelivery, Status, delivered, dead, is_dead, backoff,
}
use ledgercore.Webhooks.Tables.{
  WebhookDb, is_row, update_delivery, as_delivered, as_failed, mark_delivered, mark_failed,
  is_claimable, claim_of,
}
use ledgercore.Webhooks.Dispatcher.{
  Sent, answered, broken, is_success, code_of, error_text, record_failure, process,
}

-- An attempt on a delivery, with the endpoint of its subscription, if a claim takes the delivery.
abbrev pub attempt_found : Subscription → ℕ → Sent → Option Delivery → WebhookDb → WebhookDb
attempt_found s now sent none db = db
attempt_found s now sent (some d) db =
    if is_claimable d.status then process now sent (claim_of d s) db else db

pub record Try : Type 0 where
  pub endpoint : Subscription
  pub now : ℕ
  pub sent : Sent

unfoldable pub run_attempts : ℕ → ℕ → List Try → WebhookDb → WebhookDb
run_attempts tenant id [] db = db
run_attempts tenant id (t ∷ ts) db =
    run_attempts tenant id ts
      (attempt_found t.endpoint t.now t.sent (find? (is_row tenant id) db.deliveries) db)

-- What an attempt does to a row.
abbrev pub failure : ℕ → Sent → ℕ → Delivery → Delivery
failure now sent attempts d =
    let is_over = is_dead (attempts + 1) in
    as_failed (attempts + 1) (code_of sent) (error_text sent)
      (if is_over then now else now + backoff (attempts + 1)) is_over d

abbrev pub outcome : ℕ → Sent → ℕ → Delivery → Delivery
outcome now (broken message) attempts d = failure now (broken message) attempts d
outcome now (answered code) attempts d =
    if is_success (answered code)
    then as_delivered now code d
    else failure now (answered code) attempts d

process-outcome :
    (now : ℕ) (sent : Sent) (c : ClaimedDelivery) (db : WebhookDb)
    → process now sent c db ≡ update_delivery c.tenant_id c.id (outcome now sent c.attempts) db
unfolding process record_failure mark_delivered mark_failed
process-outcome now (broken message) c db = refl
process-outcome now (answered code) c db = elim (Bool-cases (is_success (answered code))) [
  | inl e ↦ rw e refl
  | inr e ↦ rw e refl
]

abbrev map_option : (Delivery → Delivery) → Option Delivery → Option Delivery
map_option f none = none
map_option f (some d) = some (f d)

find?-update :
    (tenant id : ℕ) (f : Delivery → Delivery) (rows : List Delivery)
    → ((d : Delivery) → is_row tenant id (f d) ≡ is_row tenant id d)
    → find? (is_row tenant id) (map (λ (d : Delivery). if is_row tenant id d then f d else d) rows)
      ≡ map_option f (find? (is_row tenant id) rows)
find?-update tenant id f [] keeps = refl
find?-update tenant id f (d ∷ rows) keeps = elim (Bool-cases (is_row tenant id d)) [
  | inl e ↦ rw e (rw (keeps d ∙ e) refl)
  | inr e ↦ rw (e, e) (find?-update tenant id f rows keeps)
]

outcome-row :
    (tenant id now : ℕ) (sent : Sent) (attempts : ℕ) (d : Delivery)
    → is_row tenant id (outcome now sent attempts d) ≡ is_row tenant id d
outcome-row tenant id now (broken message) attempts d = refl
outcome-row tenant id now (answered code) attempts d =
    elim (Bool-cases (is_success (answered code))) [ inl e ↦ rw e refl | inr e ↦ rw e refl ]

-- The row after an attempt on it.
pub found-attempt :
    (tenant id : ℕ) (t : Try) (db : WebhookDb) (d : Delivery)
    → find? (is_row tenant id) db.deliveries ≡ some d
    → is_row tenant id d ≡ true
    → is_claimable d.status ≡ true
    → find?
        (is_row tenant id)
        (attempt_found t.endpoint t.now t.sent
          (find? (is_row tenant id) db.deliveries)
          db).deliveries
      ≡ some (outcome t.now t.sent d.attempts d)
found-attempt tenant id t db d found own claimable =
    let same_id : d.id ≡ id = ground (arith, own) in
    let same_tenant : d.tenant_id ≡ tenant = ground (arith, own) in
    let f : Delivery → Delivery = outcome t.now t.sent d.attempts in
    rw (found, claimable, process-outcome t.now t.sent (claim_of d t.endpoint) db)
      (subst
        (λ k.
          find? (is_row tenant id)
            (map (λ (x : Delivery). if is_row d.tenant_id k x then f x else x) db.deliveries)
          ≡ some (f d))
        (sym same_id)
        (subst
          (λ k.
            find? (is_row tenant id)
              (map (λ (x : Delivery). if is_row k id x then f x else x) db.deliveries)
            ≡ some (f d))
          (sym same_tenant)
          (find?-update tenant id f db.deliveries (outcome-row tenant id t.now t.sent d.attempts)
            ∙ ap (map_option f) found)))

-- A delivery that no claim takes stays.
pub run-closed :
    (tenant id : ℕ) (ts : List Try) (db : WebhookDb) (d : Delivery)
    → find? (is_row tenant id) db.deliveries ≡ some d
    → is_claimable d.status ≡ false
    → run_attempts tenant id ts db ≡ db
unfolding run_attempts
run-closed tenant id [] db d found closed = refl
run-closed tenant id (t ∷ ts) db d found closed =
    rw (found, closed) (run-closed tenant id ts db d found closed)

abbrev pub succeeds : Try → Bool
succeeds t = is_success t.sent

-- Delivered where one of the attempts succeeds, and dead otherwise.
abbrev pub ending : List Try → Status
ending ts = if any succeeds ts then delivered else dead

pub outcome-success :
    (now : ℕ) (sent : Sent) (attempts : ℕ) (d : Delivery)
    → is_success sent ≡ true
    → (outcome now sent attempts d).status ≡ delivered
outcome-success now (broken message) attempts d h = cc
outcome-success now (answered code) attempts d h = rw h refl

pub outcome-failure :
    (now : ℕ) (sent : Sent) (attempts : ℕ) (d : Delivery)
    → is_success sent ≡ false
    → outcome now sent attempts d ≡ failure now sent attempts d
outcome-failure now (broken message) attempts d h = refl
outcome-failure now (answered code) attempts d h = rw h refl

pub find?-own :
    (p : Delivery → Bool) (rows : List Delivery) {d : Delivery} → find? p rows ≡ some d → p d ≡ true
find?-own p [] found = cc
find?-own p (x ∷ rows) {d} found = elim (Bool-cases (p x)) [
  | inl e ↦ let same : x ≡ d = ground arith in ap p (sym same) ∙ e
  | inr e ↦ find?-own p rows {d = d} (ground arith)
]
