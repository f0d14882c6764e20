-- ===== src/Webhooks/Attempts.antt =====
-- services/webhooks: the attempts of one delivery, until it is delivered or dead.
use ledgercore.Base.{
  ℕ, zero, suc, ◌+◌, ◌≤◌, ◌≡◌, refl, sym, ap, ◌∙◌, subst, true, false, List, [], ◌∷◌, some, find?,
  take, length, Bool-cases, inl, inr, arith,
}
use ledgercore.Webhooks.{Delivery, Status, pending, delivered, failed, dead}
use ledgercore.Webhooks.Tables.{WebhookDb, is_row, is_claimable}
use ledgercore.Webhooks.Dispatcher.{Sent}
use ledgercore.Webhooks.Tries.{
  attempt_found, Try, run_attempts, failure, outcome, found-attempt, run-closed, succeeds, ending,
  outcome-success, outcome-failure, find?-own,
}

abbrev pub EndsAs : ℕ → ℕ → List Try → WebhookDb → Status → Type 0
EndsAs tenant id ts db status =
    (d : Delivery) × (find? (is_row tenant id) (run_attempts tenant id ts db).deliveries ≡ some d)
    × (d.status ≡ status)

run_step :
    (tenant id : ℕ) (t : Try) (ts : List Try) (db : WebhookDb)
    → run_attempts tenant id (t ∷ ts) db
      ≡ run_attempts tenant id ts
          (attempt_found t.endpoint t.now t.sent (find? (is_row tenant id) db.deliveries) db)
unfolding run_attempts
run_step tenant id t ts db = refl

-- An attempt after which no claim takes the delivery settles it.
run-settled :
    (tenant id : ℕ) (t : Try) (ts : List Try) (db : WebhookDb) (d : Delivery) (status : Status)
    → find? (is_row tenant id) db.deliveries ≡ some d
    → is_claimable d.status ≡ true
    → (outcome t.now t.sent d.attempts d).status ≡ status
    → is_claimable status ≡ false
    → EndsAs tenant id (t ∷ ts) db status
run-settled tenant id t ts db d status found claimable result closed =
    let after : WebhookDb =
      attempt_found t.endpoint t.now t.sent (find? (is_row tenant id) db.deliveries) db in
    let own : is_row tenant id d ≡ true = find?-own (is_row tenant id) db.deliveries found in
    let row = found-attempt tenant id t db d found own claimable in
    let stays =
      run-closed tenant id ts after (outcome t.now t.sent d.attempts d) row
        (ap is_claimable result ∙ closed) in
    (
      outcome t.now t.sent d.attempts d,
      ap (λ (x : WebhookDb). find? (is_row tenant id) x.deliveries)
            (run_step tenant id t ts db ∙ stays)
          ∙ row,
      result,
    )

failure-last :
    (now : ℕ) (sent : Sent) (d : Delivery)
    → d.attempts ≡ 4
    → (failure now sent d.attempts d).status ≡ dead
failure-last now sent d made = ground (arith, made)

failure-more :
    (now : ℕ) (sent : Sent) (d : Delivery)
    → d.attempts + 1 ≤ 4
    → (failure now sent d.attempts d).status ≡ failed
failure-more now sent d made = ground (arith, made)

run-EndsAs :
    (tenant id k attempts : ℕ) (ts : List Try) (db : WebhookDb) (d : Delivery)
    → attempts + suc k ≡ 5
    → suc k ≤ length ts
    → find? (is_row tenant id) db.deliveries ≡ some d
    → is_claimable d.status ≡ true
    → d.attempts ≡ attempts
    → EndsAs tenant id ts db (ending (take (suc k) ts))
run-EndsAs tenant id k attempts [] db d sum enough found claimable made = absurd (omega arith)
run-EndsAs tenant id zero attempts (t ∷ ts) db d sum enough found claimable made =
    elim (Bool-cases (succeeds t)) [
      | inl success ↦ subst (EndsAs tenant id (t ∷ ts) db) (sym (rw success refl)) (
          run-settled tenant id t ts db d delivered found claimable
            (outcome-success t.now t.sent d.attempts d success) refl)
      | inr fails ↦ subst (EndsAs tenant id (t ∷ ts) db) (sym (rw fails refl)) (
          run-settled tenant id t ts db d dead found claimable
            (ap (λ (x : Delivery). x.status) (outcome-failure t.now t.sent d.attempts d fails)
              ∙ failure-last t.now t.sent d (omega arith))
            refl)
    ]
run-EndsAs tenant id (suc k) attempts (t ∷ ts) db d sum enough found claimable made =
    elim (Bool-cases (succeeds t)) [
      | inl success ↦ subst (EndsAs tenant id (t ∷ ts) db) (sym (rw success refl)) (
          run-settled tenant id t ts db d delivered found claimable
            (outcome-success t.now t.sent d.attempts d success) refl)
      | inr fails ↦
          let after : WebhookDb =
            attempt_found t.endpoint t.now t.sent (find? (is_row tenant id) db.deliveries) db in
          let own : is_row tenant id d ≡ true = find?-own (is_row tenant id) db.deliveries found in
          let e : Delivery = failure t.now t.sent d.attempts d in
          let row : find? (is_row tenant id) after.deliveries ≡ some e =
            found-attempt tenant id t db d found own claimable
            ∙ ap some (outcome-failure t.now t.sent d.attempts d fails) in
          let more : e.status ≡ failed = failure-more t.now t.sent d (omega arith) in
          let (x, kept, is) =
            run-EndsAs tenant id k (suc attempts) ts after e (omega arith) (omega arith) row
              (ap is_claimable more) (omega arith) in
          (
            x,
            ap (λ (y : WebhookDb). find? (is_row tenant id) y.deliveries)
                  (run_step tenant id t ts db)
                ∙ kept,
            is ∙ sym (rw fails refl),
          )
    ]

-- A pending delivery that has had no attempt, and then is attempted at least five times whenever a
-- claim takes it, with any outcomes and at any instants, ends: it is delivered if one of the first
-- five outcomes is a status from 200 to 299, and dead if none is.
pub run_attempts-EndsAs :
    (tenant id : ℕ) (ts : List Try) (db : WebhookDb) (d : Delivery)
    → find? (is_row tenant id) db.deliveries ≡ some d
    → d.status ≡ pending
    → d.attempts ≡ 0
    → 5 ≤ length ts
    → EndsAs tenant id ts db (ending (take 5 ts))
run_attempts-EndsAs tenant id ts db d found is_pending made enough =
    run-EndsAs tenant id 4 0 ts db d (omega arith) enough found (ap is_claimable is_pending) made
