-- ===== src/Webhooks/Soundness.antt =====
-- services/webhooks: what the attempts column says of a status, and that the statements keep it.
use ledgercore.Base.{
  insert_missing, ℕ, zero, suc, ◌+◌, ◌≤◌, ◌≡◌, refl, Bool, true, not, ◌&&◌, List, [], ◌∷◌, ◌++◌,
  map, Option, none, some, Text, any, find?, select, take, if◌then◌else◌, sort_by-perm, All,
  All-append, All-perm, Bool-cases, inl, inr, arith,
}
use ledgercore.Webhooks.{
  Subscription, Delivery, ClaimedDelivery, Status, pending, delivered, failed, dead, is_dead,
  backoff,
}
use ledgercore.Webhooks.Tables.{
  WebhookDb, insert_pending, same_key, delivery_row, is_row, as_delivered, as_failed,
  mark_delivered, mark_failed, is_retryable, requeued, requeue_row, requeue, is_claimable, is_due,
  subscription_of, join_endpoint, join_endpoints, claimed_rows, due_before, created_before,
  is_among, claim_due,
}
use ledgercore.Webhooks.Dispatcher.{
  Sent, answered, broken, is_success, error_text, record_failure, process,
}

-- The values of the attempts column that a status admits.
abbrev pub Admits : Status → ℕ → Type 0
Admits pending n = n ≡ 0
Admits failed n = (1 ≤ n) × (n ≤ 4)
Admits dead n = n ≡ 5
Admits delivered n = n ≤ 5

abbrev pub IsSound : Delivery → Type 0
IsSound d = Admits d.status d.attempts

abbrev pub IsOpen : ClaimedDelivery → Type 0
IsOpen c = c.attempts ≤ 4

-- Rows as the service creates them.
abbrev pub IsNew : Delivery → Type 0
IsNew d = (d.status ≡ pending) × (d.attempts ≡ 0)

inserted :
    (ds rows : List Delivery)
    → All IsNew ds
    → All IsSound rows
    → All IsSound (insert_missing same_key ds rows)
unfolding insert_missing
inserted [] rows h k = k
inserted (d ∷ ds) rows h k = elim (Bool-cases (any (same_key d) rows)) [
  | inl there ↦ rw there (inserted ds rows h.1 k)
  | inr new ↦
      let sound : IsSound d = rw (h.0.0) h.0.1 in
      rw new (inserted ds (rows ++ (d ∷ [])) h.1 (All-append IsSound rows (d ∷ []) k (sound, tt)))
]

rows-IsNew : (ds : List Delivery) → All IsNew ds → All IsNew (map delivery_row ds)
rows-IsNew [] h = tt
rows-IsNew (d ∷ ds) h = (h.0, rows-IsNew ds h.1)

pub All-insert_pending :
    (ds rows : List Delivery)
    → All IsNew ds
    → All IsSound rows
    → All IsSound (insert_pending ds rows)
unfolding insert_pending
All-insert_pending ds rows h k = inserted (map delivery_row ds) rows (rows-IsNew ds h) k

-- An update of rows that keeps each sound keeps them all.
All-update :
    (p : Delivery → Bool) (f : Delivery → Delivery) (rows : List Delivery)
    → ((d : Delivery) → p d ≡ true → IsSound d → IsSound (f d))
    → All IsSound rows
    → All IsSound (map (λ (d : Delivery). if p d then f d else d) rows)
All-update p f [] keeps h = tt
All-update p f (d ∷ rows) keeps h = elim (Bool-cases (p d)) [
  | inl e ↦ rw e (keeps d e h.0, All-update p f rows keeps h.1)
  | inr e ↦ rw e (h.0, All-update p f rows keeps h.1)
]

as_failed-IsSound :
    (c : ClaimedDelivery) (code : Option ℕ) (error : Text) (at : ℕ) (d : Delivery)
    → IsOpen c
    → IsSound (as_failed (c.attempts + 1) code error at (is_dead (c.attempts + 1)) d)
as_failed-IsSound c code error at d h = elim (Bool-cases (is_dead (c.attempts + 1))) [
  | inl e ↦ rw e (ground (arith, e))
  | inr e ↦ rw e (ground (arith, e))
]

abbrev later : ℕ → ClaimedDelivery → ℕ
later now c = if is_dead (c.attempts + 1) then now else now + backoff (c.attempts + 1)

pub process-IsSound :
    (now : ℕ) (sent : Sent) (c : ClaimedDelivery) (db : WebhookDb)
    → IsOpen c
    → All IsSound db.deliveries
    → All IsSound (process now sent c db).deliveries
unfolding process record_failure mark_delivered mark_failed
process-IsSound now (broken message) c db open_c h =
    All-update (is_row c.tenant_id c.id) _ db.deliveries
      (λ d e s. as_failed-IsSound c none (error_text (broken message)) (later now c) d open_c) h
process-IsSound now (answered code) c db open_c h = elim (Bool-cases (is_success (answered code))) [
  | inl ok_code ↦ rw ok_code (
      All-update (is_row c.tenant_id c.id) (as_delivered now code) db.deliveries
        (λ d e s. delivered-sound d s) h)
  | inr bad_code ↦ rw bad_code (
      All-update (is_row c.tenant_id c.id) _ db.deliveries
        (λ d e s.
          as_failed-IsSound c (some code) (error_text (answered code)) (later now c) d open_c)
        h)
]
  where
    delivered-sound : (d : Delivery) → IsSound d → d.attempts ≤ 5
    delivered-sound d s = at_most_5 d.status d.attempts s
      where
        at_most_5 : (st : Status) (n : ℕ) → Admits st n → n ≤ 5
        at_most_5 pending n a = omega arith
        at_most_5 delivered n a = a
        at_most_5 failed n a = omega arith
        at_most_5 dead n a = omega arith

pub requeue-IsSound :
    (now tenant id : ℕ) (db : WebhookDb)
    → All IsSound db.deliveries
    → All IsSound (requeue now tenant id db).1.deliveries
unfolding requeue
requeue-IsSound now tenant id db h = row (find? (is_row tenant id) db.deliveries)
  where
    row : (o : Option Delivery) → All IsSound (requeue_row now tenant id o db).1.deliveries
    row none = h
    row (some d) = elim (Bool-cases (is_retryable d.status)) [
      | inl retryable ↦
          rw retryable
            (All-update (is_row tenant id) (requeued now) db.deliveries (λ x e s. refl) h)
      | inr other ↦ rw other h
    ]

-- A claimed row is pending or has failed, so attempts are left to it.
due-open :
    (now : ℕ) (db : WebhookDb) (d : Delivery) → is_due now db d ≡ true → IsSound d → d.attempts ≤ 4
due-open now db d due s = claimable d.status d.attempts (ground (arith, due)) s
  where
    claimable : (st : Status) (n : ℕ) → is_claimable st ≡ true → Admits st n → n ≤ 4
    claimable pending n e a = omega arith
    claimable failed n e a = a.1
    claimable delivered n e a = cc
    claimable dead n e a = cc

abbrev HasLeft : Delivery → Type 0
HasLeft d = d.attempts ≤ 4

select-left :
    (locked : ℕ → Bool) (now : ℕ) (db : WebhookDb) (rows : List Delivery)
    → All IsSound rows
    → All HasLeft (select (λ (d : Delivery). is_due now db d && not (locked d.id)) rows)
select-left locked now db [] h = tt
select-left locked now db (d ∷ rows) h = elim (Bool-cases (is_due now db d && not (locked d.id))) [
  | inl e ↦ rw e (due-open now db d (ground (arith, e)) h.0, select-left locked now db rows h.1)
  | inr e ↦ rw e (select-left locked now db rows h.1)
]

All-take : (n : ℕ) (rows : List Delivery) → All HasLeft rows → All HasLeft (take n rows)
All-take zero rows h = tt
All-take (suc n) [] h = tt
All-take (suc n) (d ∷ rows) h = (h.0, All-take n rows h.1)

claimed-left :
    (locked : ℕ → Bool) (limit now : ℕ) (db : WebhookDb)
    → All IsSound db.deliveries
    → All HasLeft (claimed_rows locked limit now db)
unfolding claimed_rows
claimed-left locked limit now db h =
    All-take limit _
      (All-perm HasLeft (sort_by-perm due_before _) (select-left locked now db db.deliveries h))

join-IsOpen :
    (subs : List Subscription) (ds : List Delivery)
    → All HasLeft ds
    → All IsOpen (join_endpoints subs ds)
unfolding join_endpoints
join-IsOpen subs [] h = tt
join-IsOpen subs (d ∷ ds) h = endpoint (subscription_of d subs) (join-IsOpen subs ds h.1)
  where
    endpoint :
        (o : Option Subscription)
        → All IsOpen (join_endpoints subs ds)
        → All IsOpen (join_endpoint o d (join_endpoints subs ds))
    endpoint none rest = rest
    endpoint (some s) rest = (h.0, rest)

pub claim-IsOpen :
    (locked : ℕ → Bool) (limit lease now : ℕ) (db : WebhookDb)
    → All IsSound db.deliveries
    → All IsOpen (claim_due locked limit lease now db).0
unfolding claim_due
claim-IsOpen locked limit lease now db h =
    join-IsOpen db.subscriptions _
      (All-perm HasLeft (sort_by-perm created_before _) (claimed-left locked limit now db h))

pub claim-IsSound :
    (locked : ℕ → Bool) (limit lease now : ℕ) (db : WebhookDb)
    → All IsSound db.deliveries
    → All IsSound (claim_due locked limit lease now db).1.deliveries
unfolding claim_due
claim-IsSound locked limit lease now db h =
    All-update (is_among (claimed_rows locked limit now db)) _ db.deliveries (λ d e s. s) h
