-- ===== src/Webhooks/Fanout.antt =====
-- services/webhooks/internal/app/service.go and adapters/natsconsumer/consumer.go: the fan-out of an
-- event to the subscriptions. An envelope stands with the raw message that is stored as the payload.
use ledgercore.Base.{
  ℕ, suc, ◌==◌, ◌≡◌, refl, ap, ◌∙◌, Bool, true, false, ◌&&◌, ◌||◌, List, [], ◌∷◌, Option, none,
  some, map, Text, length, any, All, Result, ok, err, if◌then◌else◌, insert_missing, insert_there,
  insert-AllThere, Bool-cases, inl, inr, arith,
}
use ledgercore.Webhooks.{Subscription, Delivery, pending, matches}
use ledgercore.Webhooks.Tables.{
  WebhookError, invalid, WebhookDb, list_active, same_key, delivery_row, insert_pending,
}

pub record Envelope : Type 0 where
  pub id : ℕ
  pub tenant_id : ℕ
  pub type : Text
  pub raw : Text

-- The clock, and the uuids that a call generates.
pub record Outside : Type 0 where
  pub now : ℕ
  pub fresh : ℕ → ℕ

abbrev pub new_delivery : Outside → ℕ → Envelope → Subscription → Delivery
new_delivery o k env s = record {
  id = o.fresh k;
  tenant_id = env.tenant_id;
  subscription_id = s.id;
  event_id = env.id;
  event_type = env.type;
  payload = env.raw;
  status = pending;
  attempts = 0;
  next_attempt_at = o.now;
  last_status_code = none;
  last_error = none;
  created_at = o.now;
  delivered_at = none;
}

-- The loop over the active subscriptions.
unfoldable pub new_deliveries : Outside → ℕ → Envelope → List Subscription → List Delivery
new_deliveries o k env [] = []
new_deliveries o k env (s ∷ ss) =
    let rest = new_deliveries o (suc k) env ss in
    if matches s.event_types env.type then new_delivery o k env s ∷ rest else rest

abbrev pub lacks_identity : Envelope → Bool
lacks_identity env = (env.id == 0) || (env.tenant_id == 0) || (length env.type == 0)

-- EnqueueEnvelope
unfoldable pub enqueue_envelope :
    Outside → Envelope → WebhookDb → Result WebhookError (Unit {0}) × WebhookDb
enqueue_envelope o env db = if lacks_identity env then (err invalid, db) else (
  ok tt,
  record db {
    deliveries =
        insert_pending (new_deliveries o 0 env (list_active env.tenant_id db)) db.deliveries;
  },
)

pub data Disposition : Type 0 where
  acked terminated naked : Disposition

abbrev pub after_enqueue : Result WebhookError (Unit {0}) → Disposition
after_enqueue (ok u) = acked
after_enqueue (err e) = naked

-- handle; a message that is no envelope is `none`.
unfoldable pub handle : Outside → Option Envelope → WebhookDb → Disposition × WebhookDb
handle o none db = (terminated, db)
handle o (some env) db =
    if lacks_identity env
    then (terminated, db)
    else (after_enqueue (enqueue_envelope o env db).0, (enqueue_envelope o env db).1)

-- A subscription that matches has its delivery of the event among some deliveries.
abbrev pub Reaches : Envelope → List Delivery → Subscription → Type 0
Reaches env ds s =
    matches s.event_types env.type ≡ true
    → any (λ (d : Delivery). d.subscription_id == s.id && d.event_id == env.id) ds ≡ true

-- The rows of an event's deliveries.
abbrev new_rows : Outside → ℕ → Envelope → List Subscription → List Delivery
new_rows o k env ss = map delivery_row (new_deliveries o k env ss)

-- Deliveries made again, by another call, have their keys where those made before have.
again-AllThere :
    (o o' : Outside) (k k' : ℕ) (env : Envelope) (ss : List Subscription) (rows : List Delivery)
    → All (λ (d : Delivery). any (same_key d) rows ≡ true) (new_rows o k env ss)
    → All (λ (d : Delivery). any (same_key d) rows ≡ true) (new_rows o' k' env ss)
unfolding new_deliveries
again-AllThere o o' k k' env [] rows h = tt
again-AllThere o o' k k' env (s ∷ ss) rows h = elim (Bool-cases (matches s.event_types env.type)) [
  | inl e ↦
      let (one, rest) = split e in rw e (one, again-AllThere o o' (suc k) (suc k') env ss rows rest)
  | inr e ↦ rw e (again-AllThere o o' (suc k) (suc k') env ss rows (skip e))
]
  where
    split :
        matches s.event_types env.type ≡ true
        → (any (same_key (delivery_row (new_delivery o k env s))) rows ≡ true)
          × All (λ (d : Delivery). any (same_key d) rows ≡ true) (new_rows o (suc k) env ss)
    split e = rw e at h

    skip :
        matches s.event_types env.type ≡ false
        → All (λ (d : Delivery). any (same_key d) rows ≡ true) (new_rows o (suc k) env ss)
    skip e = rw e at h

there-Reaches :
    (o : Outside) (k : ℕ) (env : Envelope) (ss : List Subscription) (rows : List Delivery)
    → All (λ (d : Delivery). any (same_key d) rows ≡ true) (new_rows o k env ss)
    → All (Reaches env rows) ss
unfolding new_deliveries
there-Reaches o k env [] rows h = tt
there-Reaches o k env (s ∷ ss) rows h = elim (Bool-cases (matches s.event_types env.type)) [
  | inl e ↦ let both = split e in ((λ m. both.0), there-Reaches o (suc k) env ss rows both.1)
  | inr e ↦ ((λ m. absurd (ground (arith, e, m))), there-Reaches o (suc k) env ss rows (skip e))
]
  where
    split :
        matches s.event_types env.type ≡ true
        → (any (same_key (delivery_row (new_delivery o k env s))) rows ≡ true)
          × All (λ (d : Delivery). any (same_key d) rows ≡ true) (new_rows o (suc k) env ss)
    split e = rw e at h

    skip :
        matches s.event_types env.type ≡ false
        → All (λ (d : Delivery). any (same_key d) rows ≡ true) (new_rows o (suc k) env ss)
    skip e = rw e at h

handle_identified :
    (o : Outside) (env : Envelope) (db : WebhookDb)
    → lacks_identity env ≡ false
    → handle o (some env) db ≡ (
      acked,
      record db {
        deliveries =
            insert_missing same_key (new_rows o 0 env (list_active env.tenant_id db)) db.deliveries;
      },
    )
unfolding handle enqueue_envelope insert_pending
handle_identified o env db e = rw e refl

list_active-deliveries :
    (tenant : ℕ) (db : WebhookDb) (ds : List Delivery)
    → list_active tenant (record db { deliveries = ds }) ≡ list_active tenant db
unfolding list_active
list_active-deliveries tenant db ds = refl

key_self : (d : Delivery) → same_key d d ≡ true
key_self d = ground arith

-- After the consumer has handled an event with an id, a tenant and a type, each active subscription
-- of the tenant that matches its type has a delivery of the event; and a redelivery of the event, with
-- whatever instant and new ids, is acknowledged and changes nothing.
pub handle-Reaches :
    (o o' : Outside) (env : Envelope) (db : WebhookDb)
    → lacks_identity env ≡ false
    → let after = (handle o (some env) db).1 in
      All (Reaches env after.deliveries) (list_active env.tenant_id db)
      × (handle o' (some env) after ≡ (acked, after))
handle-Reaches o o' env db e =
    let ss : List Subscription = list_active env.tenant_id db in
    let rows : List Delivery = insert_missing same_key (new_rows o 0 env ss) db.deliveries in
    let there : All (λ (d : Delivery). any (same_key d) rows ≡ true) (new_rows o 0 env ss) =
      insert-AllThere same_key key_self (new_rows o 0 env ss) db.deliveries in
    rw (handle_identified o env db e) (
      there-Reaches o 0 env ss rows there,
      handle_identified o' env (record db { deliveries = rows }) e ∙ (λ i. (
        acked,
        record db {
          deliveries =
              (ap (λ l. insert_missing same_key (new_rows o' 0 env l) rows)
                    (list_active-deliveries env.tenant_id db rows)
                  ∙ insert_there same_key (new_rows o' 0 env ss) rows
                      (again-AllThere o o' 0 0 env ss rows there))
                i;
        },
      )),
    )
