-- ===== src/Webhooks/Lifecycle.antt =====
-- services/webhooks: the life of the deliveries as events, claims, outcomes and manual retries come in
-- any order, also outcomes of claims whose lease has passed.
use ledgercore.Base.{ℕ, ◌≡◌, subst, Bool, List, [], ◌∷◌, ◌++◌, All, All-append}
use ledgercore.Webhooks.{Subscription, Delivery, ClaimedDelivery}
use ledgercore.Webhooks.Tables.{WebhookDb, insert_pending, requeue, claim_due}
use ledgercore.Webhooks.Dispatcher.{Sent, process}
use ledgercore.Webhooks.Soundness.{
  IsSound, IsOpen, IsNew, All-insert_pending, process-IsSound, requeue-IsSound, claim-IsOpen,
  claim-IsSound,
}

-- The tables, and the claims that workers hold, with or without their lease.
pub record World : Type 0 where
  pub db : WebhookDb
  pub held : List ClaimedDelivery

-- One step of the service. A worker is done with one of the claims that are held, wherever that one
-- stands, and subscriptions change in any way.
pub data Step : World → World → Type 0 where
  enqueue :
      (w : World) (ds : List Delivery)
      → All IsNew ds
      → Step w (record w {
        db = record {
          subscriptions = w.db.subscriptions;
          deliveries = insert_pending ds w.db.deliveries;
        };
      })
  claim :
      (w : World) (locked : ℕ → Bool) (limit lease now : ℕ)
      → Step w (record {
        db = (claim_due locked limit lease now w.db).1;
        held = w.held ++ (claim_due locked limit lease now w.db).0;
      })
  attempt :
      (w : World) (before after : List ClaimedDelivery) (c : ClaimedDelivery) (now : ℕ)
      (sent : Sent)
      → w.held ≡ before ++ (c ∷ after)
      → Step w (record { db = process now sent c w.db; held = before ++ after })
  crash :
      (w : World) (before after : List ClaimedDelivery) (c : ClaimedDelivery)
      → w.held ≡ before ++ (c ∷ after)
      → Step w (record w { held = before ++ after })
  retry :
      (w : World) (now tenant id : ℕ) → Step w (record w { db = (requeue now tenant id w.db).1 })
  subscribe :
      (w : World) (subscriptions : List Subscription)
      → Step w
          (record w { db = record { subscriptions = subscriptions; deliveries = w.db.deliveries } })

pub data Reach (w : World) : World → Type 0 where
  start : Reach w w
  after_step : {u v : World} → Reach w u → Step u v → Reach w v

pub record Inv (w : World) : Type 0 where
  pub sound : All IsSound w.db.deliveries
  pub open_claims : All IsOpen w.held

All-drop_one :
    (xs ys : List ClaimedDelivery) (c : ClaimedDelivery)
    → All IsOpen (xs ++ (c ∷ ys))
    → IsOpen c × All IsOpen (xs ++ ys)
All-drop_one [] ys c h = h
All-drop_one (x ∷ xs) ys c h = let (one, rest) = All-drop_one xs ys c h.1 in (one, (h.0, rest))

Step-Inv : {w v : World} → Step w v → Inv w → Inv v
Step-Inv (enqueue w ds new) h = record {
  sound = All-insert_pending ds w.db.deliveries new h.sound;
  open_claims = h.open_claims;
}
Step-Inv (claim w locked limit lease now) h = record {
  sound = claim-IsSound locked limit lease now w.db h.sound;
  open_claims =
      All-append IsOpen w.held _ h.open_claims (claim-IsOpen locked limit lease now w.db h.sound);
}
Step-Inv (attempt w before after c now sent e) h =
    let (one, rest) = All-drop_one before after c (subst (All IsOpen) e h.open_claims) in
    record { sound = process-IsSound now sent c w.db one h.sound; open_claims = rest }
Step-Inv (crash w before after c e) h = record {
  sound = h.sound;
  open_claims = (All-drop_one before after c (subst (All IsOpen) e h.open_claims)).1;
}
Step-Inv (retry w now tenant id) h = record {
  sound = requeue-IsSound now tenant id w.db h.sound;
  open_claims = h.open_claims;
}
Step-Inv (subscribe w subscriptions) h = record { sound = h.sound; open_claims = h.open_claims }

Reach-Inv : {w v : World} → Inv w → Reach w v → Inv v
Reach-Inv h start = h
Reach-Inv h (after_step r s) = Step-Inv s (Reach-Inv h r)

-- In every state that the service reaches from tables without deliveries and without claims, by
-- events, claims, attempts with any outcome, crashes, manual retries and changes of subscriptions in
-- any order, the attempts column is 0 on each pending delivery, 1 to 4 on each that has failed, 5 on
-- each that is dead, and at most 5 on each that is delivered. It is the counter of the table: a manual
-- retry sets it back to 0, and an attempt whose worker crashes before the outcome is recorded does not
-- count.
pub Reach-IsSound :
    (subscriptions : List Subscription) (w : World)
    → Reach (record { db = record { subscriptions = subscriptions; deliveries = [] }; held = [] }) w
    → All IsSound w.db.deliveries
Reach-IsSound subscriptions w r = (Reach-Inv (record { sound = tt; open_claims = tt }) r).sound
