-- ===== src/Recon/Feed/Posted.antt =====
-- libs/go/events, the outbox of the ledger and the consumer of the reconciliation: what the event of
-- a posted transaction brings to the mirror.
use ledgercore.Base.{
  ℕ, suc, ◌==◌, ◌≡◌, refl, true, false, List, [], ◌∷◌, map, none, some, codes, text_eq, all, All,
  IsInt64,
}
use ledgercore.Domain.{Posting, Transaction}
use ledgercore.Store.{
  EventPosting, TransactionPostedEvent, Event, transaction_posted, transaction_reversed,
  hold_created, hold_captured, hold_released,
}
use ledgercore.Store.Transactions.{direction_text, event_money, posted_event}
use ledgercore.Recon.{MirrorEntry}
use ledgercore.Recon.Tables.{insert_mirror_entries}
use ledgercore.Recon.Feed.{
  PostingPayload, PostedPayload, Message, envelope, acked, topic, entries_from, fits_columns,
  handle,
}
use ledgercore.Recon.Feed.Delivery.{parse_int-format_int}

-- The JSON of the ledger's payload as the consumer decodes it.
abbrev pub decoded_posting : EventPosting → PostingPayload
decoded_posting p = record {
  account_id = p.account_id;
  direction = direction_text p.direction;
  amount = record { asset = p.amount.asset; amount = p.amount.amount };
}

abbrev pub decoded : TransactionPostedEvent → PostedPayload
decoded e = record {
  transaction_id = e.transaction_id;
  ledger_id = e.ledger_id;
  idempotency_key = e.idempotency_key;
  description = e.description;
  postings = map decoded_posting e.postings;
  metadata = e.metadata;
  posted_at = e.posted_at;
}

-- The message of an event of the outbox. The payloads of the other topics are left off: the
-- consumer does not read them.
abbrev pub message_of : ℕ → Event → Message
message_of tenant (transaction_posted e) = envelope topic tenant (some (decoded e))
message_of tenant (transaction_reversed e) =
    envelope (codes "ledger.transaction.reversed") tenant none
message_of tenant (hold_created e) = envelope (codes "ledger.hold.created") tenant none
message_of tenant (hold_captured e) = envelope (codes "ledger.hold.captured") tenant none
message_of tenant (hold_released e) = envelope (codes "ledger.hold.released") tenant none

-- The entries that mirror the postings of a transaction.
unfoldable pub mirrored : (ℕ → ℕ → ℕ) → ℕ → Transaction → ℕ → ℕ → List Posting → List MirrorEntry
mirrored posting_id tenant t posted_at i [] = []
mirrored posting_id tenant t posted_at i (p ∷ ps) =
    record {
      id = posting_id t.id i;
      tenant_id = tenant;
      transaction_id = t.id;
      account_id = p.account_id;
      direction = direction_text p.direction;
      amount = p.amount.units;
      asset = p.amount.asset;
      reference = t.idempotency_key;
      posted_at = posted_at;
    }
    ∷ mirrored posting_id tenant t posted_at (suc i) ps

abbrev pub FitsWord : Posting → Type 0
FitsWord p = IsInt64 p.amount.units

entries_from-mirrored :
    (posting_id : ℕ → ℕ → ℕ) (tenant : ℕ) (t : Transaction) (posted_at i : ℕ)
    (payload : PostedPayload) (ps : List Posting)
    → payload.transaction_id ≡ t.id
    → payload.idempotency_key ≡ t.idempotency_key
    → payload.posted_at ≡ posted_at
    → All FitsWord ps
    → entries_from posting_id tenant payload i (
        map decoded_posting (
          map
            (λ (p : Posting). record {
              account_id = p.account_id;
              direction = p.direction;
              amount = event_money p.amount;
            })
            ps))
      ≡ some (mirrored posting_id tenant t posted_at i ps)
unfolding entries_from mirrored
entries_from-mirrored posting_id tenant t posted_at i payload [] e f g h = refl
entries_from-mirrored posting_id tenant t posted_at i payload (p ∷ ps) e f g h =
    rw
      (
        parse_int-format_int p.amount.units h.0,
        entries_from-mirrored posting_id tenant t posted_at (suc i) payload ps e f g h.1,
      )
      (λ k. some (
        record {
          id = posting_id (e k) i;
          tenant_id = tenant;
          transaction_id = e k;
          account_id = p.account_id;
          direction = direction_text p.direction;
          amount = p.amount.units;
          asset = p.amount.asset;
          reference = f k;
          posted_at = g k;
        }
        ∷ mirrored posting_id tenant t posted_at (suc i) ps))

-- For a tenant that is not nil and a transaction with int64 amounts whose entries the columns of the
-- mirror take: the consumer acknowledges the event that the ledger writes for it, and adds to the
-- mirror, for each posting whose id is not in it yet, an entry with the posting's account,
-- direction, asset and amount, the id of the transaction and its idempotency key.
pub handle-posted_event :
    (posting_id : ℕ → ℕ → ℕ) (tenant : ℕ) (t : Transaction) (posted_at : ℕ)
    (mirror : List MirrorEntry)
    → (tenant == 0) ≡ false
    → All FitsWord t.postings
    → all fits_columns (mirrored posting_id tenant t posted_at 0 t.postings) ≡ true
    → handle posting_id (message_of tenant (posted_event t posted_at)) mirror
      ≡ (acked, insert_mirror_entries (mirrored posting_id tenant t posted_at 0 t.postings) mirror)
unfolding handle posted_event text_eq
handle-posted_event posting_id tenant t posted_at mirror some_tenant words fits =
    rw
      (
        some_tenant,
        entries_from-mirrored posting_id tenant t posted_at 0
            (decoded (record {
              transaction_id = t.id;
              ledger_id = t.ledger_id;
              idempotency_key = t.idempotency_key;
              description = t.description;
              postings =
                  map
                    (λ (p : Posting). record {
                      account_id = p.account_id;
                      direction = p.direction;
                      amount = event_money p.amount;
                    })
                    t.postings;
              metadata = t.metadata;
              posted_at = posted_at;
            }))
            t.postings refl refl refl words,
        fits,
      )
      refl
