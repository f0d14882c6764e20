-- ===== src/Recon/Feed.antt =====
-- services/reconciliation/internal/adapters/natsconsumer/consumer.go: the consumer that feeds the
-- mirror from the events of the ledger. A message is given as its JSON decodes, and the uuid of a
-- posting, a hash of the transaction's uuid and an index, is an argument.
pub mod Delivery
pub mod Posted
use ledgercore.Base.{
  ℕ, suc, ◌+◌, ◌^◌, ◌==◌, ◌≡◌, refl, Bool, true, false, not, ◌&&◌, ◌||◌, List, [], ◌∷◌, ◌++◌,
  Option, none, some, Text, codes, text_eq, ℤ, pos, neg_ℤ, ltb, leb, length, all, if◌then◌else◌,
}
use ledgercore.Money.Decimal.{is_digit, is_empty, strip_sign}
use ledgercore.Money.Parsing.{digits_value}
use ledgercore.Recon.{MirrorEntry, direction_debit, direction_credit}
use ledgercore.Recon.Tables.{characters, insert_mirror_entries}

-- moneyPayload
pub record MoneyPayload : Type 0 where
  pub asset : Text
  pub amount : Text

-- postingPayload
pub record PostingPayload : Type 0 where
  pub account_id : ℕ
  pub direction : Text
  pub amount : MoneyPayload

-- transactionPostedPayload
pub record PostedPayload : Type 0 where
  pub transaction_id : ℕ
  pub ledger_id : ℕ
  pub idempotency_key : Text
  pub description : Text
  pub postings : List PostingPayload
  pub metadata : List (Text × Text)
  pub posted_at : ℕ

-- No envelope; or an envelope with a type, a tenant, and data that may be no payload.
pub data Message : Type 0 where
  malformed : Message
  envelope : Text → ℕ → Option PostedPayload → Message

pub data Disposition : Type 0 where
  acked terminated naked : Disposition

-- strconv.ParseInt(s, 10, 64)
unfoldable pub parse_int : Text → Option ℤ
parse_int s =
    let negative = (strip_sign s).0 in
    let digits = (strip_sign s).1 in
    let n = digits_value 0 digits in
    if is_empty digits || not (all is_digit digits)
    then none
    else if negative
    then if leb n (2 ^ 63) then some (neg_ℤ (pos n)) else none
    else if ltb n (2 ^ 63)
    then some (pos n)
    else none

abbrev pub topic : Text
topic = codes "ledger.transaction.posted"

abbrev pub cons_entry :
    Option ℤ → MirrorEntry → Option (List MirrorEntry) → Option (List MirrorEntry)
cons_entry none m rest = none
cons_entry (some units) m none = none
cons_entry (some units) m (some rest) = some (record m { amount = units } ∷ rest)

-- The entry of the i-th posting, but for its amount.
abbrev pub entry_of_posting : (ℕ → ℕ → ℕ) → ℕ → PostedPayload → ℕ → PostingPayload → MirrorEntry
entry_of_posting posting_id tenant payload i p = record {
  id = posting_id payload.transaction_id i;
  tenant_id = tenant;
  transaction_id = payload.transaction_id;
  account_id = p.account_id;
  direction = p.direction;
  amount = pos 0;
  asset = p.amount.asset;
  reference = payload.idempotency_key;
  posted_at = payload.posted_at;
}

-- The loop over the postings, which ends at the first amount that is no int64.
unfoldable pub entries_from :
    (ℕ → ℕ → ℕ) → ℕ → PostedPayload → ℕ → List PostingPayload → Option (List MirrorEntry)
entries_from posting_id tenant payload i [] = some []
entries_from posting_id tenant payload i (p ∷ ps) =
    cons_entry (parse_int p.amount.amount) (entry_of_posting posting_id tenant payload i p)
      (entries_from posting_id tenant payload (suc i) ps)

-- The columns of the table take the entry.
abbrev pub fits_columns : MirrorEntry → Bool
fits_columns m =
    (text_eq m.direction direction_debit || text_eq m.direction direction_credit)
    && (leb (characters m.asset) 12 && leb (characters m.reference) 255)

-- InsertMirrorEntries and what the consumer makes of its outcome. It fails on values that the columns
-- do not take; a failure of the database itself is not modelled.
abbrev pub persist : List MirrorEntry → List MirrorEntry → Disposition × List MirrorEntry
persist entries mirror =
    if all fits_columns entries
    then (acked, insert_mirror_entries entries mirror)
    else (naked, mirror)

abbrev pub persist_entries :
    Option (List MirrorEntry) → List MirrorEntry → Disposition × List MirrorEntry
persist_entries none mirror = (terminated, mirror)
persist_entries (some entries) mirror = persist entries mirror

abbrev pub handle_payload :
    (ℕ → ℕ → ℕ) → ℕ → Option PostedPayload → List MirrorEntry → Disposition × List MirrorEntry
handle_payload posting_id tenant none mirror = (terminated, mirror)
handle_payload posting_id tenant (some payload) mirror =
    persist_entries (entries_from posting_id tenant payload 0 payload.postings) mirror

-- handle
unfoldable pub handle : (ℕ → ℕ → ℕ) → Message → List MirrorEntry → Disposition × List MirrorEntry
handle posting_id malformed mirror = (terminated, mirror)
handle posting_id (envelope type tenant payload) mirror =
    if not (text_eq type topic)
    then (acked, mirror)
    else if tenant == 0
    then (terminated, mirror)
    else handle_payload posting_id tenant payload mirror
