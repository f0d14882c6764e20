-- ===== src/Recon/Feed/Delivery.antt =====
-- services/reconciliation/internal/adapters/natsconsumer/consumer.go: the delivery of an event of the
-- ledger to the mirror, once or again.
use ledgercore.Base.{
  ℕ, suc, ◌^◌, ◌≤◌, ◌<◌, ◌==◌, ==_self, insert_missing, insert_there, insert-AllThere, ◌≡◌, refl,
  ap, ◌∙◌, true, false, List, [], ◌∷◌, Option, none, some, Text, text_eq, ℤ, pos, negsuc, neg_ℤ,
  length, all, map, IsInt64, Bool-cases, inl, inr, arith,
}
use ledgercore.Money.Decimal.{format_int, decimal, is_digit, is_empty, strip_sign}
use ledgercore.Money.Printing.{decimal-digits, decimal-value, decimal-length}
use ledgercore.Recon.{MirrorEntry}
use ledgercore.Recon.Tables.{entry_row, same_entry, insert_mirror_entries}
use ledgercore.Recon.Feed.{
  PostedPayload, Message, malformed, envelope, acked, parse_int, topic, entries_from, fits_columns,
  persist_entries, handle_payload, handle,
}

inserted-again :
    (es mirror : List MirrorEntry)
    → insert_mirror_entries es (insert_mirror_entries es mirror) ≡ insert_mirror_entries es mirror
unfolding insert_mirror_entries
inserted-again es mirror =
    insert_there same_entry (map entry_row es) (insert_missing same_entry (map entry_row es) mirror)
      (insert-AllThere same_entry (λ e. ==_self e.id) (map entry_row es) mirror)

persist_entries-again :
    (entries : Option (List MirrorEntry)) (mirror : List MirrorEntry)
    → persist_entries entries (persist_entries entries mirror).1 ≡ persist_entries entries mirror
persist_entries-again none mirror = refl
persist_entries-again (some es) mirror = elim (Bool-cases (all fits_columns es)) [
  | inl fits ↦ rw fits (λ i. (acked, inserted-again es mirror i))
  | inr bad ↦ rw bad refl
]

payload-again :
    (posting_id : ℕ → ℕ → ℕ) (tenant : ℕ) (payload : Option PostedPayload)
    (mirror : List MirrorEntry)
    → handle_payload posting_id tenant payload (handle_payload posting_id tenant payload mirror).1
      ≡ handle_payload posting_id tenant payload mirror
payload-again posting_id tenant none mirror = refl
payload-again posting_id tenant (some payload) mirror =
    persist_entries-again (entries_from posting_id tenant payload 0 payload.postings) mirror

-- A redelivery of any message, to the mirror that its first delivery has left, has the same outcome
-- and leaves that mirror, whatever ids the postings get.
pub handle-again :
    (posting_id : ℕ → ℕ → ℕ) (msg : Message) (mirror : List MirrorEntry)
    → handle posting_id msg (handle posting_id msg mirror).1 ≡ handle posting_id msg mirror
unfolding handle
handle-again posting_id malformed mirror = refl
handle-again posting_id (envelope type tenant payload) mirror =
    elim (Bool-cases (text_eq type topic)) [
      | inr other ↦ rw other refl
      | inl posted ↦ elim (Bool-cases (tenant == 0)) [
        | inl nil ↦ rw (posted, nil) refl
        | inr some_tenant ↦
            rw (posted, some_tenant) (payload-again posting_id tenant payload mirror)
      ]
    ]

-- parse_int reads what format_int writes.
starts_digit : (s : Text) → all is_digit s ≡ true → strip_sign s ≡ (false, s)
starts_digit [] h = refl
starts_digit (c ∷ s) h = ground arith

not_empty : (s : Text) → 0 < length s → is_empty s ≡ false
not_empty [] h = absurd (omega arith)
not_empty (c ∷ s) h = refl

parse_digits_text : (n : ℕ) → n < 2 ^ 63 → parse_int (decimal n) ≡ some (pos n)
unfolding parse_int
parse_digits_text n h =
    rw
      (
        starts_digit (decimal n) (decimal-digits n),
        not_empty (decimal n) (decimal-length n),
        decimal-digits n,
        decimal-value n,
      )
      (ground arith)

parse_minus_text : (n : ℕ) → n ≤ 2 ^ 63 → parse_int (b'-' ∷ decimal n) ≡ some (neg_ℤ (pos n))
unfolding parse_int
parse_minus_text n h =
    rw (not_empty (decimal n) (decimal-length n), decimal-digits n, decimal-value n) (ground arith)

format_int_pos : (n : ℕ) → format_int (pos n) ≡ decimal n
unfolding format_int
format_int_pos n = ground arith

format_int_negsuc : (n : ℕ) → format_int (negsuc n) ≡ b'-' ∷ decimal (suc n)
unfolding format_int
format_int_negsuc n = ground arith

negated : (n : ℕ) → neg_ℤ (pos (suc n)) ≡ negsuc n
negated n = ground arith

pub parse_int-format_int : (u : ℤ) → IsInt64 u → parse_int (format_int u) ≡ some u
parse_int-format_int (pos n) h = rw (format_int_pos n) (parse_digits_text n (omega arith))
parse_int-format_int (negsuc n) h =
    rw (format_int_negsuc n) (parse_minus_text (suc n) (omega arith) ∙ ap some (negated n))
