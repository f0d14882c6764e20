-- ===== src/Domain/Nets.antt =====
-- services/ledger-core/internal/domain/domain.go: what a balance amounts to on the normal side of
-- its account, in int64.
use ledgercore.Base.{◌≡◌, ap, ◌∙◌, ℤ, ◌+ℤ◌, ◌-ℤ◌, neg_ℤ, wrap64, IsInt64, wrap64_exact}
use ledgercore.Domain.{Balance, NormalBalance, normal_debit, normal_credit, other_balance}

-- The difference of two sums on the normal side, over the exact integers.
abbrev pub net_of : NormalBalance → ℤ → ℤ → ℤ
net_of normal_debit d c = d -ℤ c
net_of n d c = c -ℤ d

-- PostedNet.
unfoldable pub posted_net : Balance → NormalBalance → ℤ
posted_net b normal_debit = wrap64 (b.posted_debits -ℤ b.posted_credits)
posted_net b n = wrap64 (b.posted_credits -ℤ b.posted_debits)

-- PendingNet.
unfoldable pub pending_net : Balance → NormalBalance → ℤ
pending_net b normal_debit = wrap64 (b.pending_debits -ℤ b.pending_credits)
pending_net b n = wrap64 (b.pending_credits -ℤ b.pending_debits)

-- Available.
unfoldable pub available : Balance → NormalBalance → ℤ
available b n = wrap64 (posted_net b n -ℤ b.held)

-- SignRaw.
unfoldable pub sign_raw : NormalBalance → ℤ → ℤ
sign_raw normal_debit raw = raw
sign_raw n raw = wrap64 (neg_ℤ raw)

-- RunningBalance.
unfoldable pub running_balance : NormalBalance → ℤ → ℤ → ℤ
running_balance n opening_raw cumulative_raw = sign_raw n (wrap64 (opening_raw +ℤ cumulative_raw))

posted_net_exact :
    (b : Balance) (n : NormalBalance)
    → IsInt64 (net_of n b.posted_debits b.posted_credits)
    → posted_net b n ≡ net_of n b.posted_debits b.posted_credits
unfolding posted_net
posted_net_exact b normal_debit h = wrap64_exact (b.posted_debits -ℤ b.posted_credits) h
posted_net_exact b normal_credit h = wrap64_exact (b.posted_credits -ℤ b.posted_debits) h
posted_net_exact b (other_balance t) h = wrap64_exact (b.posted_credits -ℤ b.posted_debits) h

-- Where the net and the net less the held amount fit an int64, Available is their exact difference.
pub available_exact :
    (b : Balance) (n : NormalBalance)
    → IsInt64 (net_of n b.posted_debits b.posted_credits)
    → IsInt64 (net_of n b.posted_debits b.posted_credits -ℤ b.held)
    → available b n ≡ net_of n b.posted_debits b.posted_credits -ℤ b.held
unfolding available
available_exact b n fits left =
    ap (λ m. wrap64 (m -ℤ b.held)) (posted_net_exact b n fits)
    ∙ wrap64_exact (net_of n b.posted_debits b.posted_credits -ℤ b.held) left
