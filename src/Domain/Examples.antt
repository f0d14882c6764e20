-- ===== src/Domain/Examples.antt =====
-- Instances of the theorems of the domain.
use ledgercore.Base.{
  ℕ, ◌+◌, ◌+ℤ◌, wrap64, text_eq, ◌≡◌, ◌↔◌, refl, codes, pos, ok, none, some, Option, [], ◌∷◌, Text,
  arith, true,
}
use mathlib.Core.List.{Permᴰ}
use ledgercore.Domain.{Posting, Transaction, debit, credit, posted}
use ledgercore.Domain.Postings.{
  validate_balanced, sum_sides, add_posting, add_side, accumulate, current, lookup, insert,
  check_sides,
}
use ledgercore.Money.{add, validate_asset_code}
use ledgercore.Domain.Balanced.{IsBalanced, debits_in, credits_in}
use ledgercore.Domain.Balanced.Verdict.{validate_balanced_iff}
use ledgercore.Domain.Order.{validate_balanced-perm}
use ledgercore.Domain.Reversal.{reverse, reversal_of, mirror}
use ledgercore.Domain.Mirror.{of_account, reverse_compensates}

abbrev cash : Posting
cash = record {
  id = 1;
  account_id = 10;
  direction = debit;
  amount = record { asset = codes "USD"; units = pos 500 };
}

abbrev deposit : Posting
deposit = record {
  id = 2;
  account_id = 20;
  direction = credit;
  amount = record { asset = codes "USD"; units = pos 500 };
}

abbrev entry : Transaction
entry = record {
  id = 100;
  tenant_id = 1;
  ledger_id = 1;
  reference = codes "r";
  description = [];
  idempotency_key = codes "k";
  status = posted;
  effective_at = 7;
  effective_at_provided = true;
  posted_at = some 7;
  reversed_by_id = none;
  reverses_id = none;
  metadata = [];
  postings = cash ∷ deposit ∷ [];
  created_at = 7;
}

entry_balanced : validate_balanced (cash ∷ deposit ∷ []) ≡ ok tt
unfolding validate_balanced sum_sides add_posting add_side accumulate current lookup insert
    check_sides add validate_asset_code wrap64 ◌+ℤ◌ text_eq
entry_balanced = refl

validate_balanced_iff_example :
    (validate_balanced (cash ∷ deposit ∷ []) ≡ ok tt) ↔ IsBalanced (cash ∷ deposit ∷ [])
validate_balanced_iff_example =
    validate_balanced_iff (cash ∷ deposit ∷ []) (ground arith, (ground arith, tt))

validate_balanced-perm_example : validate_balanced (deposit ∷ cash ∷ []) ≡ ok tt
validate_balanced-perm_example =
    validate_balanced-perm (cash ∷ deposit ∷ []) (deposit ∷ cash ∷ []) ∣ Permᴰ.swap refl refl ∣₁
      (ground arith, (ground arith, tt)) entry_balanced

abbrev uuid_string : ℕ → Text
uuid_string n = codes "u"

abbrev fresh : ℕ → Option ℕ
fresh i = some (i + 200)

reversed_entry :
    reverse uuid_string fresh entry 300 9
    ≡ ok (
        reversal_of uuid_string entry 300 9 (
          record cash { id = 200; direction = credit }
          ∷ record deposit { id = 201; direction = debit }
          ∷ []))
unfolding reverse mirror
reversed_entry = refl

reverse_compensates_example :
    (validate_balanced (
        record cash { id = 200; direction = credit }
        ∷ record deposit { id = 201; direction = debit }
        ∷ [])
      ≡ ok tt)
    × (◌≡◌ {A = Option ℕ} (some 100) (some 100))
    × (posted ≡ posted)
    × (◌≡◌ {A = Option ℕ} none none)
    × ((account : ℕ) (a : Text)
        → (debits_in a (
              of_account account (
                record cash { id = 200; direction = credit }
                ∷ record deposit { id = 201; direction = debit }
                ∷ []))
            ≡ credits_in a (of_account account entry.postings))
          × (credits_in a (
                of_account account (
                  record cash { id = 200; direction = credit }
                  ∷ record deposit { id = 201; direction = debit }
                  ∷ []))
              ≡ debits_in a (of_account account entry.postings)))
reverse_compensates_example =
    reverse_compensates uuid_string fresh entry 300 9 (ground arith, (ground arith, tt))
      entry_balanced reversed_entry
