-- ===== src/Service/Examples.antt =====
-- Instances of the theorems of the service, on one empty ledger.
use ledgercore.Base.{ℕ, ◌+◌, refl, codes, pos, some, none, Option, [], ◌∷◌, Text}
use ledgercore.Domain.{
  Ledger, Account, asset, liability, normal_debit, normal_credit, debit, credit, other_status,
}
use ledgercore.Domain.Balanced.{debits_in, credits_in}
use ledgercore.Store.{Db}
use ledgercore.Store.Balances.{balance_of}
use ledgercore.Store.Balances.Columns.{debits_at, credits_at}
use ledgercore.Store.Transactions.{CanonicalTransaction}
use ledgercore.Store.Holds.{CanonicalHold}
use ledgercore.Store.Invariant.{IsConsistent}
use ledgercore.Store.Reserved.{HoldsAgree}
use ledgercore.Service.{
  CreateTransactionInput, service_create_transaction, service_create_transaction-IsConsistent,
}
use ledgercore.Service.Holds.{CreateHoldInput, service_create_hold, service_create_hold-HoldsAgree}

abbrev books : Ledger
books = record {
  id = 1;
  tenant_id = 1;
  name = codes "b";
  description = [];
  environment = codes "live";
  metadata = [];
  created_at = 1;
}

abbrev cash : Account
cash = record {
  id = 10;
  tenant_id = 1;
  ledger_id = 1;
  name = codes "c";
  path = codes "c";
  type = asset;
  normal_balance = normal_debit;
  status = codes "active";
  metadata = [];
  created_at = 1;
}

abbrev empty : Db
empty = record {
  ledgers = books ∷ [];
  accounts =
      cash
      ∷ record cash { id = 20; path = codes "d"; type = liability; normal_balance = normal_credit }
      ∷ [];
  transactions = [];
  postings = [];
  balances = [];
  holds = [];
  keys = [];
  outbox = [];
}

empty-IsConsistent : IsConsistent empty
unfolding balance_of debits_at credits_at debits_in credits_in
empty-IsConsistent = record {
  owned = tt;
  directed = tt;
  rowed = tt;
  posted = λ account c. refl;
  pending = λ account c. refl;
}

empty-HoldsAgree : HoldsAgree empty
unfolding balance_of
empty-HoldsAgree = record { distinct = tt; held = λ account c. refl }

abbrev hash_transaction : CanonicalTransaction → Text
hash_transaction c = codes "t"

abbrev hash_hold : CanonicalHold → Text
hash_hold c = codes "h"

abbrev fresh : ℕ → Option ℕ
fresh i = some (i + 200)

abbrev alone : Db → Db
alone db = db

abbrev payment : CreateTransactionInput
payment = record {
  ledger_id = 1;
  idempotency_key = codes "k";
  reference = [];
  description = [];
  status = other_status [];
  effective_at = none;
  metadata = [];
  postings =
      record {
        account_id = 10;
        direction = debit;
        amount = record { asset = codes "USD"; units = pos 5 };
      }
      ∷ record {
        account_id = 20;
        direction = credit;
        amount = record { asset = codes "USD"; units = pos 5 };
      }
      ∷ [];
}

service_create_transaction-IsConsistent_example :
    IsConsistent (service_create_transaction hash_transaction alone fresh 7 1 payment empty).1
service_create_transaction-IsConsistent_example =
    service_create_transaction-IsConsistent hash_transaction alone fresh 7 1 payment empty
      (service_create_transaction hash_transaction alone fresh 7 1 payment empty).1
      empty-IsConsistent empty-IsConsistent refl

abbrev reservation : CreateHoldInput
reservation = record {
  account_id = 10;
  ledger_id = 0;
  idempotency_key = codes "h";
  amount = record { asset = codes "USD"; units = pos 5 };
  expires_at = none;
  metadata = [];
}

service_create_hold-HoldsAgree_example :
    HoldsAgree (service_create_hold hash_hold alone (some 9) 7 1 reservation empty).1
service_create_hold-HoldsAgree_example =
    service_create_hold-HoldsAgree hash_hold alone (some 9) 7 1 reservation empty
      (service_create_hold hash_hold alone (some 9) 7 1 reservation empty).1 empty-HoldsAgree
      empty-HoldsAgree refl
