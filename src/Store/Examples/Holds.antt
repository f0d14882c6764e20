-- ===== src/Store/Examples/Holds.antt =====
-- Holds on the ledger of Store.Examples: one is reserved, captured and released.
use ledgercore.Base.{
  to_micros, ◌≡◌, refl, codes, pos, ok, err, none, [], ◌∷◌, arith, false, ◌+ℤ◌, ◌-ℤ◌, wrap64,
  text_eq, Bool-cases, inl, inr, ◌==◌, ◌&&◌, IsInt64, ◌≤ℤ◌,
}
use ledgercore.Domain.{Hold, normal_debit, active, captured, released}
use ledgercore.Domain.Nets.{available, posted_net}
use ledgercore.Store.{invalid_state, Db, with_tenant_tx}
use ledgercore.Store.Balances.{
  balance_of, update_balance, upsert_balance, add_held, upsert_held, sub_held, release_held,
}
use ledgercore.Store.Holds.{
  lookup_hold, find_hold, get_hold_tx, insert_hold, reserve, write_hold, create_hold, update_holds,
  update_hold, captured_amount, finish_hold, capture_body, capture_hold, release_body, release_hold,
}
use ledgercore.Store.Reserved.{HoldsAgree}
use ledgercore.Store.Reservations.{its_balance, net_on, create_hold-HoldsAgree, create_hold-covered}
use ledgercore.Store.HoldEnds.{
  capture_hold-HoldsAgree, release_hold-HoldsAgree, capture_hold-once, release_hold-once,
}
use ledgercore.Store.Examples.{cash, empty, alone, hash_hold}

-- A balance of 500 on the account of cash.
abbrev funded : Db
funded = record empty {
  balances =
      record {
        account_id = 10;
        balance = record {
          asset = codes "USD";
          posted_debits = pos 500;
          posted_credits = pos 0;
          pending_debits = pos 0;
          pending_credits = pos 0;
          held = pos 0;
          version = pos 1;
        };
      }
      ∷ [];
}

funded-HoldsAgree : HoldsAgree funded
unfolding balance_of
funded-HoldsAgree = record {
  distinct = tt;
  held = λ account c. elim (Bool-cases ((10 == account) && text_eq (codes "USD") c)) [
    | inl own ↦ rw (own, balance_of)
    | inr other ↦ rw (other, balance_of)
  ];
}

abbrev reservation : Hold
reservation = record {
  id = 50;
  tenant_id = 1;
  ledger_id = 0;
  account_id = 10;
  idempotency_key = codes "h";
  amount = record { asset = codes "USD"; units = pos 300 };
  status = active;
  expires_at = 99_000;
  expires_at_provided = false;
  captured_transaction_id = none;
  metadata = [];
  created_at = 8_000;
}

abbrev after_hold : Db
unfolding create_hold write_hold lookup_hold available posted_net balance_of reserve insert_hold
    upsert_held upsert_balance add_held wrap64 text_eq ◌+ℤ◌ ◌-ℤ◌
after_hold = (create_hold hash_hold alone reservation funded).1

held_run :
    create_hold hash_hold alone reservation funded
    ≡ (ok (record reservation { ledger_id = 1 }, false), after_hold)
unfolding after_hold create_hold write_hold lookup_hold available posted_net balance_of reserve
    insert_hold upsert_held upsert_balance add_held wrap64 text_eq ◌+ℤ◌ ◌-ℤ◌
held_run = refl

after_hold-HoldsAgree : HoldsAgree after_hold
after_hold-HoldsAgree =
    create_hold-HoldsAgree hash_hold alone reservation funded after_hold refl funded-HoldsAgree
      funded-HoldsAgree held_run

create_hold-HoldsAgree_example : HoldsAgree after_hold
create_hold-HoldsAgree_example =
    create_hold-HoldsAgree hash_hold alone reservation funded after_hold refl funded-HoldsAgree
      funded-HoldsAgree held_run

funded_net : IsInt64 (net_on normal_debit (its_balance reservation funded))
unfolding balance_of text_eq ◌-ℤ◌
funded_net = (ground arith, ground arith)

funded_rest :
    IsInt64 (
      net_on normal_debit (its_balance reservation funded) -ℤ (its_balance reservation funded).held)
unfolding balance_of text_eq ◌-ℤ◌
funded_rest = (ground arith, ground arith)

create_hold-covered_example :
    ((its_balance reservation after_hold).posted_debits
      ≡ (its_balance reservation funded).posted_debits)
    × ((its_balance reservation after_hold).posted_credits
        ≡ (its_balance reservation funded).posted_credits)
    × ((its_balance reservation after_hold).held ≡ (its_balance reservation funded).held +ℤ pos 300)
    × ((its_balance reservation after_hold).held
        ≤ℤ net_on normal_debit (its_balance reservation after_hold))
create_hold-covered_example =
    create_hold-covered hash_hold alone reservation funded after_hold cash refl funded_net
      funded_rest held_run

abbrev after_capture : Db
unfolding after_hold capture_hold capture_body with_tenant_tx get_hold_tx find_hold captured_amount
    finish_hold update_hold update_holds release_held update_balance sub_held text_eq ◌+ℤ◌ ◌-ℤ◌
    create_hold write_hold lookup_hold available posted_net balance_of reserve insert_hold
    upsert_held upsert_balance add_held wrap64 to_micros
after_capture = (capture_hold 1 50 none none 12 after_hold).1

captured_run :
    capture_hold 1 50 none none 12 after_hold
    ≡ (ok (record reservation { ledger_id = 1; status = captured }), after_capture)
unfolding after_hold after_capture capture_hold capture_body with_tenant_tx get_hold_tx find_hold
    captured_amount finish_hold update_hold update_holds release_held update_balance sub_held
    text_eq ◌+ℤ◌ ◌-ℤ◌ create_hold write_hold lookup_hold available posted_net balance_of reserve
    insert_hold upsert_held upsert_balance add_held wrap64 to_micros
captured_run = refl

capture_hold-HoldsAgree_example : HoldsAgree after_capture
capture_hold-HoldsAgree_example =
    capture_hold-HoldsAgree 1 50 12 none none after_hold after_capture after_hold-HoldsAgree
      captured_run

capture_hold-once_example :
    (capture_hold 1 50 none none 13 after_capture ≡ (err invalid_state, after_capture))
    × (release_hold 1 50 13 after_capture ≡ (err invalid_state, after_capture))
capture_hold-once_example =
    capture_hold-once 1 50 12 13 none none none none after_hold after_capture captured_run

abbrev after_release : Db
unfolding after_hold release_hold release_body capture_hold capture_body with_tenant_tx get_hold_tx
    find_hold captured_amount finish_hold update_hold update_holds release_held update_balance
    sub_held text_eq ◌+ℤ◌ ◌-ℤ◌ create_hold write_hold lookup_hold available posted_net balance_of
    reserve insert_hold upsert_held upsert_balance add_held wrap64 to_micros
after_release = (release_hold 1 50 12 after_hold).1

released_run :
    release_hold 1 50 12 after_hold
    ≡ (ok (record reservation { ledger_id = 1; status = released }), after_release)
unfolding after_hold after_release release_hold release_body capture_hold capture_body
    with_tenant_tx get_hold_tx find_hold captured_amount finish_hold update_hold update_holds
    release_held update_balance sub_held text_eq ◌+ℤ◌ ◌-ℤ◌ create_hold write_hold lookup_hold
    available posted_net balance_of reserve insert_hold upsert_held upsert_balance add_held wrap64
    to_micros
released_run = refl

release_hold-HoldsAgree_example : HoldsAgree after_release
release_hold-HoldsAgree_example =
    release_hold-HoldsAgree 1 50 12 after_hold after_release after_hold-HoldsAgree released_run

release_hold-once_example :
    (capture_hold 1 50 none none 13 after_release ≡ (err invalid_state, after_release))
    × (release_hold 1 50 13 after_release ≡ (err invalid_state, after_release))
release_hold-once_example =
    release_hold-once 1 50 12 13 none none after_hold after_release released_run
