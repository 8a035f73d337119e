-- ===== src/Tests/Coins.antt =====
-- A ledger with one genesis output (executor/utxo/manager).
use resilientdb.Common.Int64.{
  int64, int64, int64, int64, int64, int64, int64, int64, int64, int64, int64, int64, int64, int64,
  int64, int64, int64, int64, int64, int64, int64, int64, int64, int64, int64, int64, int64, int64,
  int64, int64, int64, int64, int64, int64, int64, int64, int64, int64, int64, int64, int64, int64,
  int64, int64, int64, int64, int64, int64, int64, int64, int64, int64, int64, int64, int64, int64,
  int64, bits_of, int64, int64, int64,
}
use resilientdb.Common.{
  Option, number_keys, text_keys, ℕ, String, ◌≡◌, refl, Bool, true, false, none, some, [], ◌∷◌,
}
use resilientdb.Common.Int.{pos, ◌+ℤ◌, ◌-ℤ◌}
use resilientdb.Common.Maps.{lookup, insert}
use resilientdb.Utxo.Wallet.{get_coin, add_coin}
use resilientdb.Utxo.Mempool.{
  TxOut, Utxo, new_mempool, add_utxo, out_of, fetch, usable, usable_in, get_utxo, spend, mark_out,
  mark_in, mark_spend,
}
use resilientdb.Utxo.Transaction.{
  assert_values, Transaction, add_values, take_values, add_outs, genesis, new_transaction,
  with_output, fetch_inputs, public_key, nonce, same_key, verify_utxo, spend_inputs, add_coins,
  check_inputs, check_found, get_input, accept, accept_found, add_transaction,
}
use resilientdb.Utxo.Transaction.Accepting.{Balanced}
use resilientdb.Utxo.Transaction.Balance.{add_all, add_all-Balanced}

abbrev any_key : String → ℕ → String → String → Bool
any_key address nonce key sig = true

abbrev output : String → ℕ → TxOut
output address value = record { address = address; value = pos value; spent = false; pub_key = "k" }

abbrev first : Utxo
first = record { ins = []; outs = output "a" 10 ∷ []; sig = ""; address = ""; transaction_id = 0 }

abbrev payment : Utxo
payment = record {
  ins = record { prev_id = 0; out_idx = 0 } ∷ [];
  outs = output "b" 3 ∷ output "a" 6 ∷ [];
  sig = "s";
  address = "a";
  transaction_id = 0;
}

abbrev twice : Utxo
twice = record payment {
  ins = record { prev_id = 0; out_idx = 0 } ∷ record { prev_id = 0; out_idx = 0 } ∷ [];
  outs = output "b" 15 ∷ [];
}

-- Its outputs are worth far more than 10, but the total that VerifyUTXO looks at wraps around to 9.
abbrev overflowing : Utxo
overflowing = record payment {
  outs = output "b" 9223372036854775807 ∷ output "b" 9223372036854775807 ∷ output "b" 3 ∷ [];
}

program : Unit {0}
unfolding add_transaction get_input fetch_inputs with_output get_utxo usable_in usable fetch out_of
    check_found check_inputs public_key nonce same_key accept_found accept verify_utxo add_values
    take_values assert_values int64 bits_of add_coins spend_inputs mark_spend mark_in mark_out spend
    add_utxo add_outs add_coin get_coin new_transaction genesis new_mempool lookup insert ◌+ℤ◌ ◌-ℤ◌
    add_all
program = tt

abbrev opened : Transaction
opened = new_transaction (first ∷ [])

-- The state after a transaction, and the id.
abbrev after : Utxo → Transaction × Option ℕ
after u = elim (add_transaction any_key opened u) [ none ↦ (opened, none) | some r ↦ r ]

paid :
    let (t, id) = after payment in
    (id ≡ some 1) × (get_coin t.wallet "a" ≡ pos 6) × (get_coin t.wallet "b" ≡ pos 3)
unfolding program
paid = (refl, refl, refl)

-- An output that is named twice pays twice.
paid_twice : let (t, id) = after twice in (id ≡ some 1) × (get_coin t.wallet "b" ≡ pos 15)
unfolding program
paid_twice = (refl, refl)

-- A total that wraps around is let pass, and the outputs are worth more than the inputs.
overflow_accepted :
    ((after overflowing).1 ≡ some 1)
    × ((take_values (add_values (pos 0) (output "a" 10 ∷ [])) overflowing.outs) ≡ pos 9)
unfolding program
overflow_accepted = (refl, refl)

-- The ledger after two payments, of which the second is refused.
abbrev after_two : Transaction
after_two = elim (add_all any_key opened (payment ∷ payment ∷ [])) [ none ↦ opened | some t ↦ t ]

add_all-Balanced_example : Balanced after_two
unfolding program
add_all-Balanced_example =
    add_all-Balanced any_key (first ∷ []) (payment ∷ payment ∷ []) {t = after_two} ((refl, tt), tt)
      (((tt, tt), (refl, (refl, tt))), (((tt, tt), (refl, (refl, tt))), tt)) refl
