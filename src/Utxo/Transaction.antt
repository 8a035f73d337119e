-- ===== src/Utxo/Transaction.antt =====
-- Transaction (executor/utxo/manager/transaction.cpp). The verification of a signature,
-- utils::ECDSAVerifyString, is a parameter: of the address, the nonce, the key and the signature.
pub mod Spending
pub mod Inputs
pub mod Accepting
pub mod Balance
use resilientdb.Common.Int64.{int64}
use resilientdb.Common.{
  number_keys, text_keys, if◌then◌else◌, length, ◌==◌, ℕ, ◌+◌, String, Bool, true, false, not, ◌&&◌,
  Option, none, some, List, [], ◌∷◌,
}
use resilientdb.Common.Int.{ℤ, pos, ◌+ℤ◌, ◌-ℤ◌, ltb_ℤ}
use resilientdb.Utxo.Mempool.{
  TxIn, TxOut, Utxo, TxMempool, new_mempool, add_utxo, get_utxo, mark_spend,
}
use resilientdb.Utxo.Wallet.{Wallet, add_coin}

pub record Transaction : Type 0 where
  pub mempool : TxMempool
  pub wallet : Wallet

-- The loop over the outputs that adds their coins.
unfoldable pub add_outs : Wallet → List TxOut → Wallet
add_outs w [] = w
add_outs w (o ∷ os) = add_outs (add_coin w o.address o.value) os

-- The constructor: the genesis transactions. (Wallet::AddCoin always returns 0.)
unfoldable pub genesis : Transaction → List Utxo → Transaction
genesis t [] = t
genesis t (u ∷ us) =
    genesis (record { mempool = (add_utxo t.mempool u).0; wallet = add_outs t.wallet u.outs }) us

unfoldable pub new_transaction : List Utxo → Transaction
unfolding genesis
new_transaction us = genesis (record { mempool = new_mempool; wallet = [] }) us

-- The loop of GetInput: the outputs that the inputs name, or an error.
unfoldable pub with_output : Option TxOut → Option (List TxOut) → Option (List TxOut)
with_output none rest = none
with_output (some o) none = none
with_output (some o) (some os) = some (o ∷ os)

unfoldable pub fetch_inputs : TxMempool → String → List TxIn → Option (List TxOut)
unfolding with_output
fetch_inputs m address [] = some []
fetch_inputs m address (i ∷ is) =
    with_output (get_utxo m i.prev_id i.out_idx address) (fetch_inputs m address is)

-- `public_key` after the loop: the first key that is not empty.
unfoldable pub public_key : List TxOut → String
public_key [] = ""
public_key (o ∷ os) = if o.pub_key == "" then public_key os else o.pub_key

-- `verify_nonce` after the loop.
unfoldable pub nonce : List TxIn → ℕ
nonce [] = 0
nonce (i ∷ is) = i.prev_id + nonce is

-- The last loop: every output has the key.
unfoldable pub same_key : String → List TxOut → Bool
same_key key [] = true
same_key key (o ∷ os) = if o.pub_key == key then same_key key os else false

-- The two loops of VerifyUTXO, from the total so far.
unfoldable pub add_values : ℤ → List TxOut → ℤ
add_values total [] = total
add_values total (o ∷ os) = add_values (int64 (total +ℤ o.value)) os

unfoldable pub take_values : ℤ → List TxOut → ℤ
take_values total [] = total
take_values total (o ∷ os) = take_values (int64 (total -ℤ o.value)) os

-- VerifyUTXO: what goes in is more than what comes out.
unfoldable pub verify_utxo : Utxo → List TxOut → Bool
unfolding add_values take_values
verify_utxo u inputs = ltb_ℤ (pos 0) (take_values (add_values (pos 0) inputs) u.outs)

-- The loop of AddCoin: the outputs are marked, and their values added up, in any order as the sum
-- wraps around.
unfoldable pub spend_inputs : TxMempool → List TxIn → TxMempool × ℤ
spend_inputs m [] = (m, pos 0)
spend_inputs m (i ∷ is) =
    let (m', value) = mark_spend m i.prev_id i.out_idx in
    let (m'', total) = spend_inputs m' is in (m'', int64 (value +ℤ total))

-- `assert(value >= 0)` in this loop, for every input.
unfoldable pub assert_values : TxMempool → List TxIn → Bool
assert_values m [] = true
assert_values m (i ∷ is) =
    let (m', value) = mark_spend m i.prev_id i.out_idx in
    not (ltb_ℤ value (pos 0)) && assert_values m' is

-- AddCoin, where the asserts hold.
unfoldable pub add_coins : Transaction → Utxo → Transaction
unfolding add_outs
add_coins t u =
    let (m, total) = spend_inputs t.mempool u.ins in
    record {
      mempool = m;
      wallet = add_outs (add_coin t.wallet u.address (int64 (pos 0 -ℤ total))) u.outs;
    }

module _ (verify : String → ℕ → String → String → Bool) where
  -- GetInput, past the loop.
  unfoldable pub check_inputs : Utxo → List TxOut → Option (List TxOut)
  check_inputs u [] = none
  check_inputs u (o ∷ os) =
      let key = public_key (o ∷ os) in
      if u.sig == ""
      then none
      else if not (verify u.address (nonce u.ins) key u.sig)
      then none
      else if same_key key (o ∷ os)
      then some (o ∷ os)
      else none

  unfoldable pub check_found : Utxo → Option (List TxOut) → Option (List TxOut)
  unfolding check_inputs
  check_found u none = none
  check_found u (some os) = check_inputs u os

  -- GetInput.
  unfoldable pub get_input : TxMempool → Utxo → Option (List TxOut)
  unfolding check_found
  get_input m u =
      if length u.ins == 0 && u.address == "0000"
      then some []
      else check_found u (fetch_inputs m u.address u.ins)

  -- AddTransaction, once the inputs are there.
  unfoldable pub accept : Transaction → Utxo → List TxOut → Option (Transaction × Option ℕ)
  accept t u inputs =
      if not (verify_utxo u inputs)
      then some (t, none)
      else if assert_values t.mempool u.ins
      then (let t' = add_coins t u in
          let (m, id) = add_utxo t'.mempool u in some (record t' { mempool = m }, some id))
      else none

  unfoldable pub accept_found :
      Transaction → Utxo → Option (List TxOut) → Option (Transaction × Option ℕ)
  unfolding accept
  accept_found t u none = some (t, none)
  accept_found t u (some inputs) = accept t u inputs

  -- AddTransaction: the new state and the id, which is `none` for -1; or an assert stops the program.
  unfoldable pub add_transaction : Transaction → Utxo → Option (Transaction × Option ℕ)
  unfolding accept_found
  add_transaction t u = accept_found t u (get_input t.mempool u)
