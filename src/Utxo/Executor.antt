-- ===== src/Utxo/Executor.antt =====
-- UTXOExecutor and QueryExecutor (executor/utxo/executor/utxo_executor.cpp). The generated parsers
-- and printers are parameters; `none` is a null pointer.
use resilientdb.Common.{
  number_keys, text_keys, if◌then◌else◌, ℕ, String, Bool, Option, none, some, List, [],
}
use resilientdb.Common.Int.{pos, ℤ}
use resilientdb.Utxo.Wallet.{get_coin}
use resilientdb.Utxo.Mempool.{Utxo, get_range}
use resilientdb.Utxo.Transaction.{Transaction, add_transaction}

-- UTXOQuery; `none` for the end is -1.
pub record UtxoQuery : Type 0 where
  pub query_transaction : Bool
  pub end_id : Option ℕ
  pub num : ℕ
  pub address : String

pub record UtxoQueryResponse : Type 0 where
  pub utxos : List Utxo
  pub value : ℤ

module _ (verify : String → ℕ → String → String → Bool) (print : Option ℕ → String) where
  -- ExecuteData past the parsing; the id that is printed is `none` for -1. An assert that fails is
  -- `none` for the whole.
  unfoldable pub execute_utxo : Transaction → Option Utxo → Option (Transaction × Option String)
  execute_utxo t none = some (t, none)
  execute_utxo t (some utxo) = elim (add_transaction verify t utxo) [
    | none ↦ none
    | some (t', id) ↦ some (t', some (print id))
  ]

  -- ExecuteData.
  unfoldable pub execute_utxo_data :
      (String → Option Utxo) → Transaction → String → Option (Transaction × Option String)
  unfolding execute_utxo
  execute_utxo_data parse t request = execute_utxo t (parse request)

-- Query past the parsing.
unfoldable pub answer_query : Transaction → UtxoQuery → UtxoQueryResponse
answer_query t q =
    if q.query_transaction
    then record { utxos = get_range t.mempool q.end_id q.num; value = pos 0 }
    else record { utxos = []; value = get_coin t.wallet q.address }

unfoldable pub query_parsed :
    (UtxoQueryResponse → String) → Transaction → Option UtxoQuery → Option String
unfolding answer_query
query_parsed print t none = none
query_parsed print t (some q) = some (print (answer_query t q))

-- Query.
unfoldable pub query :
    (String → Option UtxoQuery)
    → (UtxoQueryResponse → String)
    → Transaction
    → String
    → Option String
unfolding query_parsed
query parse print t request = query_parsed print t (parse request)
