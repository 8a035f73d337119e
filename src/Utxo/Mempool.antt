-- ===== src/Utxo/Mempool.antt =====
-- TxMempool (executor/utxo/manager/tx_mempool.cpp) and the messages of proto/utxo/utxo.proto. An
-- int64_t value is an integer; ids and indices are ℕ (a negative id is never found; a negative
-- index passes the code's bound and reads out of range, which is undefined).
pub mod Holdings
use resilientdb.Common.{
  number_keys, text_keys, if◌then◌else◌, get_elem?, set, ◌==◌, ℕ, zero, suc, ◌+◌, ◌-◌, String, Bool,
  true, not, Option, none, some, List, [], ◌∷◌,
}
use resilientdb.Common.Int.{ℤ, negsuc}
use resilientdb.Common.Maps.{Map, lookup, insert}

-- UTXOIn.
pub record TxIn : Type 0 where
  pub prev_id : ℕ
  pub out_idx : ℕ

-- UTXOOut.
pub record TxOut : Type 0 where
  pub address : String
  pub value : ℤ
  pub spent : Bool
  pub pub_key : String

-- UTXO.
pub record Utxo : Type 0 where
  pub ins : List TxIn
  pub outs : List TxOut
  pub sig : String
  pub address : String
  pub transaction_id : ℕ

pub record TxMempool : Type 0 where
  pub id : ℕ
  pub txs : Map ℕ Utxo

unfoldable pub new_mempool : TxMempool
new_mempool = record { id = 0; txs = [] }

-- AddUTXO: the mempool and the id.
unfoldable pub add_utxo : TxMempool → Utxo → TxMempool × ℕ
add_utxo m utxo = (record { id = m.id + 1; txs = insert m.id utxo m.txs }, m.id)

-- The output of an id and an index, if both are there: the first two tests of GetUTXO,
-- GetUTXOOutValue and MarkSpend.
unfoldable pub out_of : Option Utxo → ℕ → Option TxOut
out_of none idx = none
out_of (some u) idx = get_elem? u.outs idx

unfoldable pub fetch : Map ℕ Utxo → ℕ → ℕ → Option TxOut
unfolding out_of
fetch txs id idx = out_of (lookup id txs) idx

-- The two tests after these in GetUTXO.
unfoldable pub usable : String → TxOut → Option TxOut
usable address o = if o.spent then none else if not (o.address == address) then none else some o

unfoldable pub usable_in : String → Option TxOut → Option TxOut
unfolding usable
usable_in address none = none
usable_in address (some o) = usable address o

-- GetUTXO of one output; `none` is an error.
unfoldable pub get_utxo : TxMempool → ℕ → ℕ → String → Option TxOut
unfolding usable_in
get_utxo m id idx address = usable_in address (fetch m.txs id idx)

-- GetUTXOOutValue: -1 is an error.
unfoldable pub get_utxo_out_value : TxMempool → ℕ → ℕ → String → ℤ
unfolding get_utxo
get_utxo_out_value m id idx address = elim (get_utxo m id idx address) [
  | none ↦ negsuc 0
  | some o ↦ o.value
]

unfoldable pub spend : TxOut → TxOut
spend o = record o { spent = true }

-- MarkSpend with the transaction and the output, if they are there: the mempool and the value; -1
-- is an error, and changes nothing.
unfoldable pub mark_out : TxMempool → ℕ → ℕ → Utxo → Option TxOut → TxMempool × ℤ
unfolding spend
mark_out m id idx u none = (m, negsuc 0)
mark_out m id idx u (some o) =
    (record m { txs = insert id (record u { outs = set u.outs idx (spend o) }) m.txs }, o.value)

unfoldable pub mark_in : TxMempool → ℕ → ℕ → Option Utxo → TxMempool × ℤ
unfolding mark_out
mark_in m id idx none = (m, negsuc 0)
mark_in m id idx (some u) = mark_out m id idx u (get_elem? u.outs idx)

-- MarkSpend.
unfoldable pub mark_spend : TxMempool → ℕ → ℕ → TxMempool × ℤ
unfolding mark_in
mark_spend m id idx = mark_in m id idx (lookup id m.txs)

-- The loop of GetUTXO of a range, from `end` down, and what the reversal at its end makes of it.
unfoldable pub get_range_from : TxMempool → ℕ → ℕ → List Utxo → List Utxo
get_range_from m end_ zero resp = resp
get_range_from m end_ (suc num) resp = elim (lookup end_ m.txs) [
  | none ↦ resp
  | some u ↦
      let found = record u { transaction_id = end_ } ∷ resp in
      elim end_ [ zero ↦ found | suc e ↦ get_range_from m e num found ]
]

-- GetUTXO of a range; `none` for the end is -1, the greatest id.
unfoldable pub get_range : TxMempool → Option ℕ → ℕ → List Utxo
unfolding get_range_from
get_range m none num = get_range_from m (m.id - 1) num []
get_range m (some end_) num = get_range_from m end_ num []
