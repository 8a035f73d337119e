-- ===== src/Kv.antt =====
-- KVExecutor (executor/kv/kv_executor.cpp), the messages of proto/kv/kv.proto, and
-- TransactionManager::ExecuteBatch (executor/common/transaction_manager.cpp). The parser and the
-- printer of the messages, which protoc generates, are parameters.
pub mod Batches
use resilientdb.Common.{number_keys, text_keys, ℕ, String, Option, none, some, List, [], ◌∷◌}
use resilientdb.Common.Maps.{Map}
use resilientdb.Storage.{
  Versioned, MemoryDb, set_value, get_value, get_all_values, get_range, set_value_with_version,
  get_value_with_version, get_all_items, get_key_range, get_history, get_top_history,
}

-- KVRequest::CMD.
pub data Cmd : Type 0 where
  no_cmd set_cmd get_cmd get_all_values_cmd get_range_cmd set_with_version_cmd : Cmd
  get_with_version_cmd get_all_items_cmd get_key_range_cmd get_history_cmd get_top_cmd : Cmd

pub record KvRequest : Type 0 where
  pub cmd : Cmd
  pub key : String
  pub value : String
  pub version : ℕ
  pub min_key : String
  pub max_key : String
  pub min_version : ℕ
  pub max_version : ℕ
  pub top_number : ℕ

pub record Item : Type 0 where
  pub key : String
  pub value_info : Versioned

pub record KvResponse : Type 0 where
  pub value : String
  pub value_info : Option Versioned
  pub items : List Item

abbrev pub empty_response : KvResponse
empty_response = record { value = ""; value_info = none; items = [] }

unfoldable pub with_value : String → KvResponse
with_value v = record { value = v; value_info = none; items = [] }

unfoldable pub with_info : Versioned → KvResponse
with_info v = record { value = ""; value_info = some v; items = [] }

unfoldable pub with_items : List Item → KvResponse
with_items is = record { value = ""; value_info = none; items = is }

-- The loops of GetAllItems and GetKeyRange, and of GetHistory and GetTopHistory.
unfoldable pub items_of : Map String Versioned → List Item
items_of [] = []
items_of ((k, v) ∷ m) = record { key = k; value_info = v } ∷ items_of m

unfoldable pub items_at : String → List Versioned → List Item
items_at key [] = []
items_at key (v ∷ vs) = record { key = key; value_info = v } ∷ items_at key vs

-- The chain of tests in ExecuteData, and the methods that it calls.
unfoldable pub run_cmd : MemoryDb → KvRequest → Cmd → MemoryDb × KvResponse
unfolding with_value with_info with_items items_of items_at
run_cmd db r no_cmd = (db, empty_response)
run_cmd db r set_cmd = (set_value db r.key r.value, empty_response)
run_cmd db r get_cmd = (db, with_value (get_value db r.key))
run_cmd db r get_all_values_cmd = (db, with_value (get_all_values db))
run_cmd db r get_range_cmd = (db, with_value (get_range db r.key r.value))
run_cmd db r set_with_version_cmd =
    ((set_value_with_version db r.key r.value r.version).0, empty_response)
run_cmd db r get_with_version_cmd = (db, with_info (get_value_with_version db r.key r.version))
run_cmd db r get_all_items_cmd = (db, with_items (items_of (get_all_items db)))
run_cmd db r get_key_range_cmd = (db, with_items (items_of (get_key_range db r.min_key r.max_key)))
run_cmd db r get_history_cmd =
    (db, with_items (items_at r.key (get_history db r.key r.min_version r.max_version)))
run_cmd db r get_top_cmd = (db, with_items (items_at r.key (get_top_history db r.key r.top_number)))

-- ExecuteData past the parsing; `none` is a null pointer.
unfoldable pub execute_parsed :
    (KvResponse → Option String) → MemoryDb → Option KvRequest → MemoryDb × Option String
unfolding run_cmd
execute_parsed print db none = (db, none)
execute_parsed print db (some r) = let (db', response) = run_cmd db r r.cmd in (db', print response)

-- ExecuteData.
unfoldable pub execute_data :
    (String → Option KvRequest)
    → (KvResponse → Option String)
    → MemoryDb
    → String
    → MemoryDb × Option String
unfolding execute_parsed
execute_data parse print db request = execute_parsed print db (parse request)

-- `*response`, after the test for a null pointer in ExecuteBatch.
unfoldable pub or_empty : Option String → String
or_empty none = ""
or_empty (some s) = s

-- ExecuteBatch of a manager with the state S.
unfoldable pub execute_batch {ℓ} :
    {S : Type ℓ} → (S → String → S × Option String) → S → List String → S × List String
unfolding or_empty
execute_batch f s [] = (s, [])
execute_batch f s (r ∷ rs) =
    let (s', response) = f s r in
    let (s'', responses) = execute_batch f s' rs in (s'', or_empty response ∷ responses)
