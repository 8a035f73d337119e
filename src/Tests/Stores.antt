-- ===== src/Tests/Stores.antt =====
-- The versioned store and the commands on it (chain/storage, executor/kv).
use resilientdb.Common.{
  number_keys, text_keys, if◌then◌else◌, length, take, ◌==◌, ℕ, String, ◌≡◌, refl, ◌&&◌, Option,
  some, List, [], ◌∷◌, ◌++◌,
}
use resilientdb.Common.Maps.{lookup, insert}
use resilientdb.Messages.{success, failure}
use resilientdb.Storage.{
  MemoryDb, new_memory_db, is_newest, list_of, set_value_with_version, get_value_with_version,
  get_history, get_top_history,
}
use resilientdb.Storage.History.{
  Versions, history, write_all, write_all-Versions, new_memory_db-Versions,
}
use resilientdb.Storage.Writes.{set_value_with_version_lem, stale_write-refused}
use resilientdb.Storage.Reads.{within, get_history_lem, get_top_history_lem, get_value-set_value}
use resilientdb.Kv.{set_with_version_cmd, KvRequest, execute_data, execute_batch}
use resilientdb.Kv.Batches.{execute_batch-append}

abbrev writes : List (String × String × ℕ)
writes = ("k", "y", 1) ∷ ("j", "z", 0) ∷ ("k", "w", 1) ∷ ("k", "v", 2) ∷ []

abbrev db : MemoryDb
db = new_memory_db

stale_write-refused_example :
    set_value_with_version (write_all (set_value_with_version db "k" "x" 0).0 writes) "k" "u" 0
    ≡ (write_all (set_value_with_version db "k" "x" 0).0 writes, failure)
unfolding new_memory_db set_value_with_version is_newest list_of lookup
stale_write-refused_example =
    stale_write-refused db "k" "x" "u" 0 writes new_memory_db-Versions refl

get_value-set_value_example :
    get_value_with_version (write_all (set_value_with_version db "k" "x" 0).0 writes) "k" 1
    ≡ ("x", 1)
unfolding new_memory_db set_value_with_version is_newest list_of lookup
get_value-set_value_example = get_value-set_value db "k" "x" 0 writes new_memory_db-Versions refl

histories :
    history (write_all (set_value_with_version db "k" "x" 0).0 writes) "k"
    ≡ ("v", 3) ∷ ("y", 2) ∷ ("x", 1) ∷ []
unfolding new_memory_db write_all set_value_with_version is_newest list_of lookup insert history
histories = refl

set_value_with_version_example :
    let (db', ret) = set_value_with_version db "k" "x" 0 in
    let newest = length (history db "k") == 0 in
    (ret ≡ (if newest then success else failure))
    × ((j : String)
        → history db' j ≡ (if newest && "k" == j then ("x", 1) ∷ history db "k" else history db j))
set_value_with_version_example = set_value_with_version_lem db "k" "x" 0 new_memory_db-Versions

stored-Versions : Versions (write_all db writes)
stored-Versions = write_all-Versions db writes new_memory_db-Versions

write_all-Versions_example : Versions (write_all db writes)
write_all-Versions_example = write_all-Versions db writes new_memory_db-Versions

get_history_example :
    get_history (write_all db writes) "k" 1 2 ≡ within 1 2 (history (write_all db writes) "k")
get_history_example = get_history_lem (write_all db writes) "k" 1 2 stored-Versions

get_top_history_example :
    get_top_history (write_all db writes) "k" 2 ≡ take 2 (history (write_all db writes) "k")
get_top_history_example = get_top_history_lem (write_all db writes) "k" 2

-- A parser that takes every text as a write of version 0 to the key of that name.
abbrev parse : String → Option KvRequest
parse s = some (record {
  cmd = set_with_version_cmd;
  key = s;
  value = "x";
  version = 0;
  min_key = "";
  max_key = "";
  min_version = 0;
  max_version = 0;
  top_number = 0;
})

execute_batch-append_example :
    let run = execute_batch (execute_data parse (λ r. some r.value)) in
    let (db', responses) = run db ("k" ∷ "j" ∷ []) in
    (length responses ≡ 2)
    × Versions db'
    × (run db ("k" ∷ "j" ∷ "k" ∷ [])
        ≡ ((run db' ("k" ∷ [])).0, responses ++ (run db' ("k" ∷ [])).1))
execute_batch-append_example =
    execute_batch-append parse (λ r. some r.value) db ("k" ∷ "j" ∷ []) ("k" ∷ [])
      new_memory_db-Versions
