-- ===== src/Kv/Batches.antt =====
-- What a batch of commands does to the store (executor/kv/kv_executor.cpp,
-- executor/common/transaction_manager.cpp).
use resilientdb.Common.{
  number_keys, text_keys, length, suc, String, ◌≡◌, refl, ap, Option, List, [], ◌∷◌, ◌++◌, none,
  some,
}
use resilientdb.Storage.{MemoryDb, set_value}
use resilientdb.Storage.History.{Versions, set_value_with_version-Versions}
use resilientdb.Kv.{
  no_cmd, set_cmd, get_cmd, get_all_values_cmd, get_range_cmd, set_with_version_cmd,
  get_with_version_cmd, get_all_items_cmd, get_key_range_cmd, get_history_cmd, get_top_cmd, Cmd,
  KvRequest, KvResponse, run_cmd, execute_data, execute_batch, execute_parsed,
}

run_cmd-Versions :
    (db : MemoryDb) (r : KvRequest) (c : Cmd) → Versions db → Versions (run_cmd db r c).0
unfolding run_cmd set_value
run_cmd-Versions db r no_cmd f = f
run_cmd-Versions db r set_cmd f = f
run_cmd-Versions db r get_cmd f = f
run_cmd-Versions db r get_all_values_cmd f = f
run_cmd-Versions db r get_range_cmd f = f
run_cmd-Versions db r set_with_version_cmd f =
    set_value_with_version-Versions db r.key r.value r.version f
run_cmd-Versions db r get_with_version_cmd f = f
run_cmd-Versions db r get_all_items_cmd f = f
run_cmd-Versions db r get_key_range_cmd f = f
run_cmd-Versions db r get_history_cmd f = f
run_cmd-Versions db r get_top_cmd f = f

execute_parsed-Versions :
    (print : KvResponse → Option String) (db : MemoryDb) (o : Option KvRequest)
    → Versions db
    → Versions (execute_parsed print db o).0
unfolding execute_parsed
execute_parsed-Versions print db none f = f
execute_parsed-Versions print db (some r) f = run_cmd-Versions db r r.cmd f

execute_data-Versions :
    (parse : String → Option KvRequest) (print : KvResponse → Option String) (db : MemoryDb)
    (request : String)
    → Versions db
    → Versions (execute_data parse print db request).0
unfolding execute_data
execute_data-Versions parse print db request = execute_parsed-Versions print db (parse request)

-- A batch of requests gives one response for each request, in a database where the versions of
-- every key are counted they stay so, whatever the requests are, and a batch that is cut in two
-- and executed part by part leaves the same database and gives the same responses.
pub execute_batch-append :
    (parse : String → Option KvRequest) (print : KvResponse → Option String) (db : MemoryDb)
    (rs ss : List String)
    → Versions db
    → let run = execute_batch (execute_data parse print) in
      let (db', responses) = run db rs in
      (length responses ≡ length rs)
      × Versions db'
      × (run db (rs ++ ss) ≡ ((run db' ss).0, responses ++ (run db' ss).1))
unfolding execute_batch
execute_batch-append parse print db [] ss f = (refl, f, refl)
execute_batch-append parse print db (r ∷ rs) ss f =
    let db' = (execute_data parse print db r).0 in
    let (n, v, e) =
      execute_batch-append parse print db' rs ss (execute_data-Versions parse print db r f) in
    (ap suc n, v, rw e refl)
