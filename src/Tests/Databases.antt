-- ===== src/Tests/Databases.antt =====
-- A small database under ResLevelDB (chain/storage/leveldb.cpp): it is the list of its puts, and the
-- text of a history is the history.
use resilientdb.Messages.{success}
use resilientdb.Common.{
  text_keys, refl, arith, length, ◌++◌, some, none, [], ◌<◌, ◌∷◌, String, ℕ, ◌≡◌, List,
}
use resilientdb.Storage
use resilientdb.Storage.{Versioned, new_memory_db}
use resilientdb.LevelDb.Batched.{write_twice, batched_write-lost, last_put-append}
use resilientdb.LevelDb.Refinement.{leveldb-memory_db, memory_writes}
use resilientdb.LevelDb.{
  get_history, get_value_with_version, get_top_history, set_value, get_value,
  set_value_with_version, set_at, written, flush, last_version, history, Backend, Batch, ResLevelDb,
  last_put, write_each,
}

get_after_write :
    (d d' b : Batch (List Versioned)) (key : String)
    → some (d ++ b) ≡ some d'
    → last_put key d' none ≡ last_put key b (last_put key d none)
get_after_write d d' b key e = ground (arith, e, last_put-append key d b none)

abbrev backend : Backend
backend = record {
  Text = List Versioned;
  empty_text = [];
  Db = Batch (List Versioned);
  get = λ d key. last_put key d none;
  write = λ d b. some (d ++ b);
  items = λ d. d;
  approximate_size = length;
  parse_history = some;
  print_history = λ h. h;
  get-write = get_after_write;
  parse-print = λ h. refl;
  parse_empty = refl;
}

abbrev opened_with : ℕ → ResLevelDb backend
opened_with limit = record { db = []; batch = []; write_batch_size = limit }

-- Two versions of one key, a stale write, and another key.
abbrev writes : List (String × String × ℕ)
writes = ("a", "x", 0) ∷ ("a", "y", 1) ∷ ("a", "z", 1) ∷ ("b", "u", 0) ∷ []

leveldb-memory_db_example :
    let (s', codes) = write_each backend (opened_with 1) writes in
    let (m, codes') = memory_writes new_memory_db writes in
    (codes ≡ codes')
    × ((key : String) (version : ℕ)
        → 0 < version
        → get_value_with_version backend s' key version
          ≡ Storage.get_value_with_version m key version)
    × ((key : String) (lo hi : ℕ)
        → get_history backend s' key lo hi ≡ Storage.get_history m key lo hi)
    × ((key : String) (top : ℕ)
        → 0 < top
        → get_top_history backend s' key top ≡ Storage.get_top_history m key top)
unfolding last_put
leveldb-memory_db_example =
    leveldb-memory_db backend (opened_with 1) writes refl (λ key. refl)
      (λ key value. (omega arith, λ d. (d ++ (key, value) ∷ [], refl)))

batched_write-lost_example :
    ((write_twice backend (opened_with 5) "a" "x" "y" 0).1 ≡ success)
    × ((write_twice backend (opened_with 5) "a" "x" "y" 0).2 ≡ success)
    × (history backend (flush backend (write_twice backend (opened_with 5) "a" "x" "y" 0).0).0 "a"
        ≡ some (("y", 1) ∷ []))
unfolding history get_value last_version last_put flush written set_value_with_version set_at
    set_value
batched_write-lost_example =
    batched_write-lost backend (opened_with 5) "a" "x" "y" 0 [] refl refl (omega arith)
      (omega arith) refl
