-- ===== src/Execution/DuplicateManager.antt =====
-- DuplicateManager (platform/consensus/execution/duplicate_manager.{h,cpp}). A time is the
-- argument `now`, which GetCurrentTime gives the code; a round of the thread is a call with the
-- time that it has counted up to. Sums of times do not wrap: a uint64_t of microseconds.
pub mod Window
use resilientdb.Common.{
  number_keys, text_keys, ltb, if◌then◌else◌, ℕ, ◌+◌, String, Bool, true, false, none, some, List,
  [], ◌∷◌, ◌++◌,
}
use resilientdb.Common.Maps.{Map, lookup, insert, erase, member, add, remove}

pub record DuplicateManager : Type 0 where
  pub proposed_hash_set : List String
  pub executed_hash_set : List String
  -- the queues, from the front on
  pub proposed_hash_time_queue : List (String × ℕ)
  pub executed_hash_time_queue : List (String × ℕ)
  pub executed_hash_seq : Map String ℕ
  pub frequency_useconds : ℕ
  pub window_useconds : ℕ

-- The constructor.
unfoldable pub new_duplicate_manager : ℕ → DuplicateManager
new_duplicate_manager frequency = record {
  proposed_hash_set = [];
  executed_hash_set = [];
  proposed_hash_time_queue = [];
  executed_hash_time_queue = [];
  executed_hash_seq = [];
  frequency_useconds = if ltb 0 frequency then frequency else 5000000;
  window_useconds = 20000000;
}

-- CheckIfProposed.
unfoldable pub check_if_proposed : DuplicateManager → String → Bool
check_if_proposed m hash = member hash m.proposed_hash_set

-- CheckIfExecuted: 0 when the hash is not there.
unfoldable pub check_if_executed : DuplicateManager → String → ℕ
check_if_executed m hash =
    if member hash m.executed_hash_set
    then (elim (lookup hash m.executed_hash_seq) [ none ↦ 0 | some seq ↦ seq ])
    else 0

-- AddProposed.
unfoldable pub add_proposed : DuplicateManager → String → ℕ → DuplicateManager
add_proposed m hash now = record m {
  proposed_hash_time_queue = m.proposed_hash_time_queue ++ (hash, now) ∷ [];
  proposed_hash_set = add hash m.proposed_hash_set;
}

-- AddExecuted.
unfoldable pub add_executed : DuplicateManager → String → ℕ → ℕ → DuplicateManager
add_executed m hash seq now = record m {
  executed_hash_time_queue = m.executed_hash_time_queue ++ (hash, now) ∷ [];
  executed_hash_set = add hash m.executed_hash_set;
  executed_hash_seq = insert hash seq m.executed_hash_seq;
}

-- CheckAndAddProposed: whether the hash was there.
unfoldable pub check_and_add_proposed : DuplicateManager → String → ℕ → DuplicateManager × Bool
unfolding add_proposed
check_and_add_proposed m hash now =
    if member hash m.proposed_hash_set then (m, true) else (add_proposed m hash now, false)

-- CheckAndAddExecuted.
unfoldable pub check_and_add_executed : DuplicateManager → String → ℕ → ℕ → DuplicateManager × Bool
unfolding add_executed
check_and_add_executed m hash seq now =
    if member hash m.executed_hash_set then (m, true) else (add_executed m hash seq now, false)

-- EraseProposed and EraseExecuted: the queues keep their entries.
unfoldable pub erase_proposed : DuplicateManager → String → DuplicateManager
erase_proposed m hash = record m { proposed_hash_set = remove hash m.proposed_hash_set }

unfoldable pub erase_executed : DuplicateManager → String → DuplicateManager
erase_executed m hash = record m {
  executed_hash_set = remove hash m.executed_hash_set;
  executed_hash_seq = erase hash m.executed_hash_seq;
}

-- The first loop of a round of UpdateRecentHash: the set and the queue.
unfoldable pub expire_proposed :
    ℕ → ℕ → List String → List (String × ℕ) → List String × List (String × ℕ)
expire_proposed window time hashes [] = (hashes, [])
expire_proposed window time hashes ((h, t) ∷ queue) =
    let rest = expire_proposed window time (remove h hashes) queue in
    if ltb (t + window) time then rest else (hashes, (h, t) ∷ queue)

-- The second loop: the set, the numbers and the queue.
unfoldable pub expire_executed :
    ℕ
    → ℕ
    → List String
    → Map String ℕ
    → List (String × ℕ)
    → List String × Map String ℕ × List (String × ℕ)
expire_executed window time hashes seqs [] = (hashes, seqs, [])
expire_executed window time hashes seqs ((h, t) ∷ queue) =
    let rest = expire_executed window time (remove h hashes) (erase h seqs) queue in
    if ltb (t + window) time then rest else (hashes, seqs, (h, t) ∷ queue)

-- A round of UpdateRecentHash.
unfoldable pub update_recent_hash : DuplicateManager → ℕ → DuplicateManager
unfolding expire_proposed expire_executed
update_recent_hash m time =
    let (proposed, queue) =
      expire_proposed m.window_useconds time m.proposed_hash_set m.proposed_hash_time_queue in
    let (executed, seqs, queue') =
      expire_executed m.window_useconds time m.executed_hash_set m.executed_hash_seq
        m.executed_hash_time_queue in
    record m {
      proposed_hash_set = proposed;
      proposed_hash_time_queue = queue;
      executed_hash_set = executed;
      executed_hash_seq = seqs;
      executed_hash_time_queue = queue';
    }
