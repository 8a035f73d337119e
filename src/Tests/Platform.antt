-- ===== src/Tests/Platform.antt =====
-- The configuration, the executor and the duplicate manager (platform/config,
-- platform/consensus/execution).
use resilientdb.Common.{
  number_keys, text_keys, suc, ltb, leb, length, ℕ, ◌+◌, ◌≤◌, String, ◌≡◌, refl, ◌↔◌, Bool, true,
  false, some, List, [], ◌∷◌, map, arith, ◌||◌, none, Option,
}
use resilientdb.Common.Maps.{insert, member, add, remove}
use resilientdb.Config.{
  ReplicaInfo, ResConfigData, new_config, set_config_data, faulty_num, min_data_receive_num,
  min_client_receive_num,
}
use resilientdb.Config.Quorum.{count, both, quorums_meet, ids_to, quorums_too_small}
use resilientdb.Config.Defaults.{IsComplete, set_config_data-new_config}
use resilientdb.Pbft.CheckPoint.{
  put, new_check_point_manager, get_hash, broadcast_check_point, mark_check_point, take_request,
  take_requests,
}
use resilientdb.Pbft.CheckPoint.Chain.{in_row, chain_hash, Certified, take_requests-Certified}
use resilientdb.Messages.{Request, default_request, SignatureInfo}
use resilientdb.Execution.SystemInfo.{
  SystemInfo, has_replica, process_request, DistinctIds, process_request-DistinctIds,
}
use resilientdb.Execution.Executor.Rounds.{
  Batch, batch_of, run_if, execute, execute_first, execute_message, execute_rounds,
}
use resilientdb.Execution.Executor.Agreement.{ordered, replicas_agree}
use resilientdb.Execution.Executor.{
  new_executor, insert_candidate, add_new_data, drain, drain_all, order_message, order_messages,
}
use resilientdb.Execution.Executor.Spec.{in_order, first}
use resilientdb.Execution.Executor.Refinement.{order_messages-in_order}
use resilientdb.Execution.DuplicateManager.{
  new_duplicate_manager, check_if_proposed, add_proposed, check_and_add_proposed, erase_proposed,
  expire_proposed, expire_executed, update_recent_hash,
}
use resilientdb.Execution.DuplicateManager.Window.{
  propose, tick, step, steps, proposed_within_window,
}

abbrev request : ℕ → String → Request
request seq hash = record default_request { seq = seq; hash = hash }

abbrev shuffled : List Request
shuffled =
    request 2 "b"
    ∷ request 4 "d"
    ∷ request 1 "a"
    ∷ request 2 "x"
    ∷ request 3 "c"
    ∷ request 6 "f"
    ∷ []

order_messages_run :
    (order_messages (new_executor true false true) shuffled).execute_queue
    ≡ request 1 "a" ∷ request 2 "b" ∷ request 3 "c" ∷ request 4 "d" ∷ []
unfolding order_messages order_message drain_all drain add_new_data insert_candidate new_executor
order_messages_run = refl

order_messages-in_order_example :
    let e = order_messages (new_executor true false true) shuffled in
    (e.execute_queue ≡ in_order 6 1 shuffled)
    × (e.next_execute_seq ≡ suc (length e.execute_queue))
    × (e.notified ≡ map (λ m. m.seq + 1) e.execute_queue)
order_messages-in_order_example = order_messages-in_order shuffled true false true

-- A store that keeps the hashes of the batches that it ran.
abbrev no_text : String → Batch
no_text s = record {
  user_requests = [];
  seq = 0;
  hash = "";
  proxy_id = 0;
  createtime = 0;
  local_id = 0;
  committed_certs = [];
}

abbrev keep_hashes : List String → Batch → List String × List String
keep_hashes hs b = (b.hash ∷ hs, [])

abbrev swapped : List Request
swapped = request 2 "b" ∷ request 1 "a" ∷ []

abbrev straight : List Request
straight = request 1 "a" ∷ request 2 "b" ∷ []

same_first : (i : ℕ) → first i swapped ≡ first i straight
same_first i = ground arith

replicas_agree_example :
    (execute_rounds no_text keep_hashes
      (ordered no_text keep_hashes true [] none swapped)
      (5 ∷ 6 ∷ [])).state
    ≡ (execute_rounds no_text keep_hashes
        (ordered no_text keep_hashes false [] none straight)
        (7 ∷ 8 ∷ 9 ∷ [])).state
replicas_agree_example =
    replicas_agree no_text keep_hashes true false [] none none swapped straight (5 ∷ 6 ∷ [])
      (7 ∷ 8 ∷ 9 ∷ []) same_first refl (omega arith) (omega arith)

swapped_runs :
    (execute_rounds no_text keep_hashes
      (ordered no_text keep_hashes true [] none swapped)
      (5 ∷ 6 ∷ [])).state
    ≡ "b" ∷ "a" ∷ []
unfolding order_messages order_message drain_all drain add_new_data insert_candidate new_executor
    execute_rounds execute_message execute_first execute run_if batch_of
swapped_runs = refl

abbrev four : List ℕ
four = 1 ∷ 2 ∷ 3 ∷ 4 ∷ []

quorums_meet_example :
    (2 ≤ count (both (ltb 1) (λ i. leb i 3)) four)
    × (min_client_receive_num 4 ≤ count (both (ltb 1) (λ i. leb i 3)) four)
unfolding min_data_receive_num faulty_num
quorums_meet_example =
    quorums_meet 1 four (ltb 1) (λ i. leb i 3) (omega arith) (omega arith) (omega arith)
      (omega arith)

quorums_too_small_example :
    (p : ℕ → Bool) × (q : ℕ → Bool) × (min_data_receive_num 5 ≤ count p (ids_to 5))
    × (min_data_receive_num 5 ≤ count q (ids_to 5))
    × (count (both p q) (ids_to 5) ≡ 1)
quorums_too_small_example = quorums_too_small 1 (omega arith)

abbrev data_of : ℕ → ResConfigData
data_of workers = record {
  region = [];
  self_region_id = 0;
  enable_viewchange = false;
  view_change_timeout_ms = 1;
  is_performance_running = false;
  max_process_txn = 8;
  client_batch_num = 1;
  worker_num = workers;
  input_worker_num = 1;
  output_worker_num = 1;
  tcp_batch_num = 1;
  max_client_complaint_num = 1;
}

abbrev self : ReplicaInfo
self = record { id = 1; ip = "a"; port = 1 }

set_config_data-new_config_example :
    ((set_config_data (new_config (data_of 3) self) (data_of 0)).config_data
      ≡ (new_config (data_of 0) self).config_data)
    ↔ IsComplete (data_of 0)
set_config_data-new_config_example = set_config_data-new_config (data_of 3) (data_of 0) self

abbrev system : SystemInfo
system = record { primary_id = 1; view = 1; replicas = self ∷ [] }

process_request-DistinctIds_example :
    DistinctIds (process_request system (some self)).replicas
    × ((id : ℕ)
        → (has_replica id system.replicas
            || has_replica id (process_request system (some self)).replicas)
          ≡ has_replica id (process_request system (some self)).replicas)
    × ((process_request system (some self)).view ≡ 1)
    × ((process_request system (some self)).primary_id ≡ 1)
unfolding has_replica
process_request-DistinctIds_example = process_request-DistinctIds system (some self) (refl, tt)

proposed_within_window_example :
    check_if_proposed
      (steps
        (check_and_add_proposed
          (steps (new_duplicate_manager 0) (propose "a" 0 ∷ tick 5000000 ∷ []))
          "b"
          6000000).0
        (tick 10000000 ∷ propose "b" 11000000 ∷ tick 25000000 ∷ []))
      "b"
    ≡ true
unfolding steps step update_recent_hash expire_proposed expire_executed check_and_add_proposed
    add_proposed new_duplicate_manager member add remove
proposed_within_window_example =
    proposed_within_window 0 (propose "a" 0 ∷ tick 5000000 ∷ [])
      (tick 10000000 ∷ propose "b" 11000000 ∷ tick 25000000 ∷ []) "b" 6000000 refl
      (omega arith, (omega arith, tt))

-- A hash that is erased and proposed again is forgotten with its first entry.
erased_early :
    check_if_proposed
      (update_recent_hash
        (check_and_add_proposed
          (erase_proposed (check_and_add_proposed (new_duplicate_manager 0) "a" 0).0 "a")
          "a"
          19000000).0
        20000001)
      "a"
    ≡ false
unfolding update_recent_hash expire_proposed expire_executed check_and_add_proposed add_proposed
    erase_proposed new_duplicate_manager member add remove check_if_proposed
erased_early = refl

-- A hash that keeps its text, and a signature.
abbrev same_text : String → String
same_text t = t

abbrev sign_all : String → Option SignatureInfo
sign_all t = some (record { node_id = 1; signature = t })

abbrev in_order_requests : List Request
in_order_requests = request 1 "a" ∷ request 3 "x" ∷ request 2 "b" ∷ request 3 "c" ∷ []

take_requests-Certified_example :
    let m = take_requests same_text sign_all (new_check_point_manager true 2) in_order_requests in
    (m.last_seq ≡ 3)
    × (m.last_hash ≡ chain_hash same_text "" (in_row 1 in_order_requests))
    × Certified same_text (in_row 1 in_order_requests) m.sent
take_requests-Certified_example =
    take_requests-Certified same_text sign_all true 2 in_order_requests

one_check_point :
    (take_requests same_text sign_all (new_check_point_manager true 2) in_order_requests).sent
    ≡ record { seq = 2; hash = "ab"; hash_signature = record { node_id = 1; signature = "ab" } }
      ∷ []
unfolding take_requests take_request get_hash put mark_check_point broadcast_check_point
    new_check_point_manager insert
one_check_point = refl
