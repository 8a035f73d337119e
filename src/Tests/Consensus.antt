-- ===== src/Tests/Consensus.antt =====
-- The replicas 1 to 4 and their messages (platform/consensus/ordering/pbft).
use resilientdb.Common.{
  number_keys, text_keys, length, ℕ, ◌≤◌, String, ◌≡◌, refl, true, false, some, List, [], ◌∷◌,
  arith, ◌+◌, ◌*◌, ◌^◌, ◌<◌, ◌↔◌, Option, none, ◌⊎◌, ◌++◌,
}
use resilientdb.Common.Maps.{lookup, insert, member, add, Distinct}
use resilientdb.Config.{ReplicaInfo, ResDbConfig, or_default, get_max_process_txn}
use resilientdb.Execution.DuplicateManager.{check_if_executed, add_proposed, check_and_add_proposed}
use resilientdb.Pbft.Pool.{get_capacity, pool_of, updates}
use resilientdb.Pbft.Pool.Capacity.{get_capacity_lem}
use resilientdb.Pbft.Pool.Window.{Window, updates-Window}
use resilientdb.Pbft.MessageManager.{MessageManager, get_current_primary, seq_gap, assign_next_seq}
use resilientdb.Pbft.MessageManager.Assign.{assign_next_seq_window, assign_next_seq_stuck}
use resilientdb.Pbft.Commitment.{
  Commitment, post, has_signature, proposal, propose_as, propose_new, process_new_request,
}
use resilientdb.Pbft.Commitment.Numbering.{proposals, Numbered, hashes}
use resilientdb.Pbft.Commitment.Proposals.{new_requests, new_requests-Numbered}
use resilientdb.Messages.{RequestType, type_value, is_type, SignatureInfo, Request, default_request}
use resilientdb.Execution.Executor.{TransactionExecutor, get_max_pending_executed_seq}
use resilientdb.Pbft.Status.{Status, status_value, at_most, is_status}
use resilientdb.Pbft.StatusChange.{may_consensus_change_status, consensus_call_back}
use resilientdb.Pbft.Collector.{
  RequestInfo, Collector, new_collector, set_main, bits, votes, mark, has_hash, find_proposal,
  keep_hash, with_certs, finish, add_main, count_vote, add_cert, settle_at, settle_main, settle,
  add_prepare, add_vote, accept, add_request, slot_for,
}
use resilientdb.Pbft.Collector.Tally.{Quorum}
use resilientdb.Pbft.Collector.Runs.{receive, run}
use resilientdb.Pbft.Collector.Safety.{run-quorums}
use resilientdb.Pbft.Collector.Prepared.{Kept, Chosen, add_prepare-settles}

abbrev pub message : RequestType → String → ℕ → Request
message kind hash id = record default_request {
  kind = kind;
  seq = 1;
  current_view = 1;
  hash = hash;
  sender_id = id;
}

abbrev pub signed : ℕ → SignatureInfo
signed id = record { node_id = id; signature = "s" }

abbrev from : RequestType → ℕ → Request × SignatureInfo
from kind id = (message kind "h" id, signed id)

abbrev round_of_votes : List (Request × SignatureInfo)
round_of_votes =
    from RequestType.pre_prepare 1
    ∷ from RequestType.prepare 1
    ∷ from RequestType.prepare 2
    ∷ from RequestType.prepare 2
    ∷ from RequestType.prepare 3
    ∷ from RequestType.commit 1
    ∷ from RequestType.commit 2
    ∷ from RequestType.commit 4
    ∷ from RequestType.commit 3
    ∷ []

votes_execute : length (run 3 (new_collector 1 true false) [] round_of_votes).1 ≡ 1
unfolding run receive add_request accept add_main slot_for add_vote add_prepare count_vote
    consensus_call_back may_consensus_change_status is_type type_value is_status at_most
    status_value new_collector set_main mark votes bits lookup insert member add add_cert finish
    resilientdb.Pbft.Collector.commit with_certs
votes_execute = refl

run-quorums_example :
    let (_, log) = run 3 (new_collector 1 true false) [] round_of_votes in
    (log ≡ [])
    ⊎ ((r : Request) × (log ≡ r ∷ [])
        × Quorum 3 RequestType.prepare round_of_votes
        × Quorum 3 RequestType.commit round_of_votes)
run-quorums_example = run-quorums 3 1 true false round_of_votes

-- A collector with three prepare votes, for the hash "h".
abbrev info_of : Request → RequestInfo
info_of r = record { request = some r; signature = signed 1 }

abbrev waiting : Collector
waiting = record {
  seq = 1;
  has_executor = true;
  is_committed = false;
  is_prepared = false;
  context_list = [];
  prepared_proof = info_of (message RequestType.prepare "g" 1) ∷ [];
  main_request = some (info_of (message RequestType.pre_prepare "g" 1));
  status = Status.ready_prepare;
  enable_viewchange = true;
  commit_certs = [];
  senders = λ _. ("h", 2 ∷ 3 ∷ []) ∷ [];
  other_main_request = info_of (message RequestType.pre_prepare "h" 1) ∷ [];
  view = 1;
}

waiting_settles :
    (add_prepare
      (consensus_call_back 3 RequestType.prepare)
      waiting
      (message RequestType.prepare "h" 1)
      (signed 1)
      false).collector.status
    ≡ Status.ready_commit
unfolding add_prepare count_vote consensus_call_back may_consensus_change_status is_type type_value
    is_status at_most status_value mark votes bits lookup insert member add settle settle_main
    settle_at find_proposal has_hash keep_hash
waiting_settles = refl

add_prepare-settles_example :
    let d =
      (add_prepare
        (consensus_call_back 3 RequestType.prepare)
        waiting
        (message RequestType.prepare "h" 1)
        (signed 1)
        false).collector in
    (d.is_prepared ≡ true)
    × Kept "h"
        (waiting.prepared_proof
          ++ record { request = some (message RequestType.prepare "h" 1); signature = signed 1 }
            ∷ [])
        d.prepared_proof
    × Chosen "h" waiting.main_request waiting.other_main_request d.main_request
unfolding at_most status_value
add_prepare-settles_example =
    add_prepare-settles 3 waiting (message RequestType.prepare "h" 1) (signed 1) false refl refl
      waiting_settles

abbrev other_hash : Collector
other_hash = record waiting { status = Status.ready_commit; enable_viewchange = false }

abbrev pub replica : ℕ → ReplicaInfo
replica id = record { id = id; ip = "a"; port = 1 }

abbrev pub config : ResDbConfig
config = record {
  config_data = record {
    region = [];
    self_region_id = 0;
    enable_viewchange = false;
    view_change_timeout_ms = 1;
    is_performance_running = false;
    max_process_txn = 8;
    client_batch_num = 1;
    worker_num = 1;
    input_worker_num = 1;
    output_worker_num = 1;
    tcp_batch_num = 1;
    max_client_complaint_num = 1;
  };
  replicas = replica 1 ∷ replica 2 ∷ replica 3 ∷ replica 4 ∷ [];
  self_info = replica 1;
  checkpoint_water_mark = 5;
  is_enable_checkpoint = false;
  is_performance_running = false;
  default_max_process_txn = 2048;
  viewchange_commit_timeout_ms = 60000;
}

abbrev pub executor_at : ℕ → TransactionExecutor
executor_at next = record {
  next_execute_seq = next;
  candidates = [];
  commit_queue = [];
  execute_queue = [];
  ooo_queue = [];
  has_manager = true;
  is_out_of_order = false;
  manager_responds = true;
  notified = [];
}

abbrev pub manager : ℕ → ℕ → MessageManager
manager next executed = record {
  config = config;
  next_seq = next;
  system_info = record { primary_id = 1; view = 1; replicas = [] };
  executor = executor_at executed;
  collector_pool = record {
    capacity = 16;
    has_executor = true;
    enable_viewchange = false;
    collectors = [];
  };
  last_committed_time = [];
  responses = [];
}

assign_next_seq_window_example :
    (assign_next_seq (manager 3 1) ≡ (manager 4 1, some 3)) ↔ (4 ≤ 1 + get_max_process_txn config)
assign_next_seq_window_example =
    assign_next_seq_window (manager 3 1) (omega arith) (omega arith) (omega arith)

assign_next_seq_stuck_example :
    assign_next_seq (manager 5000000000 4999999999) ≡ (manager 5000000000 4999999999, none)
unfolding get_max_process_txn or_default
assign_next_seq_stuck_example =
    assign_next_seq_stuck (manager 5000000000 4999999999) (omega arith) (omega arith) (omega arith)
      (omega arith)

get_capacity_example :
    (k : ℕ) × (get_capacity 4096 ≡ 2 ^ k)
    × (k ≤ 31)
    × (4096 < get_capacity 4096)
    × (get_capacity 4096 ≤ 2 * 4096)
get_capacity_example = get_capacity_lem 4096 (omega arith) (omega arith)

updates-Window_example : Window (updates (pool_of 4 true false) 9) 9
updates-Window_example = updates-Window 4 9 true false (omega arith)

abbrev pub primary : Commitment
primary = record {
  self_id = 1;
  message_manager = manager 1 1;
  duplicate_manager = record {
    proposed_hash_set = [];
    executed_hash_set = [];
    proposed_hash_time_queue = [];
    executed_hash_time_queue = [];
    executed_hash_seq = [];
    frequency_useconds = 1;
    window_useconds = 1;
  };
  need_qc = false;
  highest_prepared_seq = 0;
  request_complained = [];
  outgoing = [];
}

abbrev client_request : String → Option SignatureInfo × Request × ℕ
client_request hash = (some (signed 5), message RequestType.new_txns hash 5, 0)

abbrev client_requests : List (Option SignatureInfo × Request × ℕ)
client_requests = client_request "a" ∷ client_request "b" ∷ client_request "a" ∷ []

new_requests-Numbered_example :
    let sent = proposals (new_requests (λ r. true) (λ r. true) primary client_requests).outgoing in
    Numbered 1 sent × Distinct (hashes sent)
new_requests-Numbered_example =
    new_requests-Numbered (λ r. true) (λ r. true) primary client_requests refl (omega arith)

two_proposals :
    hashes (proposals (new_requests (λ r. true) (λ r. true) primary client_requests).outgoing)
    ≡ "a" ∷ "b" ∷ []
unfolding new_requests process_new_request check_if_executed has_signature get_current_primary
    propose_new propose_as check_and_add_proposed add_proposed assign_next_seq seq_gap
    get_max_process_txn or_default post proposal member add get_max_pending_executed_seq
two_proposals = refl
