-- ===== src/Tests/Responses.antt =====
-- Responses of the replicas 1 to 4 to the batch 5
-- (platform/consensus/ordering/pbft/response_manager.cpp).
use resilientdb.Config.{faulty_num, min_client_receive_num, performance_running}
use resilientdb.Pbft.Pool.{index_of, get_collector}
use resilientdb.Execution.Executor.Rounds.{BatchResponse}
use resilientdb.Pbft.Status.{is_status}
use resilientdb.Common.Maps.{member, add, insert, lookup}
use resilientdb.Pbft.ResponseManager.{
  may_execute, may_change_status, response_call_back, ResponseManager, is_zero, is_minus_two,
  take_response, add_response_msg, process_response_msg,
}
use resilientdb.Pbft.Collector.Tally.{Quorum}
use resilientdb.Common.Int.{pos}
use resilientdb.Messages.{
  type_value, is_type, RequestType, default_request, SignatureInfo, Request, success,
}
use resilientdb.Pbft.Collector.{
  add_request, add_cert, bits, votes, mark, count_vote, add_vote, accept, Collector, new_collector,
}
use resilientdb.Common.{refl, some, ◌⊎◌, String, ◌≡◌, [], false, ℕ, List, ◌∷◌, Option, arith}
use resilientdb.Pbft.ResponseManager.Counting.{
  receive_response, receive_responses, responses-answered_once, noted,
}
use resilientdb.Pbft.ResponseManager.Batching.{pop_earliest}
use resilientdb.Pbft.ResponseManager.Payload.{payload_unchecked}
use resilientdb.Tests.Consensus.{signed, config}

abbrev response_of : ℕ → String → Request
response_of id payload = record default_request {
  kind = RequestType.response;
  seq = 5;
  hash = "h";
  sender_id = id;
  payload = payload;
}

-- A replica that repeats its response, and two others.
abbrev responses : List (Request × SignatureInfo)
responses =
    (response_of 1 "x", signed 1)
    ∷ (response_of 1 "x", signed 1)
    ∷ (response_of 2 "x", signed 2)
    ∷ (response_of 3 "x", signed 3)
    ∷ []

responses-answered_once_example :
    let (_, log) = receive_responses 2 (new_collector 5 false false) [] responses in
    (log ≡ [])
    ⊎ ((r : Request) × (log ≡ r ∷ [])
        × (q : Quorum 2 RequestType.response responses) × (q.hash ≡ r.hash))
responses-answered_once_example = responses-answered_once 2 5 responses

-- The second response goes on, the one of a second replica.
answers_second :
    (receive_responses 2 (new_collector 5 false false) [] responses).1 ≡ response_of 2 "x" ∷ []
unfolding receive_responses receive_response add_request accept add_vote count_vote
    response_call_back may_change_status may_execute noted new_collector mark votes bits lookup
    insert add member add_cert is_type type_value is_status
answers_second = refl

-- One response is counted.
abbrev one_vote : Collector
one_vote =
    (receive_response 2 (new_collector 5 false false) (response_of 1 "x", signed 1)).collector

-- A batch whose answer is the payload.
abbrev parse : String → Option BatchResponse
parse payload =
    some
      (record { responses = payload ∷ []; proxy_id = 1; createtime = 1; local_id = 5; hash = "h" })

-- Collectors for the numbers 4 to 7, of which that of 5 has one vote.
abbrev responding : ResponseManager
responding = record {
  config = config;
  collector_pool = record {
    capacity = 2;
    has_executor = false;
    enable_viewchange = false;
    collectors =
        new_collector 4 false false
        ∷ one_vote
        ∷ new_collector 6 false false
        ∷ new_collector 7 false false
        ∷ [];
  };
  context_pool = record {
    capacity = 2;
    has_executor = false;
    enable_viewchange = false;
    collectors =
        new_collector 4 false false
        ∷ record (new_collector 5 false false) {
          context_list = record { client = some 9; signature = signed 9 } ∷ [];
        }
        ∷ new_collector 6 false false
        ∷ new_collector 7 false false
        ∷ [];
  };
  system_info = record { primary_id = 1; view = 1; replicas = [] };
  local_id = 6;
  send_num = pos 1;
  timeout_length = 1;
  waiting_response_batches = [];
  client_timeout_min_heap = [];
  to_clients = [];
  to_replicas = [];
}

abbrev forged : Request
forged = response_of 2 "forged"

payload_unchecked_example :
    (m : ResponseManager) × (process_response_msg parse responding (signed 2) forged
      ≡ some (m, success))
    × (m.to_clients ≡ (9, "forged") ∷ [])
unfolding receive_response add_request accept add_vote count_vote response_call_back
    may_change_status may_execute noted new_collector mark votes bits lookup insert add member
    add_cert is_type type_value is_status add_response_msg take_response is_zero is_minus_two
    get_collector index_of min_client_receive_num faulty_num performance_running
payload_unchecked_example =
    payload_unchecked parse responding (response_of 2 "x") (signed 2) (signed 2) "forged"
      (record { responses = "x" ∷ []; proxy_id = 1; createtime = 1; local_id = 5; hash = "h" })
      (record { responses = "forged" ∷ []; proxy_id = 1; createtime = 1; local_id = 5; hash = "h" })
      one_vote
      (record (new_collector 5 false false) {
        context_list = record { client = some 9; signature = signed 9 } ∷ [];
      })
      ((9, signed 9) ∷ []) refl refl refl refl refl refl refl refl refl refl refl refl (omega arith)

-- The earliest timeout is on top.
earliest_on_top :
    pop_earliest ("a", 7) (("b", 3) ∷ ("c", 5) ∷ []) ≡ (("b", 3), ("a", 7) ∷ ("c", 5) ∷ [])
unfolding pop_earliest
earliest_on_top = refl
