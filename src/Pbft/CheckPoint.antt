-- ===== src/Pbft/CheckPoint.antt =====
-- ChainState (chain/state/chain_state.cpp) and the thread of CheckPointManager that passes the
-- executed requests on to it and broadcasts the checkpoints
-- (platform/consensus/ordering/pbft/checkpoint_manager.cpp). The hash function and the signing are
-- parameters; sequence numbers stay below 2^64. The votes of the
-- replicas are in CheckPoint/Votes.
pub mod Chain
pub mod Votes
use resilientdb.Common.{
  number_keys, text_keys, if◌then◌else◌, push, ◌==◌, ℕ, ◌+◌, String, Bool, not, Option, none, some,
  List, [], ◌∷◌,
}
use resilientdb.Common.Maps.{Map, lookup, insert}
use resilientdb.Messages.{SignatureInfo, Request}
use Prim.Native.String.{◌++◌}

pub record ChainState : Type 0 where
  pub requests : Map ℕ Request
  pub max_seq : ℕ

-- Put, Get and GetMaxSeq.
unfoldable pub put : ChainState → Request → ChainState
put c request = record { max_seq = request.seq; requests = insert request.seq request c.requests }

unfoldable pub get : ChainState → ℕ → Option Request
get c seq = lookup seq c.requests

-- CheckPointData.
pub record CheckPointData : Type 0 where
  pub seq : ℕ
  pub hash : String
  pub hash_signature : SignatureInfo

pub record CheckPointManager : Type 0 where
  pub enabled : Bool
  pub water_mark : ℕ
  pub data_queue : List Request
  pub txn_db : ChainState
  pub last_seq : ℕ
  pub last_hash : String
  -- last_ckpt_seq of UpdateCheckPointStatus
  pub last_ckpt_seq : ℕ
  -- what was broadcast, oldest first
  pub sent : List CheckPointData

-- The constructor.
unfoldable pub new_check_point_manager : Bool → ℕ → CheckPointManager
new_check_point_manager enabled water_mark = record {
  enabled = enabled;
  water_mark = water_mark;
  data_queue = [];
  txn_db = record { requests = []; max_seq = 0 };
  last_seq = 0;
  last_hash = "";
  last_ckpt_seq = 0;
  sent = [];
}

-- AddCommitData.
unfoldable pub add_commit_data : CheckPointManager → Request → CheckPointManager
unfolding put
add_commit_data m request =
    if m.enabled
    then record m { data_queue = push m.data_queue request }
    else record m { txn_db = put m.txn_db request }

-- GetHash of two hashes.
unfoldable pub get_hash : (String → String) → String → String → String
get_hash calculate_hash h1 h2 = calculate_hash (h1 ++ h2)

-- BroadcastCheckPoint, with the signature of the hash.
unfoldable pub broadcast_check_point :
    CheckPointManager → ℕ → String → Option SignatureInfo → CheckPointManager
broadcast_check_point m seq hash none = m
broadcast_check_point m seq hash (some s) = record m {
  sent = push m.sent (record { seq = seq; hash = hash; hash_signature = s });
}

module _ (calculate_hash : String → String) (sign : String → Option SignatureInfo) where
  -- The test for the water mark in UpdateCheckPointStatus.
  unfoldable pub mark_check_point : CheckPointManager → Request → CheckPointManager
  unfolding broadcast_check_point
  mark_check_point m request =
      if request.seq == m.last_ckpt_seq + m.water_mark
      then (let m' = record m { last_ckpt_seq = request.seq } in
          if request.is_recovery
          then m'
          else broadcast_check_point m' request.seq m'.last_hash (sign m'.last_hash))
      else m

  -- A round of UpdateCheckPointStatus with a request.
  unfoldable pub take_request : CheckPointManager → Request → CheckPointManager
  unfolding get_hash put mark_check_point
  take_request m request =
      if not (request.seq == m.last_seq + 1)
      then m
      else mark_check_point
          (record m {
            last_hash = get_hash calculate_hash m.last_hash request.hash;
            last_seq = m.last_seq + 1;
            txn_db = put m.txn_db request;
          })
          request

  -- The requests of the queue, one round each.
  unfoldable pub take_requests : CheckPointManager → List Request → CheckPointManager
  take_requests m [] = m
  take_requests m (r ∷ rs) = take_requests (take_request m r) rs
