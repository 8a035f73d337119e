-- ===== src/Config.antt =====
-- ResDBConfig (platform/config/resdb_config.{h,cpp}): the replicas, the sizes of the quorums and
-- the defaults. Keys, certificates and the checkpoint path are left out: the code stores and
-- returns them.
pub mod Quorum
pub mod Defaults
use resilientdb.Common.{
  number_keys, if◌then◌else◌, ◌==◌, ℕ, ◌+◌, ◌-◌, ◌*◌, ◌/◌, ◌%◌, ◌^◌, max, String, Bool, false, ◌||◌,
  List, [], ◌∷◌,
}

pub record ReplicaInfo : Type 0 where
  pub id : ℕ
  pub ip : String
  pub port : ℕ

pub record RegionInfo : Type 0 where
  pub region_id : ℕ
  pub replica_info : List ReplicaInfo

-- ResConfigData; an optional number that is absent reads 0.
pub record ResConfigData : Type 0 where
  pub region : List RegionInfo
  pub self_region_id : ℕ
  pub enable_viewchange : Bool
  pub view_change_timeout_ms : ℕ
  pub is_performance_running : Bool
  pub max_process_txn : ℕ
  pub client_batch_num : ℕ
  pub worker_num : ℕ
  pub input_worker_num : ℕ
  pub output_worker_num : ℕ
  pub tcp_batch_num : ℕ
  pub max_client_complaint_num : ℕ

pub record ResDbConfig : Type 0 where
  pub config_data : ResConfigData
  pub replicas : List ReplicaInfo
  pub self_info : ReplicaInfo
  pub checkpoint_water_mark : ℕ
  pub is_enable_checkpoint : Bool
  pub is_performance_running : Bool
  pub default_max_process_txn : ℕ
  pub viewchange_commit_timeout_ms : ℕ

-- The loop over the regions with its `break`: the replicas of the first that is the own one.
unfoldable pub own_replicas : ℕ → List RegionInfo → List ReplicaInfo
own_replicas self [] = []
own_replicas self (r ∷ rs) = if r.region_id == self then r.replica_info else own_replicas self rs

unfoldable pub or_default : ℕ → ℕ → ℕ
or_default n d = if n == 0 then d else n

-- The constructor from a ResConfigData.
unfoldable pub new_config : ResConfigData → ReplicaInfo → ResDbConfig
unfolding own_replicas or_default
new_config d self = record {
  config_data = record d {
    view_change_timeout_ms = or_default d.view_change_timeout_ms 60000;
    client_batch_num = or_default d.client_batch_num 100;
    worker_num = or_default d.worker_num 64;
    input_worker_num = or_default d.input_worker_num 1;
    output_worker_num = or_default d.output_worker_num 1;
    tcp_batch_num = or_default d.tcp_batch_num 100;
  };
  replicas = own_replicas d.self_region_id d.region;
  self_info = self;
  checkpoint_water_mark = 5;
  is_enable_checkpoint = false;
  is_performance_running = false;
  default_max_process_txn = 2048;
  viewchange_commit_timeout_ms = 60000;
}

-- SetConfigData: only the view change timeout gets its default again.
unfoldable pub set_config_data : ResDbConfig → ResConfigData → ResDbConfig
unfolding own_replicas or_default
set_config_data c d = record c {
  config_data = record d {
    view_change_timeout_ms = or_default d.view_change_timeout_ms c.viewchange_commit_timeout_ms;
  };
  replicas = own_replicas d.self_region_id d.region;
}

-- `int f = (replicas_.size() - 1) / 3`: the size is a size_t, so that of no replica wraps around,
-- and the quotient is cut to 32 bits.
unfoldable pub faulty_num : ℕ → ℕ
faulty_num size = (size + 2 ^ 64 - 1) % 2 ^ 64 / 3 % 2 ^ 32

-- GetMinDataReceiveNum, of the number of replicas.
unfoldable pub min_data_receive_num : ℕ → ℕ
unfolding faulty_num
min_data_receive_num size = max (2 * faulty_num size + 1) 1

-- GetMinClientReceiveNum.
unfoldable pub min_client_receive_num : ℕ → ℕ
unfolding faulty_num
min_client_receive_num size = max (faulty_num size + 1) 1

-- GetMinCheckpointReceiveNum.
unfoldable pub min_checkpoint_receive_num : ℕ → ℕ
unfolding faulty_num
min_checkpoint_receive_num size = max (faulty_num size + 1) 1

-- GetMaxMaliciousReplicaNum.
unfoldable pub max_malicious_replica_num : ℕ → ℕ
unfolding faulty_num
max_malicious_replica_num size = max (faulty_num size) 0

-- IsPerformanceRunning.
unfoldable pub performance_running : ResDbConfig → Bool
performance_running c = c.is_performance_running || c.config_data.is_performance_running

-- GetMaxProcessTxn.
unfoldable pub get_max_process_txn : ResDbConfig → ℕ
unfolding or_default
get_max_process_txn c = or_default c.config_data.max_process_txn c.default_max_process_txn

-- SetMaxProcessTxn.
unfoldable pub set_max_process_txn : ResDbConfig → ℕ → ResDbConfig
set_max_process_txn c num = record c {
  config_data = record c.config_data { max_process_txn = num };
  default_max_process_txn = num;
}

-- GetMaxClientComplaintNum.
unfoldable pub get_max_client_complaint_num : ResDbConfig → ℕ
unfolding or_default
get_max_client_complaint_num c = or_default c.config_data.max_client_complaint_num 10

-- GetViewchangeCommitTimeout.
unfoldable pub get_viewchange_commit_timeout : ResDbConfig → ℕ
unfolding or_default
get_viewchange_commit_timeout c =
    or_default c.config_data.view_change_timeout_ms c.viewchange_commit_timeout_ms
