-- ===== src/Config/Defaults.antt =====
-- What the constructor and SetConfigData of platform/config/resdb_config.cpp establish.
use resilientdb.Common.{◌<◌, ◌≡◌, ◌≢◌, ◌↔◌, arith}
use resilientdb.Config.{
  ReplicaInfo, ResConfigData, new_config, set_config_data, get_viewchange_commit_timeout,
}

-- The numbers that the constructor replaces by a default if they are 0, but SetConfigData does not.
pub record IsComplete (d : ResConfigData) : Type 0 where
  pub batch : d.client_batch_num ≢ 0
  pub workers : d.worker_num ≢ 0
  pub inputs : d.input_worker_num ≢ 0
  pub outputs : d.output_worker_num ≢ 0
  pub tcp_batch : d.tcp_batch_num ≢ 0

-- The constructor leaves every batch size, every number of workers and the view change timeout
-- above 0.
pub new_config-IsComplete :
    (d : ResConfigData) (self : ReplicaInfo)
    → IsComplete (new_config d self).config_data
      × (0 < get_viewchange_commit_timeout (new_config d self))
unfolding new_config get_viewchange_commit_timeout
new_config-IsComplete d self = ground arith

-- SetConfigData sets what the constructor would set exactly when no batch size and no
-- number of workers is 0.
pub set_config_data-new_config :
    (d₀ d : ResConfigData) (self : ReplicaInfo)
    → ((set_config_data (new_config d₀ self) d).config_data ≡ (new_config d self).config_data)
      ↔ IsComplete d
unfolding set_config_data new_config
set_config_data-new_config d₀ d self = (λ e. (ground arith), λ h. ground arith)
