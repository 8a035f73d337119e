-- ===== src/Pbft/StatusChange.antt =====
-- MessageManager::MayConsensusChangeStatus (platform/consensus/ordering/pbft/message_manager.cpp)
-- and the callback that AddConsensusMsg gives to the collector.
use resilientdb.Common.{leb, if◌then◌else◌, ℕ, Bool, true, ◌&&◌, ◌||◌}
use resilientdb.Messages.{RequestType}
use resilientdb.Pbft.Status.{Status, is_status}
use resilientdb.Pbft.Collector.{CallBack}

-- MayConsensusChangeStatus; the quorum is GetMinDataReceiveNum. A `case` that is left by `break`
-- returns `ret`.
unfoldable pub may_consensus_change_status : ℕ → RequestType → ℕ → Status → Bool → Status × Bool
unfolding is_status
may_consensus_change_status quorum RequestType.pre_prepare count status ret =
    if is_status status Status.none then (Status.ready_prepare, true) else (status, ret)
may_consensus_change_status quorum RequestType.prepare count status ret =
    if is_status status Status.ready_prepare && leb quorum count
    then (Status.ready_commit, true)
    else (status, ret)
may_consensus_change_status quorum RequestType.commit count status ret =
    if is_status status Status.ready_commit && leb quorum count
    then (Status.ready_execute, true)
    else (status, ret)
may_consensus_change_status quorum _ count status ret = (status, ret)

-- The callback; it captures whether `resp_received_count` was set to 1.
unfoldable pub consensus_call_back : ℕ → RequestType → CallBack Bool
unfolding may_consensus_change_status
consensus_call_back quorum kind request count status force received =
    let (status', moved) = may_consensus_change_status quorum kind count status force in
    (status', moved || received)
