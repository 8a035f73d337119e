-- ===== src/Pbft/Collector/Runs.antt =====
-- A history of messages at one collector, as MessageManager::AddConsensusMsg passes them on
-- (platform/consensus/ordering/pbft/message_manager.cpp).
use resilientdb.Common.{ℕ, Bool, false, some, List, [], ◌∷◌, ◌++◌}
use resilientdb.Messages.{RequestType, is_type, SignatureInfo, Request}
use resilientdb.Pbft.Collector.{Collector, Outcome, add_request}
use resilientdb.Pbft.StatusChange.{consensus_call_back}

-- One message; the flag is whether the status changed.
unfoldable pub receive : ℕ → Collector → Request × SignatureInfo → Outcome Bool
receive quorum c (r, signature) =
    add_request (consensus_call_back quorum r.kind) c (some r) signature
      (is_type r.kind RequestType.pre_prepare) false

-- The messages one after another: the collector, and what was handed to the executor.
unfoldable pub run :
    ℕ → Collector → List Request → List (Request × SignatureInfo) → Collector × List Request
run quorum c log [] = (c, log)
run quorum c log (m ∷ ms) =
    let o = receive quorum c m in run quorum o.collector (log ++ o.to_execute) ms
