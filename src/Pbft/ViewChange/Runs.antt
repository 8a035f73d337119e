-- ===== src/Pbft/ViewChange/Runs.antt =====
-- The sequences of events that a ViewChangeManager
-- (platform/consensus/ordering/pbft/viewchange_manager.cpp) goes through: messages, complaints,
-- rounds of its two threads, and what the other handlers do to the parts that it shares with them.
-- `none` is a run in which the code reads what is not there, or fails an assertion.
pub mod Views
pub mod Once
use resilientdb.Common.{ℕ, String, Bool, Option, none, some, List, [], ◌∷◌}
use resilientdb.Common.Int.{ℤ}
use resilientdb.Messages.{SignatureInfo, Request}
use resilientdb.Pbft.Commitment.{Commitment}
use resilientdb.Pbft.CheckPoint.Votes.{StableCheckPoint}
use resilientdb.Pbft.ViewChange.{ViewChangeMessage, NewViewMessage, ViewChangeManager}
use resilientdb.Pbft.ViewChange.NewView.{process_new_view}
use resilientdb.Pbft.ViewChange.Complaints.{add_complaint_timer}
use resilientdb.Pbft.ViewChange.Handlers.{
  may_start, process_view_change, monitor_timeout, monitor_checkpoint,
}

pub data Event : Type 0 where
  started : Bool → Event
  view_change : Option ViewChangeMessage → ℕ → ℕ → Event
  new_view : Option NewViewMessage → Event
  complained : ℕ → String → ℕ → Event
  timed_out : ℕ → ℕ → Event
  committable : ℕ → Event
  -- a stable checkpoint, and new values of the shared parts but the config, the view and its
  -- primary
  others : StableCheckPoint → Commitment → Event

unfoldable pub state_of : Option (ViewChangeManager × ℤ) → Option ViewChangeManager
state_of none = none
state_of (some (m, code)) = some m

-- What the other handlers leave.
unfoldable pub exchange : ViewChangeManager → StableCheckPoint → Commitment → ViewChangeManager
exchange m ckpt c = record m {
  stable_ckpt = ckpt;
  shared = record c {
    message_manager = record c.message_manager {
      config = m.shared.message_manager.config;
      system_info = m.shared.message_manager.system_info;
    };
  };
}

module _ (verify_hash : String → SignatureInfo → Bool)
    (verify_request : Request → SignatureInfo → Bool) (sign : String → Option SignatureInfo) where
  unfoldable pub handle : ViewChangeManager → Event → Option ViewChangeManager
  unfolding state_of exchange
  handle m (started is_client) = some (may_start m is_client)
  handle m (view_change msg sender now) =
      state_of (process_view_change verify_hash verify_request sign m msg sender now)
  handle m (new_view msg) = state_of (process_new_view verify_hash verify_request sign m msg)
  handle m (complained proxy hash now) = some (add_complaint_timer m proxy hash now)
  handle m (timed_out which now) = monitor_timeout m which now
  handle m (committable value) = some (monitor_checkpoint m value)
  handle m (others ckpt c) = some (exchange m ckpt c)

  unfoldable pub run_all : ViewChangeManager → List Event → Option ViewChangeManager
  unfolding handle
  run_all m [] = some m
  run_all m (e ∷ es) = elim (handle m e) [ none ↦ none | some m' ↦ run_all m' es ]
