-- ===== src/Pbft/ViewChange.antt =====
-- ViewChangeManager (platform/consensus/ordering/pbft/viewchange_manager.{h,cpp}): its messages
-- (platform/proto/viewchange_message.proto), its state and its small operations. The message
-- manager, the duplicate manager, the system info and the highest prepared number, which it shares
-- with Commitment, are the field `shared`. ViewChange/Redo and Validity are the checks and the
-- requests of a new view, NewView, Complaints and Handlers the handlers, and Runs their sequences.
pub mod Redo
pub mod Validity
pub mod NewView
pub mod Complaints
pub mod Handlers
pub mod Keeps
pub mod Quiet
pub mod Runs
use resilientdb.Common.{
  number_keys, text_keys, if◌then◌else◌, length, get_elem?, ltb, ℕ, ◌+◌, ◌-◌, ◌%◌, ◌^◌, String,
  Bool, true, false, not, Option, none, some, List, [], ◌∷◌, ◌++◌,
}
use resilientdb.Common.Maps.{Map, lookup, insert_ordered}
use resilientdb.Config.{ReplicaInfo, get_max_client_complaint_num}
use resilientdb.Messages.{SignatureInfo, Request}
use resilientdb.Execution.SystemInfo.{set_current_view, set_primary}
use resilientdb.Pbft.Commitment.{Commitment}
use resilientdb.Pbft.CheckPoint.Votes.{StableCheckPoint}

pub record PreparedProof : Type 0 where
  pub request : Request
  pub signature : SignatureInfo

pub record PreparedMessage : Type 0 where
  pub seq : ℕ
  pub proof : List PreparedProof

pub record ViewChangeMessage : Type 0 where
  pub view_number : ℕ
  pub stable_ckpt : StableCheckPoint
  pub prepared_msg : List PreparedMessage

pub record NewViewMessage : Type 0 where
  pub view_number : ℕ
  pub request : List Request
  pub viewchange_messages : List ViewChangeMessage

-- ViewChangeTimerType and ViewChangeTimeout.
pub data TimerType : Type 0 where
  complaint viewchange newview : TimerType

pub record ViewChangeTimeout : Type 0 where
  pub kind : TimerType
  pub view : ℕ
  pub proxy_id : ℕ
  pub hash : String
  pub start_time : ℕ
  pub timeout_time : ℕ

-- The constructor: the sum of two uint64_t.
unfoldable pub new_timeout : TimerType → ℕ → ℕ → String → ℕ → ℕ → ViewChangeTimeout
new_timeout kind view proxy hash start timeout_length = record {
  kind = kind;
  view = view;
  proxy_id = proxy;
  hash = hash;
  start_time = start;
  timeout_time = (start + timeout_length) % 2 ^ 64;
}

-- ViewChangeStatus.
pub data ViewChangeStatus : Type 0 where
  idle ready_view_change ready_new_view view_change_fail : ViewChangeStatus

unfoldable pub is_vc_status : ViewChangeStatus → ViewChangeStatus → Bool
is_vc_status idle idle = true
is_vc_status ready_view_change ready_view_change = true
is_vc_status ready_new_view ready_new_view = true
is_vc_status view_change_fail view_change_fail = true
is_vc_status _ _ = false

-- What the manager sends: its own messages, a request to every replica, and a request to itself.
pub data Sent : Type 0 where
  view_change_msg : ViewChangeMessage → Sent
  new_view_msg : NewViewMessage → Sent
  redo : Request → Sent
  to_self : Request → Sent

pub record ViewChangeManager : Type 0 where
  pub shared : Commitment
  -- stable_ckpt_ of the CheckPointManager
  pub stable_ckpt : StableCheckPoint
  pub viewchange_request : Map ℕ (Map ℕ ViewChangeMessage)
  pub new_view_is_sent : Bool
  pub status : ViewChangeStatus
  -- whether MayStart has installed the timeout handler, and whether it was called
  pub has_handler : Bool
  pub started : Bool
  pub view_change_counter : ℕ
  -- the heaps of timeouts; the code's comparison of std::shared_ptr orders them by address
  pub timeouts : Map ℕ (List ViewChangeTimeout)
  -- viewchange_timeout_set of every complaining client
  pub complaining_clients : Map ℕ (List String)
  -- last_seq_value of MonitoringCheckpointState
  pub last_seq_value : ℕ
  pub outgoing : List Sent

-- The constructor.
unfoldable pub new_view_change_manager : Commitment → StableCheckPoint → ViewChangeManager
new_view_change_manager shared ckpt = record {
  shared = shared;
  stable_ckpt = ckpt;
  viewchange_request = [];
  new_view_is_sent = false;
  status = idle;
  has_handler = false;
  started = false;
  view_change_counter = 1;
  timeouts = [];
  complaining_clients = [];
  last_seq_value = 0;
  outgoing = [];
}

abbrev pub current_view : ViewChangeManager → ℕ
current_view m = m.shared.message_manager.system_info.view

abbrev pub replicas_of : ViewChangeManager → List ReplicaInfo
replicas_of m = m.shared.message_manager.config.replicas

unfoldable pub send : ViewChangeManager → Sent → ViewChangeManager
send m x = record m { outgoing = m.outgoing ++ x ∷ [] }

-- timeout_length_, in microseconds.
abbrev pub timeout_length : ℕ
timeout_length = 10000000

-- The heap of an id.
unfoldable pub heap_of : Map ℕ (List ViewChangeTimeout) → ℕ → List ViewChangeTimeout
heap_of heaps id = elim (lookup id heaps) [ none ↦ [] | some h ↦ h ]

-- A push onto the heap of an id, unless it is full.
unfoldable pub push_timeout : ViewChangeManager → ℕ → ViewChangeTimeout → ViewChangeManager
unfolding heap_of get_max_client_complaint_num
push_timeout m id t =
    let heap = heap_of m.timeouts id in
    if ltb (length heap) (get_max_client_complaint_num m.shared.message_manager.config)
    then record m { timeouts = insert_ordered id (t ∷ heap) m.timeouts }
    else m

-- ChangeStatue: READY_VIEW_CHANGE is set only where it differs, which leaves the same state.
unfoldable pub change_statue : ViewChangeManager → ViewChangeStatus → ViewChangeManager
unfolding is_vc_status
change_statue m ready_view_change =
    if not (is_vc_status m.status ready_view_change)
    then record m { status = ready_view_change }
    else m
change_statue m status = record m { status = status }

-- IsInViewChange.
unfoldable pub is_in_view_change : ViewChangeManager → Bool
unfolding is_vc_status
is_in_view_change m = not (is_vc_status m.status idle)

-- `replicas[(view_number - 1) % replicas.size()].id()`; `none` where there is no replica.
unfoldable pub primary_of : List ReplicaInfo → ℕ → Option ℕ
primary_of replicas view =
    elim (get_elem? replicas ((view + 2 ^ 64 - 1) % 2 ^ 64 % length replicas)) [
      | none ↦ none
      | some r ↦ some r.id
    ]

-- SetCurrentViewAndNewPrimary, with the id of the primary.
unfoldable pub set_view_and_primary : ViewChangeManager → ℕ → ℕ → ViewChangeManager
unfolding set_current_view set_primary
set_view_and_primary m view id = record m {
  shared = record m.shared {
    message_manager = record m.shared.message_manager {
      system_info = set_primary (set_current_view m.shared.message_manager.system_info view) id;
    };
  };
}

-- The messages for a view, by sender.
unfoldable pub requests_for : ViewChangeManager → ℕ → Map ℕ ViewChangeMessage
requests_for m view = elim (lookup view m.viewchange_request) [ none ↦ [] | some r ↦ r ]

-- AddRequest of a view change message: the state and the number of senders for the view.
unfoldable pub add_view_change : ViewChangeManager → ViewChangeMessage → ℕ → ViewChangeManager × ℕ
unfolding requests_for
add_view_change m msg sender =
    let r = insert_ordered sender msg (requests_for m msg.view_number) in
    (
      record m { viewchange_request = insert_ordered msg.view_number r m.viewchange_request },
      length r,
    )
