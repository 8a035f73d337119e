-- ===== src/Tests/ViewChange.antt =====
-- A view change of the replicas 1 to 4 (platform/consensus/ordering/pbft/viewchange_manager.cpp).
use resilientdb.Pbft.ViewChange.Runs.Once.{new_view_once}
use resilientdb.Pbft.ViewChange.Runs.Views.{run_views}
use resilientdb.Pbft.ViewChange.NewView.Adoption.{process_new_view_lem, Adopted}
use resilientdb.Pbft.Pool.{pool_of}
use resilientdb.Execution.SystemInfo.{set_primary, set_current_view}
use resilientdb.Pbft.MessageManager.{set_next_seq}
use resilientdb.Pbft.ViewChange.Handlers.{may_start}
use resilientdb.Pbft.ViewChange.Redo.Faults.{unproved_message-fails, with_prepared}
use resilientdb.Pbft.ViewChange.Quiet.{new_views}
use resilientdb.Pbft.ViewChange.Runs.{Event, state_of, handle, run_all}
use resilientdb.Pbft.ViewChange.NewView.Accepted.{honest_view}
use resilientdb.Pbft.ViewChange.NewView.{
  largest, last_seq, all_there, seqs, enter_view, same_data, redo_one, redo_requests, check_redo,
  max_stable, adopt, process_new_view,
}
use resilientdb.Config.{faulty_num, min_data_receive_num}
use resilientdb.Pbft.ViewChange.Validity.{
  all_verify, senders_of, proofs_valid, prepared_valid, quorum, is_valid_checkpoint_proof,
  is_valid_view_change_msg, all_valid,
}
use resilientdb.Common.Maps.{lookup, add, member, insert}
use resilientdb.Pbft.ViewChange.Redo.{
  null_request, sign_null, redo_request, redo_from, redo_all, get_prepare_msg, largest_key,
  max_prepared, min_stable, first_request, collect_prepared, collect_all,
}
use resilientdb.Pbft.ViewChange.Validity.Proofs.{forged_view_change-valid, repeated}
use resilientdb.Tests.Consensus.{message, primary, signed}
use resilientdb.Pbft.ViewChange.{
  change_statue, send, PreparedMessage, set_view_and_primary, NewViewMessage, PreparedProof,
  ViewChangeManager, ViewChangeMessage, new_view_change_manager, current_view, replicas_of,
  primary_of,
}
use resilientdb.Messages.{
  new_request, type_value, is_type, failure, success, RequestType, SignatureInfo, Request,
}
use resilientdb.Pbft.CheckPoint.Votes.{StableCheckPoint}
use resilientdb.Common.{
  List, some, String, [], true, Bool, Option, ◌≡◌, refl, none, ◌∷◌, arith, ◌≤◌, ◌⊎◌, false,
}

abbrev always : {A B : Type 0} → A → B → Bool
always a b = true

abbrev sign : String → Option SignatureInfo
sign text = some (signed 1)

abbrev no_checkpoint : StableCheckPoint
no_checkpoint = record { seq = 0; hash = ""; signatures = [] }

abbrev prepared_request : Request
prepared_request = message RequestType.prepare "h" 2

abbrev proof : PreparedProof
proof = record { request = prepared_request; signature = signed 2 }

abbrev view_change : ViewChangeMessage
view_change = record {
  view_number = 2;
  stable_ckpt = no_checkpoint;
  prepared_msg = record { seq = 1; proof = repeated 3 proof } ∷ [];
}

abbrev new_view_of : NewViewMessage
new_view_of = record {
  view_number = 2;
  request = [];
  viewchange_messages = view_change ∷ view_change ∷ view_change ∷ [];
}

abbrev start : ViewChangeManager
start = new_view_change_manager primary no_checkpoint

-- The replica with a pool of collectors that nobody has used.
abbrev fresh : ViewChangeManager
fresh = record start {
  shared = record primary {
    message_manager = record primary.message_manager { collector_pool = pool_of 4 true true };
  };
}

abbrev received : NewViewMessage
received = honest_view sign 2 new_view_of ((1, prepared_request) ∷ [])

-- The replica that has taken the new view.
abbrev in_view_2 : ViewChangeManager
in_view_2 = elim (adopt start received 1 (some 2)) [ none ↦ start | some (m, code) ↦ m ]

taken : process_new_view always always sign start (some received) ≡ some (in_view_2, success)
unfolding process_new_view check_redo get_prepare_msg new_view_change_manager collect_all
    collect_prepared first_request insert lookup all_valid is_valid_view_change_msg
    is_valid_checkpoint_proof quorum min_data_receive_num faulty_num prepared_valid proofs_valid
    senders_of all_verify min_stable max_stable max_prepared largest_key redo_all redo_from
    redo_request sign_null null_request new_request same_data seqs all_there member last_seq largest
    primary_of adopt set_view_and_primary set_next_seq set_current_view set_primary redo_requests
    redo_one is_type type_value send enter_view change_statue
taken = refl

-- The replicas go on with number 2 in view 2.
view_2 :
    (current_view in_view_2 ≡ 2)
    × (in_view_2.shared.message_manager.system_info.primary_id ≡ 2)
    × (in_view_2.shared.message_manager.next_seq ≡ 2)
    × (in_view_2.shared.highest_prepared_seq ≡ 1)
unfolding adopt set_view_and_primary set_next_seq set_current_view set_primary redo_requests
    redo_one is_type type_value send enter_view change_statue new_view_change_manager redo_all
    redo_from redo_request sign_null new_request min_stable max_prepared largest_key lookup
view_2 = (refl, refl, refl, refl)

process_new_view_lem_example :
    ((in_view_2 ≡ start) × (success ≡ failure)) ⊎ Adopted sign start received in_view_2 success
process_new_view_lem_example =
    process_new_view_lem always always sign start received {m' = in_view_2} {code = success} taken

abbrev events : List Event
events = Event.started false ∷ Event.new_view (some received) ∷ []

abbrev started_in_view_2 : ViewChangeManager
started_in_view_2 = record in_view_2 { started = true; has_handler = true }

ran : run_all always always sign start events ≡ some started_in_view_2
unfolding run_all handle may_start state_of process_new_view check_redo get_prepare_msg
    new_view_change_manager collect_all collect_prepared first_request insert lookup all_valid
    is_valid_view_change_msg is_valid_checkpoint_proof quorum min_data_receive_num faulty_num
    prepared_valid proofs_valid senders_of all_verify min_stable max_stable max_prepared largest_key
    redo_all redo_from redo_request sign_null null_request new_request same_data seqs all_there
    member last_seq largest primary_of adopt set_view_and_primary set_next_seq set_current_view
    set_primary redo_requests redo_one is_type type_value send enter_view change_statue
ran = refl

run_views_example :
    (1 ≤ current_view started_in_view_2)
    × (primary_of (replicas_of started_in_view_2) (current_view started_in_view_2)
        ≡ some started_in_view_2.shared.message_manager.system_info.primary_id)
unfolding primary_of
run_views_example =
    run_views always always sign events primary no_checkpoint {m = started_in_view_2} (omega arith)
      (omega arith) refl ran

new_view_once_example : new_views started_in_view_2.outgoing ≤ 1
new_view_once_example =
    new_view_once always always sign events primary no_checkpoint {m = started_in_view_2} ran

-- A replica with a checkpoint that three replicas have signed.
abbrev checkpointed : ViewChangeManager
checkpointed =
    new_view_change_manager primary
      (record { seq = 5; hash = "c"; signatures = signed 1 ∷ signed 2 ∷ signed 3 ∷ [] })

forged_view_change-valid_example :
    is_valid_view_change_msg always always checkpointed (record {
      view_number = 9;
      stable_ckpt = no_checkpoint;
      prepared_msg = record { seq = 1; proof = repeated (quorum checkpointed) proof } ∷ [];
    })
    ≡ true
unfolding new_view_change_manager quorum min_data_receive_num faulty_num senders_of all_verify
    member add
forged_view_change-valid_example =
    forged_view_change-valid always always checkpointed 9 no_checkpoint proof refl (omega arith)
      (omega arith) refl

abbrev unproved : PreparedMessage
unproved = record { seq = 0; proof = [] }

unproved_message-fails_example :
    (is_valid_view_change_msg always always start (with_prepared unproved view_change)
      ≡ is_valid_view_change_msg always always start view_change)
    × (get_prepare_msg sign 2
          (record new_view_of {
            viewchange_messages = view_change ∷ with_prepared unproved view_change ∷ [];
          })
          true
        ≡ none)
unproved_message-fails_example =
    unproved_message-fails always always sign start 2 true view_change unproved
      (record new_view_of {
        viewchange_messages = view_change ∷ with_prepared unproved view_change ∷ [];
      })
      (view_change ∷ []) [] refl (omega arith) refl
