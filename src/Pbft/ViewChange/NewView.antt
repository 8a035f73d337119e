-- ===== src/Pbft/ViewChange/NewView.antt =====
-- ProcessNewView and SendNewViewMsg of ViewChangeManager
-- (platform/consensus/ordering/pbft/viewchange_manager.cpp). A handler gives `none` where the code
-- reads what is not there: a first proof, a collector, a request moved away, a replica of none.
pub mod Accepted
pub mod Adoption
use resilientdb.Common.{
  number_keys, text_keys, if◌then◌else◌, length, ltb, ◌==◌, ℕ, zero, suc, ◌+◌, ◌-◌, ◌%◌, ◌^◌, max,
  String, Bool, true, false, not, Option, none, some, List, [], ◌∷◌,
}
use resilientdb.Common.Int.{ℤ, negsuc}
use resilientdb.Common.Maps.{Map, member}
use resilientdb.Messages.{RequestType, is_type, SignatureInfo, Request, success, failure}
use resilientdb.Execution.DuplicateManager.{DuplicateManager, erase_proposed}
use resilientdb.Pbft.Collector.{Collector, get_all_stored_hash}
use resilientdb.Pbft.Pool.{get_collector}
use resilientdb.Pbft.MessageManager.{set_next_seq}
use resilientdb.Pbft.ViewChange.{
  ViewChangeMessage, NewViewMessage, ViewChangeManager, ViewChangeStatus, redo, to_self,
  new_view_msg, current_view, replicas_of, send, change_statue, primary_of, set_view_and_primary,
  requests_for,
}
use resilientdb.Pbft.ViewChange.Redo.{get_prepare_msg, min_stable, max_uint64}
use resilientdb.Pbft.ViewChange.Validity.{all_valid}

-- The integer -4.
abbrev pub new_primary : ℤ
new_primary = negsuc 3

-- max_s of ProcessNewView.
unfoldable pub max_stable : ℕ → List ViewChangeMessage → ℕ
max_stable s [] = s
max_stable s (v ∷ vs) = max_stable (max s v.stable_ckpt.seq) vs

-- The loop that compares the data of two lists of one length.
unfoldable pub same_data : List Request → List Request → Bool
same_data [] _ = true
same_data (x ∷ xs) [] = true
same_data (x ∷ xs) (y ∷ ys) = if not (x.payload == y.payload) then false else same_data xs ys

-- The numbers of the requests.
unfoldable pub seqs : List Request → List ℕ
seqs [] = []
seqs (r ∷ rs) = r.seq ∷ seqs rs

-- The loop that looks for the numbers from `i` on, as many as the rounds.
unfoldable pub all_there : List ℕ → ℕ → ℕ → Bool
all_there found zero i = true
all_there found (suc rounds) i =
    let rest = all_there found rounds (i + 1) in if member i found then rest else false

-- `*(--seq_set.end())`, or max_s of no numbers.
unfoldable pub largest : List ℕ → ℕ
largest [] = 0
largest (i ∷ is) = max i (largest is)

unfoldable pub last_seq : ℕ → List ℕ → ℕ
unfolding largest
last_seq max_s [] = max_s
last_seq max_s (i ∷ is) = largest (i ∷ is)

-- The loop that erases the hashes of the proposals that are not proposed again.
unfoldable pub erase_all : DuplicateManager → List String → DuplicateManager
unfolding erase_proposed
erase_all d [] = d
erase_all d (h ∷ hs) = erase_all (erase_proposed d h) hs

unfoldable pub forget_stored : ViewChangeManager → Option Collector → Option ViewChangeManager
unfolding erase_all
forget_stored m none = none
forget_stored m (some c) = elim (get_all_stored_hash c) [
  | none ↦ none
  | some hashes ↦ some (record m {
    shared = record m.shared { duplicate_manager = erase_all m.shared.duplicate_manager hashes };
  })
]

-- A round of the last loop of ProcessNewView.
unfoldable pub redo_one : ViewChangeManager → Request → Option ViewChangeManager
unfolding is_type forget_stored send
redo_one m request =
    if is_type request.kind RequestType.pre_prepare
    then (elim (forget_stored m
        (get_collector m.shared.message_manager.collector_pool request.seq)) [
          | none ↦ none
          | some m' ↦ some (send m' (to_self request))
        ])
    else if ltb m.shared.highest_prepared_seq request.seq
    then some (
        send (record m { shared = record m.shared { highest_prepared_seq = request.seq } })
          (redo request))
    else some (send m (redo request))

unfoldable pub redo_requests : ViewChangeManager → List Request → Option ViewChangeManager
unfolding redo_one
redo_requests m [] = some m
redo_requests m (r ∷ rs) = elim (redo_one m r) [ none ↦ none | some m' ↦ redo_requests m' rs ]

-- The end of ProcessNewView, after the loop.
unfoldable pub enter_view : Option ViewChangeManager → Option (ViewChangeManager × ℤ)
unfolding change_statue
enter_view none = none
enter_view (some m) = some (
  change_statue m ViewChangeStatus.idle,
  if m.shared.self_id == m.shared.message_manager.system_info.primary_id
      then new_primary
      else success,
)

-- ProcessNewView past the checks, with the number of the last request and the new primary.
unfoldable pub adopt :
    ViewChangeManager → NewViewMessage → ℕ → Option ℕ → Option (ViewChangeManager × ℤ)
unfolding set_view_and_primary set_next_seq redo_requests enter_view
adopt m msg max_seq none = none
adopt m msg max_seq (some id) =
    let m1 = set_view_and_primary m msg.view_number id in
    let m2 = record m1 {
      shared = record m1.shared {
        message_manager = set_next_seq m1.shared.message_manager ((max_seq + 1) % 2 ^ 64);
      };
    } in
    enter_view (redo_requests m2 msg.request)

-- ProcessNewView once GetPrepareMsg has returned.
unfoldable pub check_redo :
    ViewChangeManager → NewViewMessage → Option (List Request) → Option (ViewChangeManager × ℤ)
unfolding same_data seqs all_there max_stable last_seq adopt primary_of
check_redo m msg none = none
check_redo m msg (some requests) =
    let first = (min_stable max_uint64 msg.viewchange_messages + 1) % 2 ^ 64 in
    let max_s = max_stable 0 msg.viewchange_messages in
    if not (length requests == length msg.request)
    then some (m, failure)
    else if not (same_data requests msg.request)
    then some (m, failure)
    else if not (all_there (seqs requests) (max_s + 1 - first) first)
    then some (m, failure)
    else adopt m msg (last_seq max_s (seqs requests)) (primary_of (replicas_of m) msg.view_number)

module _ (verify_hash : String → SignatureInfo → Bool)
    (verify_request : Request → SignatureInfo → Bool) (sign : String → Option SignatureInfo) where
  -- ProcessNewView; `none` is data that is not parsed.
  unfoldable pub process_new_view :
      ViewChangeManager → Option NewViewMessage → Option (ViewChangeManager × ℤ)
  unfolding check_redo
  process_new_view m none = some (m, failure)
  process_new_view m (some msg) =
      if not (msg.view_number == (current_view m + m.view_change_counter) % 2 ^ 64)
      then some (m, failure)
      else if not (all_valid verify_hash verify_request m msg.viewchange_messages)
      then some (m, failure)
      else check_redo m msg (get_prepare_msg sign m.shared.self_id msg false)

-- The loop of SendNewViewMsg over the messages of the view.
unfoldable pub with_view : ℕ → Map ℕ ViewChangeMessage → List ViewChangeMessage
with_view view [] = []
with_view view ((sender, msg) ∷ more) = record msg { view_number = view } ∷ with_view view more

-- The new view message, once GetPrepareMsg has returned.
unfoldable pub send_with :
    ViewChangeManager → NewViewMessage → Option (List Request) → Option ViewChangeManager
unfolding send
send_with m msg none = none
send_with m msg (some requests) = some (send m (new_view_msg (record msg { request = requests })))

-- SendNewViewMsg.
unfoldable pub send_new_view_msg :
    (String → Option SignatureInfo) → ViewChangeManager → ℕ → Option ViewChangeManager
unfolding with_view send_with requests_for
send_new_view_msg sign m view =
    if m.new_view_is_sent
    then some m
    else (let msg : NewViewMessage = record {
      view_number = view;
      request = [];
      viewchange_messages = with_view view (requests_for m view);
    } in
        send_with (record m { new_view_is_sent = true }) msg
          (get_prepare_msg sign m.shared.self_id msg true))
