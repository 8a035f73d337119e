-- ===== src/Pbft/ViewChange/Handlers.antt =====
-- SendViewChangeMsg, the timeout handler of MayStart, ProcessViewChange and the rounds of the two
-- monitoring threads of ViewChangeManager
-- (platform/consensus/ordering/pbft/viewchange_manager.cpp). `now` is what GetCurrentTime returns,
-- and an assertion that fails is `none`.
use resilientdb.Common.{
  number_keys, text_keys, if◌then◌else◌, length, leb, ltb, ◌==◌, ℕ, zero, suc, ◌+◌, ◌-◌, ◌%◌, ◌^◌,
  String, Bool, true, not, ◌&&◌, Option, none, some, List, [], ◌∷◌,
}
use resilientdb.Common.Int.{ℤ}
use resilientdb.Common.Maps.{Map}
use resilientdb.Messages.{SignatureInfo, Request, success, failure}
use resilientdb.Pbft.Status.{Status, at_most}
use resilientdb.Pbft.Collector.{RequestInfo}
use resilientdb.Pbft.MessageManager.{
  MessageManager, get_transaction_state, get_prepared_proof_of, get_last_committed_time,
}
use resilientdb.Pbft.ViewChange.{
  add_view_change, PreparedProof, PreparedMessage, ViewChangeMessage, ViewChangeTimeout, TimerType,
  ViewChangeStatus, ViewChangeManager, view_change_msg, is_vc_status, current_view, replicas_of,
  send, timeout_length, new_timeout, push_timeout, change_statue, is_in_view_change, primary_of,
}
use resilientdb.Pbft.ViewChange.Complaints.{erase_timeout}
use resilientdb.Pbft.ViewChange.Validity.{quorum, is_valid_view_change_msg}
use resilientdb.Pbft.ViewChange.NewView.{send_new_view_msg}

-- An int, by its distance from the smallest one: a uint64_t cut to an int, and an int that is
-- passed as a uint64_t.
unfoldable pub to_int : ℕ → ℕ
to_int x = (x + 2 ^ 31) % 2 ^ 32

unfoldable pub of_int : ℕ → ℕ
of_int b = (b + 2 ^ 64 - 2 ^ 31) % 2 ^ 64

-- The loop that copies the proofs; `none` is a proof whose request is moved away.
unfoldable pub to_proofs : List RequestInfo → Option (List PreparedProof)
to_proofs [] = some []
to_proofs (i ∷ is) = elim i.request [
  | none ↦ none
  | some r ↦ elim (to_proofs is) [
    | none ↦ none
    | some ps ↦ some (record { request = r; signature = i.signature } ∷ ps)
  ]
]

-- The prepared message of a number, with the proofs of its collector.
unfoldable pub prepared_with : ℕ → ℕ → Option (List RequestInfo) → Option PreparedMessage
unfolding to_proofs
prepared_with needed seq none = none
prepared_with needed seq (some infos) =
    if ltb (length infos) needed then none else (elim (to_proofs infos) [
      | none ↦ none
      | some ps ↦ some (record { seq = seq; proof = ps })
    ])

-- The loop over the numbers from an int on, as many as the rounds.
unfoldable pub prepared_from : MessageManager → ℕ → ℕ → ℕ → Option (List PreparedMessage)
unfolding at_most prepared_with of_int
prepared_from mm needed zero i = some []
prepared_from mm needed (suc rounds) i =
    let later = prepared_from mm needed rounds (i + 1) in
    elim (get_transaction_state mm (of_int i)) [
      | none ↦ none
      | some status ↦
          if at_most Status.ready_commit status
          then (elim (prepared_with needed (of_int i) (get_prepared_proof_of mm (of_int i))) [
            | none ↦ none
            | some p ↦ elim later [ none ↦ none | some ps ↦ some (p ∷ ps) ]
          ])
          else later
    ]

-- The view change message, with the prepared messages.
unfoldable pub view_change_of : ViewChangeManager → List PreparedMessage → ViewChangeMessage
view_change_of m prepared = record {
  view_number = (current_view m + m.view_change_counter) % 2 ^ 64;
  stable_ckpt = m.stable_ckpt;
  prepared_msg = prepared;
}

-- The prepared messages of SendViewChangeMsg: the numbers go as ints from the one after the stable
-- checkpoint to the highest prepared one.
unfoldable pub prepared_messages : ViewChangeManager → Option (List PreparedMessage)
unfolding prepared_from to_int quorum
prepared_messages m =
    let first = to_int ((m.stable_ckpt.seq + 1) % 2 ^ 64) in
    prepared_from m.shared.message_manager (quorum m)
      (to_int m.shared.highest_prepared_seq + 1 - first) first

-- SendViewChangeMsg.
unfoldable pub send_view_change_msg : ViewChangeManager → Option ViewChangeManager
unfolding prepared_messages view_change_of send
send_view_change_msg m = elim (prepared_messages m) [
  | none ↦ none
  | some prepared ↦ some (send m (view_change_msg (view_change_of m prepared)))
]

-- The counter at a timeout.
unfoldable pub next_counter : ViewChangeStatus → ℕ → ℕ
next_counter ViewChangeStatus.idle counter = 1
next_counter ViewChangeStatus.ready_new_view counter = (counter + 1) % 2 ^ 32
next_counter _ counter = counter

-- A timer for the replica itself.
unfoldable pub push_own : ViewChangeManager → TimerType → ℕ → ViewChangeManager
unfolding push_timeout new_timeout
push_own m kind now =
    push_timeout m m.shared.self_id
      (new_timeout kind (current_view m) m.shared.self_id "null" now timeout_length)

-- The function that MayStart gives to SetTimeoutHandler. ChangeStatue has set the status, so that
-- its result is true.
unfoldable pub on_timeout : ViewChangeManager → ℕ → Option ViewChangeManager
unfolding next_counter change_statue send_view_change_msg push_own
on_timeout m now =
    let m1 = record m { view_change_counter = next_counter m.status m.view_change_counter } in
    elim (send_view_change_msg (change_statue m1 ViewChangeStatus.ready_view_change)) [
      | none ↦ none
      | some m2 ↦ some (push_own m2 TimerType.viewchange now)
    ]

-- TimeoutHandler of the CheckPointManager.
unfoldable pub timeout_handler : ViewChangeManager → ℕ → Option ViewChangeManager
unfolding on_timeout
timeout_handler m now = if m.has_handler then on_timeout m now else some m

-- MayStart, with whether the replica's key is a client's.
unfoldable pub may_start : ViewChangeManager → Bool → ViewChangeManager
may_start m is_client =
    if m.started
    then m
    else if is_client
    then record m { started = true }
    else record m { started = true; has_handler = true }

-- ProcessViewChange once a quorum has sent messages for the view, with the view's primary.
unfoldable pub with_quorum :
    (String → Option SignatureInfo)
    → ViewChangeManager
    → ℕ
    → ℕ
    → Option ℕ
    → Option (ViewChangeManager × ℤ)
unfolding push_own change_statue send_new_view_msg
with_quorum sign m view now none = none
with_quorum sign m view now (some primary) =
    if primary == m.shared.self_id
    then (elim (send_new_view_msg sign m view) [
      | none ↦ none
      | some m' ↦ some (change_statue m' ViewChangeStatus.ready_new_view, success)
    ])
    else some
        (change_statue (push_own m TimerType.newview now) ViewChangeStatus.ready_new_view, success)

module _ (verify_hash : String → SignatureInfo → Bool)
    (verify_request : Request → SignatureInfo → Bool) (sign : String → Option SignatureInfo) where
  -- ProcessViewChange; `none` is data that is not parsed.
  unfoldable pub process_view_change :
      ViewChangeManager → Option ViewChangeMessage → ℕ → ℕ → Option (ViewChangeManager × ℤ)
  unfolding add_view_change with_quorum primary_of quorum
  process_view_change m none sender now = some (m, failure)
  process_view_change m (some msg) sender now =
      let (m', count) = add_view_change m msg sender in
      if not (is_valid_view_change_msg verify_hash verify_request m msg)
      then some (m, failure)
      else if leb (quorum m') count
      then with_quorum sign m' msg.view_number now (primary_of (replicas_of m') msg.view_number)
      else some (m', success)

-- The first heap that is not empty, in the order of the ids, without its `which`-th timeout.
unfoldable pub take_at :
    ℕ → List ViewChangeTimeout → Option (ViewChangeTimeout × List ViewChangeTimeout)
take_at which [] = none
take_at zero (t ∷ ts) = some (t, ts)
take_at (suc which) (t ∷ ts) = elim (take_at which ts) [
  | none ↦ some (t, ts)
  | some (u, us) ↦ some (u, t ∷ us)
]

unfoldable pub pop_timeout :
    ℕ → Map ℕ (List ViewChangeTimeout) → Option (ViewChangeTimeout × Map ℕ (List ViewChangeTimeout))
unfolding take_at
pop_timeout which [] = none
pop_timeout which ((id, heap) ∷ more) = elim (take_at which heap) [
  | some (t, heap') ↦ some (t, (id, heap') ∷ more)
  | none ↦ elim (pop_timeout which more) [
    | none ↦ none
    | some (t, more') ↦ some (t, (id, heap) ∷ more')
  ]
]

-- `assert(status_ == ViewChangeStatus::READY_VIEW_CHANGE)`.
unfoldable pub assert_ready : Option ViewChangeManager → Option ViewChangeManager
unfolding is_vc_status
assert_ready none = none
assert_ready (some m) =
    if is_vc_status m.status ViewChangeStatus.ready_view_change then some m else none

-- What MonitoringViewChangeTimeOut does with a timeout of each kind, once its time has come.
unfoldable pub expire :
    ViewChangeManager → ViewChangeTimeout → TimerType → ℕ → Option ViewChangeManager
unfolding timeout_handler assert_ready change_statue is_vc_status erase_timeout
expire m t TimerType.newview now =
    if is_vc_status m.status ViewChangeStatus.ready_new_view && t.view == current_view m
    then timeout_handler m now
    else some m
expire m t TimerType.viewchange now =
    if is_vc_status m.status ViewChangeStatus.ready_view_change && t.view == current_view m
    then timeout_handler (change_statue m ViewChangeStatus.view_change_fail) now
    else some m
expire m t TimerType.complaint now =
    let m' = record m {
      complaining_clients = erase_timeout m.complaining_clients t.proxy_id t.hash;
    } in
    if is_vc_status m.status ViewChangeStatus.idle && t.view == current_view m
    then (if leb (get_last_committed_time m.shared.message_manager t.proxy_id) t.start_time
        then assert_ready (timeout_handler m' now)
        else some m')
    else some m'

-- A round of MonitoringViewChangeTimeOut. Which timeout of the heap comes first depends on
-- addresses: it is the argument `which`.
unfoldable pub monitor_timeout : ViewChangeManager → ℕ → ℕ → Option ViewChangeManager
unfolding pop_timeout expire
monitor_timeout m which now = elim (pop_timeout which m.timeouts) [
  | none ↦ some m
  | some (t, heaps) ↦ expire (record m { timeouts = heaps }) t t.kind now
]

-- A round of MonitoringCheckpointState with GetCommittableSeq.
unfoldable pub monitor_checkpoint : ViewChangeManager → ℕ → ViewChangeManager
unfolding is_in_view_change change_statue
monitor_checkpoint m value =
    if not (m.last_seq_value == value)
    then (let m' = record m { last_seq_value = value } in
        if is_in_view_change m' then change_statue m' ViewChangeStatus.idle else m')
    else m
