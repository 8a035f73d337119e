-- ===== src/Pbft/ViewChange/Quiet.antt =====
-- Which handlers of ViewChangeManager
-- (platform/consensus/ordering/pbft/viewchange_manager.cpp) send no new view message.
use resilientdb.Pbft.MessageManager.{set_next_seq}
use resilientdb.Pbft.ViewChange.Runs.{state_of}
use resilientdb.Common.Int.{ℤ}
use resilientdb.Pbft.Pool.{get_collector}
use resilientdb.Pbft.ViewChange.Complaints.{erase_timeout}
use resilientdb.Pbft.ViewChange.Redo.{get_prepare_msg}
use resilientdb.Pbft.Collector.{Collector}
use resilientdb.Messages.{Request, SignatureInfo}
use resilientdb.Pbft.ViewChange.NewView.{
  seqs, max_stable, last_seq, enter_view, adopt, check_redo, process_new_view, with_view,
  forget_stored, redo_one, redo_requests, send_with, send_new_view_msg,
}
use resilientdb.Pbft.ViewChange.Handlers.{
  timeout_handler, assert_ready, next_counter, pop_timeout, expire, monitor_timeout, on_timeout,
  push_own, send_view_change_msg, view_change_of, prepared_messages,
}
use resilientdb.Pbft.ViewChange.{
  replicas_of, primary_of, set_view_and_primary, requests_for, NewViewMessage, ViewChangeTimeout,
  Sent, TimerType, ViewChangeStatus, send, ViewChangeManager, change_statue, push_timeout,
}
use resilientdb.Common.{
  Bool-cases, Option, ◌∷◌, String, arith, suc, ℕ, Bool, List, Option-cases, ◌+◌, ◌≤◌, ◌≡◌, inl, inr,
  true, false, some, [], ◌++◌, none, ◌%◌, ◌^◌,
}

-- The new view messages that were sent.
unfoldable pub new_views : List Sent → ℕ
new_views [] = 0
new_views (Sent.new_view_msg v ∷ xs) = suc (new_views xs)
new_views (x ∷ xs) = new_views xs

pub new_views-append : (xs ys : List Sent) → new_views (xs ++ ys) ≡ new_views xs + new_views ys
unfolding new_views
new_views-append [] ys = ground arith
new_views-append (Sent.view_change_msg v ∷ xs) ys = new_views-append xs ys
new_views-append (Sent.new_view_msg v ∷ xs) ys = omega (arith, new_views-append xs ys)
new_views-append (Sent.redo r ∷ xs) ys = new_views-append xs ys
new_views-append (Sent.to_self r ∷ xs) ys = new_views-append xs ys

-- None before the flag is set, and one at most after.
abbrev pub allowed : Bool → ℕ
allowed true = 1
allowed false = 0

abbrev pub AtMostOne : ViewChangeManager → Type 0
AtMostOne m = new_views m.outgoing ≤ allowed m.new_view_is_sent

-- Nothing of this kind is sent, and the flag stays.
abbrev pub Quiet : ViewChangeManager → ViewChangeManager → Type 0
Quiet m m' =
    (new_views m'.outgoing ≡ new_views m.outgoing) × (m'.new_view_is_sent ≡ m.new_view_is_sent)

pub push_timeout-Quiet :
    (m : ViewChangeManager) (id : ℕ) (t : ViewChangeTimeout) → Quiet m (push_timeout m id t)
unfolding push_timeout
push_timeout-Quiet m id t = ground arith

pub change_statue-Quiet :
    (m : ViewChangeManager) (s : ViewChangeStatus) → Quiet m (change_statue m s)
unfolding change_statue
change_statue-Quiet m ViewChangeStatus.ready_view_change = ground arith
change_statue-Quiet m s = ground arith

pub push_own-Quiet : (m : ViewChangeManager) (k : TimerType) (now : ℕ) → Quiet m (push_own m k now)
unfolding push_own
push_own-Quiet m k now = push_timeout-Quiet m _ _

pub send_view_change_msg-Quiet :
    (m : ViewChangeManager) {m' : ViewChangeManager} → send_view_change_msg m ≡ some m' → Quiet m m'
unfolding send_view_change_msg send new_views
send_view_change_msg-Quiet m h = elim (Option-cases (prepared_messages m)) [
  | inl fault ↦ ground arith
  | inr (ps, e) ↦
      ground
        (arith, e, new_views-append m.outgoing (Sent.view_change_msg (view_change_of m ps) ∷ []))
]

pub send_with_one :
    (m : ViewChangeManager) (msg : NewViewMessage) (found : Option (List Request))
    {m' : ViewChangeManager}
    → send_with m msg found ≡ some m'
    → (new_views m'.outgoing ≡ new_views m.outgoing + 1)
      × (m'.new_view_is_sent ≡ m.new_view_is_sent)
unfolding send_with send new_views
send_with_one m msg none h = ground arith
send_with_one m msg (some rs) h =
    ground
      (arith, new_views-append m.outgoing (Sent.new_view_msg (record msg { request = rs }) ∷ []))

pub send_new_view_msg-AtMostOne :
    (sign : String → Option SignatureInfo) (m : ViewChangeManager) (view : ℕ)
    {m' : ViewChangeManager}
    → AtMostOne m
    → send_new_view_msg sign m view ≡ some m'
    → AtMostOne m'
unfolding send_new_view_msg
send_new_view_msg-AtMostOne sign m view {m' = m'} a h = elim (Bool-cases m.new_view_is_sent) [
  | inl old ↦ ground arith
  | inr new ↦
      let msg : NewViewMessage = record {
        view_number = view;
        request = [];
        viewchange_messages = with_view view (requests_for m view);
      } in
      ground (
        arith,
        new,
        send_with_one (record m { new_view_is_sent = true }) msg
            (get_prepare_msg sign m.shared.self_id msg true) {m' = m'},
      )
]

pub forget_stored-Quiet :
    (m : ViewChangeManager) (c : Option Collector) {m' : ViewChangeManager}
    → forget_stored m c ≡ some m'
    → Quiet m m'
unfolding forget_stored
forget_stored-Quiet m none h = ground arith
forget_stored-Quiet m (some c) h = ground arith

pub redo_one-Quiet :
    (m : ViewChangeManager) (r : Request) {m' : ViewChangeManager}
    → redo_one m r ≡ some m'
    → Quiet m m'
unfolding redo_one send new_views
redo_one-Quiet m r {m' = m'} h =
    let c = get_collector m.shared.message_manager.collector_pool r.seq in
    elim (Option-cases (forget_stored m c)) [
      | inl fault ↦ ground (arith, fault, new_views-append m.outgoing (Sent.redo r ∷ []))
      | inr (m1, e) ↦ ground (
        arith,
        forget_stored-Quiet m c e,
        new_views-append m1.outgoing (Sent.to_self r ∷ []),
        new_views-append m.outgoing (Sent.redo r ∷ []),
      )
    ]

pub redo_requests-Quiet :
    (m : ViewChangeManager) (rs : List Request) {m' : ViewChangeManager}
    → redo_requests m rs ≡ some m'
    → Quiet m m'
unfolding redo_requests
redo_requests-Quiet m [] h = ground arith
redo_requests-Quiet m (r ∷ rs) {m' = m'} h = elim (Option-cases (redo_one m r)) [
  | inl fault ↦ ground arith
  | inr (m1, e) ↦ ground (arith, redo_one-Quiet m r e, redo_requests-Quiet m1 rs {m' = m'})
]

pub on_timeout-Quiet :
    (m : ViewChangeManager) (now : ℕ) {m' : ViewChangeManager}
    → on_timeout m now ≡ some m'
    → Quiet m m'
unfolding on_timeout
on_timeout-Quiet m now {m' = m'} h =
    let m0 = record m { view_change_counter = next_counter m.status m.view_change_counter } in
    let m1 = change_statue m0 ViewChangeStatus.ready_view_change in
    elim (Option-cases (send_view_change_msg m1)) [
      | inl fault ↦ ground arith
      | inr (m2, e) ↦ ground (
        arith,
        change_statue-Quiet m0 ViewChangeStatus.ready_view_change,
        send_view_change_msg-Quiet m1 e,
        push_own-Quiet m2 TimerType.viewchange now,
      )
    ]

pub expire-Quiet :
    (m : ViewChangeManager) (t : ViewChangeTimeout) (k : TimerType) (now : ℕ)
    {m' : ViewChangeManager}
    → expire m t k now ≡ some m'
    → Quiet m m'
unfolding expire assert_ready timeout_handler
expire-Quiet m t TimerType.newview now {m' = m'} h =
    ground (arith, on_timeout-Quiet m now {m' = m'})
expire-Quiet m t TimerType.viewchange now {m' = m'} h = ground (
  arith,
  change_statue-Quiet m ViewChangeStatus.view_change_fail,
  on_timeout-Quiet (change_statue m ViewChangeStatus.view_change_fail) now {m' = m'},
)
expire-Quiet m t TimerType.complaint now {m' = m'} h =
    let m1 = record m {
      complaining_clients = erase_timeout m.complaining_clients t.proxy_id t.hash;
    } in
    ground (arith, on_timeout-Quiet m1 now {m' = m'})

pub monitor_timeout-Quiet :
    (m : ViewChangeManager) (which now : ℕ) {m' : ViewChangeManager}
    → monitor_timeout m which now ≡ some m'
    → Quiet m m'
unfolding monitor_timeout
monitor_timeout-Quiet m which now {m' = m'} h = elim (Option-cases (pop_timeout which m.timeouts)) [
  | inl empty ↦ ground arith
  | inr ((t, heaps), e) ↦
      ground (arith, e, expire-Quiet (record m { timeouts = heaps }) t t.kind now {m' = m'})
]

pub adopt-Quiet :
    (m : ViewChangeManager) (msg : NewViewMessage) (last : ℕ) (id : Option ℕ)
    {m' : ViewChangeManager} {code : ℤ}
    → adopt m msg last id ≡ some (m', code)
    → Quiet m m'
unfolding adopt enter_view change_statue set_view_and_primary
adopt-Quiet m msg last none h = ground arith
adopt-Quiet m msg last (some id) {m' = m'} h =
    let m1 = set_view_and_primary m msg.view_number id in
    let m2 = record m1 {
      shared = record m1.shared {
        message_manager = set_next_seq m1.shared.message_manager ((last + 1) % 2 ^ 64);
      };
    } in
    elim (Option-cases (redo_requests m2 msg.request)) [
      | inl fault ↦ ground arith
      | inr (m3, e) ↦ ground (arith, redo_requests-Quiet m2 msg.request e)
    ]

pub check_redo-Quiet :
    (m : ViewChangeManager) (msg : NewViewMessage) (found : Option (List Request))
    {m' : ViewChangeManager} {code : ℤ}
    → check_redo m msg found ≡ some (m', code)
    → Quiet m m'
unfolding check_redo
check_redo-Quiet m msg none h = ground arith
check_redo-Quiet m msg (some requests) {m' = m'} {code = code} h =
    let last = last_seq (max_stable 0 msg.viewchange_messages) (seqs requests) in
    let id = primary_of (replicas_of m) msg.view_number in
    ground (arith, adopt-Quiet m msg last id {m' = m'} {code = code})

module _ (vh : String → SignatureInfo → Bool) (vr : Request → SignatureInfo → Bool)
    (sign : String → Option SignatureInfo) where
  pub process_new_view-Quiet :
      (m : ViewChangeManager) (msg : Option NewViewMessage) {m' : ViewChangeManager}
      → state_of (process_new_view vh vr sign m msg) ≡ some m'
      → Quiet m m'
  unfolding process_new_view state_of
  process_new_view-Quiet m none h = ground arith
  process_new_view-Quiet m (some msg) {m' = m'} h =
      let found = get_prepare_msg sign m.shared.self_id msg false in
      elim (Option-cases (check_redo m msg found)) [
        | inl fault ↦ ground arith
        | inr ((m1, code), e) ↦ ground (arith, check_redo-Quiet m msg found e)
      ]
