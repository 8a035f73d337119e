-- ===== src/Pbft/ViewChange/Runs/Views.antt =====
-- The view and its primary in the runs of a ViewChangeManager
-- (platform/consensus/ordering/pbft/viewchange_manager.cpp).
use resilientdb.Pbft.CheckPoint.Votes.{StableCheckPoint}
use resilientdb.Pbft.Commitment.{Commitment}
use resilientdb.Pbft.ViewChange.NewView.Adoption.{process_new_view_lem}
use resilientdb.Pbft.ViewChange.Complaints.{add_complaint_timer}
use resilientdb.Pbft.ViewChange.Handlers.{monitor_checkpoint, may_start}
use resilientdb.Pbft.ViewChange.NewView.{process_new_view}
use resilientdb.Pbft.ViewChange.Keeps.{Counts, monitor_timeout-Counts, process_view_change-Keeps}
use resilientdb.Common.Int.{ℤ}
use resilientdb.Messages.{Request, SignatureInfo}
use resilientdb.Pbft.ViewChange.{
  new_view_change_manager, change_statue, push_timeout, NewViewMessage, ViewChangeManager,
  current_view, replicas_of, primary_of,
}
use resilientdb.Common.{
  Option-cases, ◌∷◌, length, List, some, arith, Bool, suc, Option, String, ℕ, ◌+◌, ◌*◌, ◌^◌, ◌≤◌,
  ◌<◌, ◌≡◌, inl, inr, none, [],
}
use resilientdb.Pbft.ViewChange.Runs.{run_all, Event, handle, state_of}

-- What holds of the view `n` events before the end of a run that began at view `v`.
pub record IsRotation (v n : ℕ) (m : ViewChangeManager) : Type 0 where
  pub grown : v ≤ current_view m
  pub room : current_view m + n * 2 ^ 32 < 2 ^ 64
  pub counter_pos : 1 ≤ m.view_change_counter
  pub counter_room : m.view_change_counter + n < 2 ^ 32
  pub is_primary :
      primary_of (replicas_of m) (current_view m)
      ≡ some m.shared.message_manager.system_info.primary_id

Counts-IsRotation :
    {v n : ℕ} (m : ViewChangeManager) {m' : ViewChangeManager}
    → IsRotation v (suc n) m
    → Counts m m'
    → IsRotation v n m'
Counts-IsRotation m r c = ground arith

same-IsRotation :
    {v n : ℕ} (m : ViewChangeManager) {m' : ViewChangeManager}
    → IsRotation v (suc n) m
    → m' ≡ m
    → IsRotation v n m'
same-IsRotation m r e = ground arith

process_new_view-IsRotation :
    (vh : String → SignatureInfo → Bool) (vr : Request → SignatureInfo → Bool)
    (sign : String → Option SignatureInfo) {v n : ℕ} (m : ViewChangeManager) (msg : NewViewMessage)
    {m' : ViewChangeManager} (code : ℤ)
    → IsRotation v (suc n) m
    → process_new_view vh vr sign m (some msg) ≡ some (m', code)
    → IsRotation v n m'
process_new_view-IsRotation vh vr sign m msg code r h =
    elim (process_new_view_lem vh vr sign m msg h) [
      | inl (same, refused) ↦ same-IsRotation m r same
      | inr (expected, view, primary, config, counter, idle, good, redone) ↦ ground arith
    ]

some_state :
    (o : Option (ViewChangeManager × ℤ)) {m : ViewChangeManager}
    → state_of o ≡ some m
    → (code : ℤ) × (o ≡ some (m, code))
unfolding state_of
some_state none h = cc
some_state (some (m, code)) h = (code, ground arith)

module _ (vh : String → SignatureInfo → Bool) (vr : Request → SignatureInfo → Bool)
    (sign : String → Option SignatureInfo) where
  handle-IsRotation :
      {v n : ℕ} (m : ViewChangeManager) (e : Event) {m' : ViewChangeManager}
      → IsRotation v (suc n) m
      → handle vh vr sign m e ≡ some m'
      → IsRotation v n m'
  unfolding handle may_start monitor_checkpoint add_complaint_timer push_timeout change_statue
      process_new_view state_of
  handle-IsRotation m (Event.started is_client) r h = ground arith
  handle-IsRotation m (Event.view_change msg sender now) r h =
      let k = process_view_change-Keeps vh vr sign m msg sender now h in
      Counts-IsRotation m r (k.0, k.1, inl k.2)
  handle-IsRotation m (Event.new_view none) r h = ground arith
  handle-IsRotation m (Event.new_view (some msg)) r h =
      let (code, e) = some_state (process_new_view vh vr sign m (some msg)) h in
      process_new_view-IsRotation vh vr sign m msg code r e
  handle-IsRotation m (Event.complained proxy hash now) r h = ground arith
  handle-IsRotation m (Event.timed_out which now) r h =
      Counts-IsRotation m r (monitor_timeout-Counts m which now h)
  handle-IsRotation m (Event.committable value) r h = ground arith
  handle-IsRotation m (Event.others ckpt c) r h = ground arith

  run_all-IsRotation :
      (es : List Event) {v n : ℕ} (m : ViewChangeManager) {m' : ViewChangeManager}
      → IsRotation v (length es + n) m
      → run_all vh vr sign m es ≡ some m'
      → IsRotation v n m'
  unfolding run_all
  run_all-IsRotation [] m r h = ground arith
  run_all-IsRotation (e ∷ es) m {m' = m'} r h = elim (Option-cases (handle vh vr sign m e)) [
    | inl fault ↦ ground arith
    | inr (m1, e1) ↦
        run_all-IsRotation es m1 {m' = m'} (handle-IsRotation m e (ground arith) e1) (ground arith)
  ]

-- Whatever messages, complaints, timeouts and changes of the shared parts come in, the view of a
-- replica never falls, and its primary is the replica whose turn the view is; in less than 2^31
-- events, from a view below 2^63 whose primary was the right one.
pub run_views :
    (vh : String → SignatureInfo → Bool) (vr : Request → SignatureInfo → Bool)
    (sign : String → Option SignatureInfo) (es : List Event) (c : Commitment)
    (ckpt : StableCheckPoint) {m : ViewChangeManager}
    → length es < 2 ^ 31
    → c.message_manager.system_info.view < 2 ^ 63
    → primary_of c.message_manager.config.replicas c.message_manager.system_info.view
      ≡ some c.message_manager.system_info.primary_id
    → run_all vh vr sign (new_view_change_manager c ckpt) es ≡ some m
    → (c.message_manager.system_info.view ≤ current_view m)
      × (primary_of (replicas_of m) (current_view m)
          ≡ some m.shared.message_manager.system_info.primary_id)
unfolding new_view_change_manager
run_views vh vr sign es c ckpt {m = m} short small primary h =
    let r =
      run_all-IsRotation vh vr sign es {v = c.message_manager.system_info.view} {n = 0}
        (new_view_change_manager c ckpt) {m' = m} (ground arith) h in
    (r.grown, r.is_primary)
