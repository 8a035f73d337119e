-- ===== src/Pbft/ViewChange/Runs/Once.antt =====
-- How often a ViewChangeManager (platform/consensus/ordering/pbft/viewchange_manager.cpp) sends a
-- new view: new_view_is_sent_ is never reset.
use resilientdb.Pbft.ViewChange.NewView.{send_new_view_msg}
use resilientdb.Pbft.CheckPoint.Votes.{StableCheckPoint}
use resilientdb.Pbft.ViewChange.Complaints.{add_complaint_timer}
use resilientdb.Common.Int.{ℤ}
use resilientdb.Pbft.Commitment.{Commitment}
use resilientdb.Pbft.ViewChange.Runs.{exchange, state_of, Event, handle, run_all}
use resilientdb.Pbft.ViewChange.Handlers.{
  monitor_checkpoint, may_start, process_view_change, with_quorum, push_own,
}
use resilientdb.Messages.{Request, SignatureInfo}
use resilientdb.Pbft.ViewChange.Quiet.{
  AtMostOne, new_views, change_statue-Quiet, push_own-Quiet, send_new_view_msg-AtMostOne,
  monitor_timeout-Quiet, process_new_view-Quiet,
}
use resilientdb.Common.{
  ℕ, List, Option, Bool, String, Option-cases, ◌≤◌, ◌≡◌, inl, inr, none, some, [], ◌∷◌, arith,
}
use resilientdb.Pbft.ViewChange.{
  change_statue, push_timeout, ViewChangeMessage, ViewChangeManager, add_view_change,
  new_view_change_manager, TimerType, ViewChangeStatus, replicas_of, primary_of,
}

module _ (vh : String → SignatureInfo → Bool) (vr : Request → SignatureInfo → Bool)
    (sign : String → Option SignatureInfo) where
  with_quorum-AtMostOne :
      (m : ViewChangeManager) (view now : ℕ) (primary : Option ℕ) {m' : ViewChangeManager}
      {code : ℤ}
      → AtMostOne m
      → with_quorum sign m view now primary ≡ some (m', code)
      → AtMostOne m'
  unfolding with_quorum
  with_quorum-AtMostOne m view now none a h = ground arith
  with_quorum-AtMostOne m view now (some primary) a h =
      elim (Option-cases (send_new_view_msg sign m view)) [
        | inl fault ↦ ground (
          arith,
          push_own-Quiet m TimerType.newview now,
          change_statue-Quiet (push_own m TimerType.newview now) ViewChangeStatus.ready_new_view,
        )
        | inr (m1, e) ↦ ground (
          arith,
          send_new_view_msg-AtMostOne sign m view a e,
          change_statue-Quiet m1 ViewChangeStatus.ready_new_view,
          push_own-Quiet m TimerType.newview now,
          change_statue-Quiet (push_own m TimerType.newview now) ViewChangeStatus.ready_new_view,
        )
      ]

  process_view_change-AtMostOne :
      (m : ViewChangeManager) (msg : Option ViewChangeMessage) (sender now : ℕ)
      {m' : ViewChangeManager}
      → AtMostOne m
      → state_of (process_view_change vh vr sign m msg sender now) ≡ some m'
      → AtMostOne m'
  unfolding process_view_change add_view_change state_of
  process_view_change-AtMostOne m none sender now a h = ground arith
  process_view_change-AtMostOne m (some msg) sender now {m' = m'} a h =
      let m0 = (add_view_change m msg sender).0 in
      let primary = primary_of (replicas_of m0) msg.view_number in
      elim (Option-cases (with_quorum sign m0 msg.view_number now primary)) [
        | inl fault ↦ ground arith
        | inr ((m1, code), e) ↦
            ground (arith, with_quorum-AtMostOne m0 msg.view_number now primary a e)
      ]

  handle-AtMostOne :
      (m : ViewChangeManager) (e : Event) {m' : ViewChangeManager}
      → AtMostOne m
      → handle vh vr sign m e ≡ some m'
      → AtMostOne m'
  unfolding handle may_start monitor_checkpoint add_complaint_timer exchange push_timeout
      change_statue
  handle-AtMostOne m (Event.started is_client) a h = ground arith
  handle-AtMostOne m (Event.view_change msg sender now) a h =
      process_view_change-AtMostOne m msg sender now a h
  handle-AtMostOne m (Event.new_view msg) a h =
      ground (arith, process_new_view-Quiet vh vr sign m msg h)
  handle-AtMostOne m (Event.complained proxy hash now) a h = ground arith
  handle-AtMostOne m (Event.timed_out which now) a h =
      ground (arith, monitor_timeout-Quiet m which now h)
  handle-AtMostOne m (Event.committable value) a h = ground arith
  handle-AtMostOne m (Event.others ckpt c) a h = ground arith

  run_all-AtMostOne :
      (es : List Event) (m : ViewChangeManager) {m' : ViewChangeManager}
      → AtMostOne m
      → run_all vh vr sign m es ≡ some m'
      → AtMostOne m'
  unfolding run_all
  run_all-AtMostOne [] m a h = ground arith
  run_all-AtMostOne (e ∷ es) m {m' = m'} a h = elim (Option-cases (handle vh vr sign m e)) [
    | inl fault ↦ ground arith
    | inr (m1, e1) ↦ run_all-AtMostOne es m1 {m' = m'} (handle-AtMostOne m e a e1) (ground arith)
  ]

-- Whatever comes in, a replica sends at most one new view message from its start on: it does not
-- send one for a second view that it becomes the primary of.
pub new_view_once :
    (vh : String → SignatureInfo → Bool) (vr : Request → SignatureInfo → Bool)
    (sign : String → Option SignatureInfo) (es : List Event) (c : Commitment)
    (ckpt : StableCheckPoint) {m : ViewChangeManager}
    → run_all vh vr sign (new_view_change_manager c ckpt) es ≡ some m
    → new_views m.outgoing ≤ 1
unfolding new_view_change_manager new_views
new_view_once vh vr sign es c ckpt {m = m} h = ground (
  arith,
  run_all-AtMostOne vh vr sign es (new_view_change_manager c ckpt) {m' = m} (omega arith) h,
)
