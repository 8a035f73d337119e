-- ===== src/Pbft/ViewChange/Keeps.antt =====
-- What the handlers of ViewChangeManager
-- (platform/consensus/ordering/pbft/viewchange_manager.cpp) leave of the view, its primary and the
-- counter of views.
use resilientdb.Common.{
  ◌⊎◌, ◌+◌, ◌%◌, ◌^◌, number_keys, text_keys, ℕ, String, ◌≡◌, Option, none, some, List, [], ◌∷◌,
  arith, Option-cases, inl, inr, ◌+◌, ◌^◌, Bool,
}
use resilientdb.Messages.{SignatureInfo, Request}
use resilientdb.Pbft.Collector.{Collector}
use resilientdb.Pbft.ViewChange.{
  add_view_change, ViewChangeTimeout, TimerType, ViewChangeStatus, ready_view_change,
  ViewChangeManager, send, push_timeout, change_statue, ViewChangeMessage,
}
use resilientdb.Pbft.ViewChange.NewView.{
  forget_stored, redo_one, redo_requests, send_with, send_new_view_msg,
}
use resilientdb.Pbft.ViewChange.Complaints.{erase_timeout}
use resilientdb.Pbft.ViewChange.Handlers.{
  next_counter, on_timeout, timeout_handler, expire, assert_ready, pop_timeout, monitor_timeout,
  process_view_change, with_quorum, push_own, send_view_change_msg, next_counter, on_timeout,
  timeout_handler, assert_ready, expire,
}
use resilientdb.Pbft.ViewChange.Runs.{state_of}

-- The view, its primary, the config, the counter and the next number are the same.
abbrev pub Keeps : ViewChangeManager → ViewChangeManager → Type 0
Keeps m m' =
    (m'.shared.message_manager.system_info ≡ m.shared.message_manager.system_info)
    × (m'.shared.message_manager.config ≡ m.shared.message_manager.config)
    × (m'.view_change_counter ≡ m.view_change_counter)
    × (m'.shared.message_manager.next_seq ≡ m.shared.message_manager.next_seq)

pub push_timeout-Keeps :
    (m : ViewChangeManager) (id : ℕ) (t : ViewChangeTimeout) → Keeps m (push_timeout m id t)
unfolding push_timeout
push_timeout-Keeps m id t = ground arith

pub change_statue-Keeps :
    (m : ViewChangeManager) (s : ViewChangeStatus) → Keeps m (change_statue m s)
unfolding change_statue
change_statue-Keeps m ready_view_change = ground arith
change_statue-Keeps m s = ground arith

pub push_own-Keeps : (m : ViewChangeManager) (k : TimerType) (now : ℕ) → Keeps m (push_own m k now)
unfolding push_own
push_own-Keeps m k now = push_timeout-Keeps m _ _

pub send_view_change_msg-Keeps :
    (m : ViewChangeManager) {m' : ViewChangeManager} → send_view_change_msg m ≡ some m' → Keeps m m'
unfolding send_view_change_msg send
send_view_change_msg-Keeps m h = ground arith

pub send_new_view_msg-Keeps :
    (sign : String → Option SignatureInfo) (m : ViewChangeManager) (view : ℕ)
    {m' : ViewChangeManager}
    → send_new_view_msg sign m view ≡ some m'
    → Keeps m m'
unfolding send_new_view_msg send_with send
send_new_view_msg-Keeps sign m view h = ground arith

pub forget_stored-Keeps :
    (m : ViewChangeManager) (c : Option Collector) {m' : ViewChangeManager}
    → forget_stored m c ≡ some m'
    → Keeps m m'
unfolding forget_stored
forget_stored-Keeps m none h = ground arith
forget_stored-Keeps m (some c) h = ground arith

pub redo_one-Keeps :
    (m : ViewChangeManager) (r : Request) {m' : ViewChangeManager}
    → redo_one m r ≡ some m'
    → Keeps m m'
unfolding redo_one send
redo_one-Keeps m r h = grind (arith, forget_stored-Keeps)

pub redo_requests-Keeps :
    (m : ViewChangeManager) (rs : List Request) {m' : ViewChangeManager}
    → redo_requests m rs ≡ some m'
    → Keeps m m'
unfolding redo_requests
redo_requests-Keeps m [] h = ground arith
redo_requests-Keeps m (r ∷ rs) {m' = m'} h = elim (Option-cases (redo_one m r)) [
  | inl fault ↦ ground arith
  | inr (m1, e) ↦ ground (arith, redo_one-Keeps m r e, redo_requests-Keeps m1 rs {m' = m'})
]

pub on_timeout-Grows :
    (m : ViewChangeManager) (now : ℕ) {m' : ViewChangeManager}
    → on_timeout m now ≡ some m'
    → (m'.shared.message_manager.system_info ≡ m.shared.message_manager.system_info)
      × (m'.shared.message_manager.config ≡ m.shared.message_manager.config)
      × (m'.view_change_counter ≡ next_counter m.status m.view_change_counter)
unfolding on_timeout
on_timeout-Grows m now {m' = m'} h =
    let m1 =
      change_statue (record m { view_change_counter = next_counter m.status m.view_change_counter })
        ready_view_change in
    elim (Option-cases (send_view_change_msg m1)) [
      | inl fault ↦ ground arith
      | inr (m2, e) ↦ ground (
        arith,
        change_statue-Keeps
            (record m { view_change_counter = next_counter m.status m.view_change_counter })
            ready_view_change,
        send_view_change_msg-Keeps m1 e,
        push_own-Keeps m2 TimerType.viewchange now,
      )
    ]

-- The view, its primary and the config are the same, and the counter is the same, the next one, or
-- 1.
abbrev pub Counts : ViewChangeManager → ViewChangeManager → Type 0
Counts m m' =
    (m'.shared.message_manager.system_info ≡ m.shared.message_manager.system_info)
    × (m'.shared.message_manager.config ≡ m.shared.message_manager.config)
    × ((m'.view_change_counter ≡ m.view_change_counter)
        ⊎ ((m'.view_change_counter ≡ 1)
            ⊎ (m'.view_change_counter ≡ (m.view_change_counter + 1) % 2 ^ 32)))

pub timeout_handler-Counts :
    (m : ViewChangeManager) (now : ℕ) {m' : ViewChangeManager}
    → timeout_handler m now ≡ some m'
    → Counts m m'
unfolding timeout_handler next_counter
timeout_handler-Counts m now {m' = m'} h = ground (arith, on_timeout-Grows m now {m' = m'})

pub expire-Counts :
    (m : ViewChangeManager) (t : ViewChangeTimeout) (k : TimerType) (now : ℕ)
    {m' : ViewChangeManager}
    → expire m t k now ≡ some m'
    → Counts m m'
unfolding expire assert_ready
expire-Counts m t TimerType.newview now {m' = m'} h =
    ground (arith, timeout_handler-Counts m now {m' = m'})
expire-Counts m t TimerType.viewchange now {m' = m'} h = ground (
  arith,
  change_statue-Keeps m ViewChangeStatus.view_change_fail,
  timeout_handler-Counts (change_statue m ViewChangeStatus.view_change_fail) now {m' = m'},
)
expire-Counts m t TimerType.complaint now {m' = m'} h =
    let m1 = record m {
      complaining_clients = erase_timeout m.complaining_clients t.proxy_id t.hash;
    } in
    ground (arith, timeout_handler-Counts m1 now {m' = m'})

pub monitor_timeout-Counts :
    (m : ViewChangeManager) (which now : ℕ) {m' : ViewChangeManager}
    → monitor_timeout m which now ≡ some m'
    → Counts m m'
unfolding monitor_timeout
monitor_timeout-Counts m which now {m' = m'} h =
    elim (Option-cases (pop_timeout which m.timeouts)) [
      | inl empty ↦ ground arith
      | inr ((t, heaps), e) ↦
          ground (arith, e, expire-Counts (record m { timeouts = heaps }) t t.kind now {m' = m'})
    ]

pub process_view_change-Keeps :
    (vh : String → SignatureInfo → Bool) (vr : Request → SignatureInfo → Bool)
    (sign : String → Option SignatureInfo) (m : ViewChangeManager) (msg : Option ViewChangeMessage)
    (sender now : ℕ) {m' : ViewChangeManager}
    → state_of (process_view_change vh vr sign m msg sender now) ≡ some m'
    → Keeps m m'
unfolding process_view_change add_view_change with_quorum state_of
process_view_change-Keeps vh vr sign m none sender now h = ground arith
process_view_change-Keeps vh vr sign m (some msg) sender now {m' = m'} h =
    grind (arith, send_new_view_msg-Keeps, change_statue-Keeps, push_own-Keeps)
