-- ===== src/Pbft/ViewChange/Complaints.antt =====
-- ComplaningClients and AddComplaintTimer of ViewChangeManager
-- (platform/consensus/ordering/pbft/viewchange_manager.cpp). The record of a client is the set of the
-- hashes that it complains about.
use resilientdb.Common.{number_keys, text_keys, ℕ, String, none, some, List, []}
use resilientdb.Common.Maps.{Map, lookup, insert_ordered, add, remove}
use resilientdb.Pbft.ViewChange.{
  TimerType, ViewChangeManager, current_view, timeout_length, new_timeout, push_timeout,
}

-- The set of a client; a client that is not there is made with an empty one.
unfoldable pub complaints_of : Map ℕ (List String) → ℕ → List String
complaints_of clients proxy = elim (lookup proxy clients) [ none ↦ [] | some hashes ↦ hashes ]

-- The set after SetComplaining.
unfoldable pub set_complaining : Map ℕ (List String) → ℕ → String → Map ℕ (List String)
unfolding complaints_of
set_complaining clients proxy hash =
    insert_ordered proxy (add hash (complaints_of clients proxy)) clients

-- The set after EraseViewChangeTimeout, and after ReleaseComplaining.
unfoldable pub erase_timeout : Map ℕ (List String) → ℕ → String → Map ℕ (List String)
unfolding complaints_of
erase_timeout clients proxy hash =
    insert_ordered proxy (remove hash (complaints_of clients proxy)) clients

-- AddComplaintTimer; `now` is what GetCurrentTime returns.
unfoldable pub add_complaint_timer : ViewChangeManager → ℕ → String → ℕ → ViewChangeManager
unfolding set_complaining new_timeout push_timeout
add_complaint_timer m proxy hash now =
    push_timeout
      (record m { complaining_clients = set_complaining m.complaining_clients proxy hash }) proxy
      (new_timeout TimerType.complaint (current_view m) proxy hash now timeout_length)
