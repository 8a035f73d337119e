-- ===== src/Pbft/ViewChange/NewView/Accepted.antt =====
-- When ProcessNewView (platform/consensus/ordering/pbft/viewchange_manager.cpp) takes the new view
-- that an honest primary sends.
use resilientdb.Common.{
  ap, ap, ap, ap, ap, ap, ap, ap, ap, ap, ap, ap, ap, ap, ap, ap, ap, ap, ap, ap, ap, ap, ap, ap,
  ap, ap, ap, ap, ap, ap, ap, ap, ap, ap, ap, ap, ap, ap, ap, ap, ap, ap, ap, ap, ap, ap, ap, ap,
  ap, ap, ap, ap, ap, ap, ap, ap, ap, ap, ap, ap, number_keys, text_keys, ℕ, ◌+◌, ◌-◌, ◌<◌, ◌≤◌,
  min, max, List, [], ◌∷◌, arith, String, true, Option, ap,
}
use resilientdb.Messages.{Request, SignatureInfo}
use resilientdb.Common.Maps.{Map}
use resilientdb.Pbft.ViewChange.{ViewChangeMessage, NewViewMessage, ViewChangeManager}
use resilientdb.Pbft.ViewChange.Redo.{
  redo_all, redo_from, max_prepared, min_stable, max_uint64, max_prepared, redo_from, redo_all,
}
use resilientdb.Pbft.ViewChange.NewView.{max_stable}

-- The stable checkpoints' numbers: the least is at most the largest, where there is a message.
min_stable-le : (vs : List ViewChangeMessage) (a b : ℕ) → a ≤ b → min_stable a vs ≤ max_stable b vs
unfolding min_stable max_stable
min_stable-le [] a b h = h
min_stable-le (v ∷ vs) a b h =
    min_stable-le vs (min a v.stable_ckpt.seq) (max b v.stable_ckpt.seq) (ground arith)

pub min_stable-le-max_stable :
    (vs : List ViewChangeMessage)
    → min_stable max_uint64 vs < max_uint64
    → min_stable max_uint64 vs ≤ max_stable 0 vs
unfolding min_stable max_stable
min_stable-le-max_stable [] h = absurd (omega arith)
min_stable-le-max_stable (v ∷ vs) h =
    min_stable-le vs (min max_uint64 v.stable_ckpt.seq) (max 0 v.stable_ckpt.seq) (ground arith)

-- The checks on a message whose requests have the data of those that were computed again.
module _ (m : ViewChangeManager) (msg : NewViewMessage) (again : List Request) (n : ℕ) where
  abbrev least : ℕ
  least = min_stable max_uint64 msg.viewchange_messages

  abbrev most : ℕ
  most = max_stable 0 msg.viewchange_messages

-- The message that SendNewViewMsg sends, with the requests that are prepared in its view change
-- messages.
abbrev pub honest_view :
    (String → Option SignatureInfo) → ℕ → NewViewMessage → Map ℕ Request → NewViewMessage
honest_view sign self msg prepared = record msg {
  request =
      redo_all sign self msg.view_number true (min_stable max_uint64 msg.viewchange_messages)
        prepared;
}

-- The number of rounds of the loop of GetPrepareMsg.
abbrev rounds : NewViewMessage → Map ℕ Request → ℕ
rounds msg prepared =
    max_prepared prepared + 1 - (min_stable max_uint64 msg.viewchange_messages + 1)
