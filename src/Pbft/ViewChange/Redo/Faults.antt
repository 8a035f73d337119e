-- ===== src/Pbft/ViewChange/Redo/Faults.antt =====
-- The reads of a proof that is not there in GetPrepareMsg
-- (platform/consensus/ordering/pbft/viewchange_manager.cpp).
use resilientdb.Messages.{Request, SignatureInfo}
use resilientdb.Common.Maps.{Map}
use resilientdb.Common.{
  Option, Bool, ℕ, List, String, Option-cases, ◌≤◌, ◌≡◌, refl, inl, inr, none, [], ◌∷◌, ◌++◌, arith,
}
use resilientdb.Pbft.ViewChange.Validity.{prepared_valid, is_valid_view_change_msg}
use resilientdb.Pbft.ViewChange.Redo.{first_request, get_prepare_msg, collect_prepared, collect_all}
use resilientdb.Pbft.ViewChange.{
  NewViewMessage, ViewChangeManager, ViewChangeMessage, PreparedMessage,
}

-- A message with one more prepared message in front.
abbrev pub with_prepared : PreparedMessage → ViewChangeMessage → ViewChangeMessage
with_prepared p v = record v { prepared_msg = p ∷ v.prepared_msg }

collect_all_none :
    (before after : List ViewChangeMessage) (v : ViewChangeMessage) (p : PreparedMessage)
    (m : Map ℕ Request)
    → p.proof ≡ []
    → collect_all (before ++ with_prepared p v ∷ after) m ≡ none
unfolding collect_all collect_prepared first_request
collect_all_none [] after v p m e = ground arith
collect_all_none (x ∷ before) after v p m e =
    elim (Option-cases (collect_prepared x.prepared_msg m)) [
      | inl fault ↦ ground arith
      | inr (m1, e1) ↦ ground (arith, e1, collect_all_none before after v p m1 e)
    ]

-- A prepared message that has no proof, for a number up to the stable checkpoint of its view change
-- message, does not change whether that message is accepted; but GetPrepareMsg reads its first
-- proof, whatever other messages there are, so that a replica that has taken the message fails when
-- it makes or checks the new view.
pub unproved_message-fails :
    (vh : String → SignatureInfo → Bool) (vr : Request → SignatureInfo → Bool)
    (sign : String → Option SignatureInfo) (m : ViewChangeManager) (self : ℕ) (need_sign : Bool)
    (v : ViewChangeMessage) (p : PreparedMessage) (msg : NewViewMessage)
    (before after : List ViewChangeMessage)
    → p.proof ≡ []
    → p.seq ≤ v.stable_ckpt.seq
    → msg.viewchange_messages ≡ before ++ with_prepared p v ∷ after
    → (is_valid_view_change_msg vh vr m (with_prepared p v) ≡ is_valid_view_change_msg vh vr m v)
      × (get_prepare_msg sign self msg need_sign ≡ none)
unfolding is_valid_view_change_msg prepared_valid get_prepare_msg
unproved_message-fails vh vr sign m self need_sign v p msg before after empty old e =
    (ground arith, rw (e, collect_all_none before after v p [] empty) refl)
