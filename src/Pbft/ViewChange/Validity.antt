-- ===== src/Pbft/ViewChange/Validity.antt =====
-- IsValidViewChangeMsg of ViewChangeManager (platform/consensus/ordering/pbft/viewchange_manager.cpp)
-- and IsValidCheckpointProof of CheckPointManager
-- (platform/consensus/ordering/pbft/checkpoint_manager.cpp). VerifyMessage is a parameter, of a
-- hash and of a request that is serialized.
pub mod Proofs
use resilientdb.Common.{
  number_keys, text_keys, if◌then◌else◌, length, ltb, leb, ◌==◌, ℕ, String, Bool, true, false, not,
  ◌&&◌, ◌||◌, List, [], ◌∷◌,
}
use resilientdb.Common.Maps.{add}
use resilientdb.Messages.{SignatureInfo, Request}
use resilientdb.Config.{min_data_receive_num}
use resilientdb.Pbft.CheckPoint.Votes.{StableCheckPoint}
use resilientdb.Pbft.ViewChange.{
  PreparedProof, PreparedMessage, ViewChangeMessage, ViewChangeManager, current_view, replicas_of,
}

-- GetMinDataReceiveNum of the manager's config.
unfoldable pub quorum : ViewChangeManager → ℕ
unfolding min_data_receive_num
quorum m = min_data_receive_num (length (replicas_of m))

module _ (verify_hash : String → SignatureInfo → Bool) where
  -- The loop over the signatures with its early return.
  unfoldable pub all_verify : String → List SignatureInfo → Bool
  all_verify hash [] = true
  all_verify hash (s ∷ rest) = if not (verify_hash hash s) then false else all_verify hash rest

  -- The set of the senders.
  unfoldable pub senders_of : List SignatureInfo → List ℕ → List ℕ
  senders_of [] found = found
  senders_of (s ∷ rest) found = senders_of rest (add s.node_id found)

  -- IsValidCheckpointProof: the hash and the signatures are those of the member stable_ckpt_, not
  -- of the argument.
  unfoldable pub is_valid_checkpoint_proof : ℕ → StableCheckPoint → StableCheckPoint → Bool
  unfolding all_verify senders_of
  is_valid_checkpoint_proof needed own given =
      let senders = senders_of own.signatures [] in
      all_verify own.hash own.signatures
      && (leb needed (length senders) || given.seq == 0 && length senders == 0)

module _ (verify_request : Request → SignatureInfo → Bool) where
  -- The loop over the proofs of a number.
  unfoldable pub proofs_valid : ℕ → List PreparedProof → Bool
  proofs_valid seq [] = true
  proofs_valid seq (p ∷ ps) =
      if not (p.request.seq == seq)
      then false
      else if not (verify_request p.request p.signature)
      then false
      else proofs_valid seq ps

  -- The loop over the prepared messages.
  unfoldable pub prepared_valid : ℕ → ℕ → List PreparedMessage → Bool
  unfolding proofs_valid
  prepared_valid needed stable [] = true
  prepared_valid needed stable (p ∷ ps) =
      let rest = prepared_valid needed stable ps in
      if leb p.seq stable
      then rest
      else if ltb (length p.proof) needed
      then false
      else if not (proofs_valid p.seq p.proof)
      then false
      else rest

module _ (verify_hash : String → SignatureInfo → Bool)
    (verify_request : Request → SignatureInfo → Bool) where
  -- IsValidViewChangeMsg.
  unfoldable pub is_valid_view_change_msg : ViewChangeManager → ViewChangeMessage → Bool
  unfolding quorum is_valid_checkpoint_proof prepared_valid
  is_valid_view_change_msg m msg =
      if leb msg.view_number (current_view m)
      then false
      else if not (is_valid_checkpoint_proof verify_hash (quorum m) m.stable_ckpt msg.stable_ckpt)
      then false
      else prepared_valid verify_request (quorum m) msg.stable_ckpt.seq msg.prepared_msg

  -- The loop of ProcessNewView over the messages, without the numbers that it computes.
  unfoldable pub all_valid : ViewChangeManager → List ViewChangeMessage → Bool
  unfolding is_valid_view_change_msg
  all_valid m [] = true
  all_valid m (v ∷ vs) = if not (is_valid_view_change_msg m v) then false else all_valid m vs
