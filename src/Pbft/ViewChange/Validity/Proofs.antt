-- ===== src/Pbft/ViewChange/Validity/Proofs.antt =====
-- What IsValidViewChangeMsg (platform/consensus/ordering/pbft/viewchange_manager.cpp) checks, and
-- what it does not.
use resilientdb.Pbft.CheckPoint.Votes.{StableCheckPoint}
use resilientdb.Pbft.ViewChange.{
  PreparedMessage, ViewChangeMessage, ViewChangeManager, PreparedProof, current_view,
}
use resilientdb.Common.{
  [], ◌∷◌, List, length, Bool, String, ℕ, leb, Bool-cases, zero, suc, ◌≤◌, ◌<◌, ◌≡◌, refl, ap, ◌↔◌,
  ◌⊎◌, inl, inr, true, arith,
}
use resilientdb.Pbft.ViewChange.Validity.{
  all_verify, prepared_valid, proofs_valid, is_valid_checkpoint_proof, is_valid_view_change_msg,
  quorum, senders_of,
}
use resilientdb.Messages.{SignatureInfo, Request}

module _ (vr : Request → SignatureInfo → Bool) where
  -- Every proof is for the number, and its signature verifies.
  abbrev pub Proves : ℕ → List PreparedProof → Type 0
  Proves seq [] = Unit {0}
  Proves seq (p ∷ ps) = (p.request.seq ≡ seq) × (vr p.request p.signature ≡ true) × Proves seq ps

  -- Every prepared message after a number has as many proofs as needed.
  abbrev pub Prepared : ℕ → ℕ → List PreparedMessage → Type 0
  Prepared needed stable [] = Unit {0}
  Prepared needed stable (p ∷ ps) =
      ((p.seq ≤ stable) ⊎ ((needed ≤ length p.proof) × Proves p.seq p.proof))
      × Prepared needed stable ps

  proofs_valid_iff :
      (seq : ℕ) (ps : List PreparedProof) → (proofs_valid vr seq ps ≡ true) ↔ Proves seq ps
  unfolding proofs_valid
  proofs_valid_iff seq [] = (λ _. tt, λ _. refl)
  proofs_valid_iff seq (p ∷ ps) = (
    λ h. (ground arith, ground arith, (proofs_valid_iff seq ps).0 (ground arith)),
    λ h. ground (arith, (proofs_valid_iff seq ps).1 h.2),
  )

  prepared_valid_iff :
      (needed stable : ℕ) (ps : List PreparedMessage)
      → (prepared_valid vr needed stable ps ≡ true) ↔ Prepared needed stable ps
  unfolding prepared_valid
  prepared_valid_iff needed stable [] = (λ _. tt, λ _. refl)
  prepared_valid_iff needed stable (p ∷ ps) = (
    λ h. elim (Bool-cases (leb p.seq stable)) [
      | inl old ↦ (inl (ground arith), (prepared_valid_iff needed stable ps).0 (ground arith))
      | inr new ↦ (
        inr (ground arith, (proofs_valid_iff p.seq p.proof).0 (ground arith)),
        (prepared_valid_iff needed stable ps).0 (ground arith),
      )
    ],
    λ h. elim h.0 [
      | inl old ↦ ground (arith, (prepared_valid_iff needed stable ps).1 h.1)
      | inr (enough, proves) ↦ ground (
        arith,
        (prepared_valid_iff needed stable ps).1 h.1,
        (proofs_valid_iff p.seq p.proof).1 proves,
      )
    ],
  )

-- A view change message is accepted exactly when it is for a later view, the checkpoint proof is
-- accepted, and every prepared message after its stable checkpoint has at least the quorum's number
-- of proofs, each for its number and with a signature that verifies.
is_valid_view_change_msg_iff :
    (vh : String → SignatureInfo → Bool) (vr : Request → SignatureInfo → Bool)
    (m : ViewChangeManager) (msg : ViewChangeMessage)
    → (is_valid_view_change_msg vh vr m msg ≡ true) ↔ (
        (current_view m < msg.view_number)
        × (is_valid_checkpoint_proof vh (quorum m) m.stable_ckpt msg.stable_ckpt ≡ true)
        × Prepared vr (quorum m) msg.stable_ckpt.seq msg.prepared_msg)
unfolding is_valid_view_change_msg
is_valid_view_change_msg_iff vh vr m msg =
    let q = quorum m in
    let stable = msg.stable_ckpt.seq in
    (
      λ h. (
        ground arith,
        ground arith,
        (prepared_valid_iff vr q stable msg.prepared_msg).0 (ground arith),
      ),
      λ h. ground (arith, (prepared_valid_iff vr q stable msg.prepared_msg).1 h.2),
    )

-- A proof that is repeated.
abbrev pub repeated : ℕ → PreparedProof → List PreparedProof
repeated zero p = []
repeated (suc n) p = p ∷ repeated n p

length-repeated : (n : ℕ) (p : PreparedProof) → length (repeated n p) ≡ n
length-repeated zero p = refl
length-repeated (suc n) p = ap suc (length-repeated n p)

repeated-Proves :
    (vr : Request → SignatureInfo → Bool) (n : ℕ) (p : PreparedProof)
    → vr p.request p.signature ≡ true
    → Proves vr p.request.seq (repeated n p)
repeated-Proves vr zero p h = tt
repeated-Proves vr (suc n) p h = (refl, h, repeated-Proves vr n p h)

-- A replica whose own stable checkpoint has a quorum of signatures that verify accepts every
-- message for a later view that has one signed request, repeated as often as the quorum asks for,
-- and any stable checkpoint, whatever its hash and its signatures are.
pub forged_view_change-valid :
    (vh : String → SignatureInfo → Bool) (vr : Request → SignatureInfo → Bool)
    (m : ViewChangeManager) (view : ℕ) (ckpt : StableCheckPoint) (p : PreparedProof)
    → all_verify vh m.stable_ckpt.hash m.stable_ckpt.signatures ≡ true
    → quorum m ≤ length (senders_of vh m.stable_ckpt.signatures [])
    → current_view m < view
    → vr p.request p.signature ≡ true
    → is_valid_view_change_msg vh vr m (record {
      view_number = view;
      stable_ckpt = ckpt;
      prepared_msg = record { seq = p.request.seq; proof = repeated (quorum m) p } ∷ [];
    })
      ≡ true
unfolding is_valid_checkpoint_proof
forged_view_change-valid vh vr m view ckpt p own senders later signed =
    let msg : ViewChangeMessage = record {
      view_number = view;
      stable_ckpt = ckpt;
      prepared_msg = record { seq = p.request.seq; proof = repeated (quorum m) p } ∷ [];
    } in
    (is_valid_view_change_msg_iff vh vr m msg).1 (
      later,
      ground arith,
      (
        inr (ground (arith, length-repeated (quorum m) p), repeated-Proves vr (quorum m) p signed),
        tt,
      ),
    )
