-- ===== src/Pbft/Commitment/Votes.antt =====
-- Commitment::ProcessProposeMsg, ProcessPrepareMsg and ProcessCommitMsg
-- (platform/consensus/ordering/pbft/commitment.cpp). The signing of a hash is a parameter too;
-- `none` is its error.
use resilientdb.Common.{
  number_keys, text_keys, ltb, if◌then◌else◌, ◌==◌, ℕ, ◌+◌, ◌%◌, ◌^◌, String, Bool, true, false,
  not, ◌||◌, Option, none, some,
}
use resilientdb.Common.Int.{ℤ}
use resilientdb.Messages.{RequestType, SignatureInfo, Request, new_request, success, failure}
use resilientdb.Execution.DuplicateManager.{DuplicateManager, check_and_add_proposed}
use resilientdb.Pbft.MessageManager.{
  invalid, ResultCode, MessageManager, get_current_primary, set_next_seq, add_consensus_msg,
}
use resilientdb.Pbft.Commitment.{
  broad_cast, Commitment, post, has_signature, code_value, is_state_changed, handler_code,
}

-- AddConsensusMsg by a handler.
unfoldable pub with_result : Commitment → MessageManager × ResultCode → Commitment × ResultCode
with_result c (m, code) = (record c { message_manager = m }, code)

unfoldable pub consensus : Commitment → Option SignatureInfo → Request → ℕ → Commitment × ResultCode
unfolding with_result
consensus c none request now = (c, invalid)
consensus c (some s) request now =
    with_result c (add_consensus_msg c.message_manager s (some request) now)

-- What a handler returns for a message of a recovery.
unfoldable pub recovered : Commitment × ResultCode → Commitment × ℤ
unfolding code_value
recovered (c, code) = (c, code_value code)

-- The recovery branch of ProcessProposeMsg.
unfoldable pub recover_proposal : Commitment → Option SignatureInfo → Request → ℕ → Commitment × ℤ
unfolding recovered consensus set_next_seq
recover_proposal c context request now =
    let next = c.message_manager.next_seq in
    if next == 0 || request.seq == next
    then recovered (
        consensus
          (record c {
            message_manager = set_next_seq c.message_manager ((request.seq + 1) % 2 ^ 64);
          })
          context request now)
    else (c, success)

-- The prepare message of a proposal.
unfoldable pub prepare_of : Commitment → Request → Request
prepare_of c request = record (new_request RequestType.prepare request c.self_id) { payload = "" }

-- A handler that broadcasts a message when the status has changed.
unfoldable pub vote : Request → Commitment × ResultCode → Commitment × ℤ
unfolding post is_state_changed handler_code
vote message (c, code) =
    ((if is_state_changed code then post c (broad_cast message) else c), handler_code code)

-- ProcessProposeMsg from the statistics on.
unfoldable pub take_proposal : Commitment → Option SignatureInfo → Request → ℕ → Commitment × ℤ
unfolding vote consensus prepare_of
take_proposal c context request now = vote (prepare_of c request) (consensus c context request now)

-- ProcessProposeMsg of another replica's proposal, from CheckAndAddProposed on.
unfoldable pub take_foreign :
    Commitment → Option SignatureInfo → Request → ℕ → DuplicateManager × Bool → Commitment × ℤ
unfolding take_proposal
take_foreign c context request now (d, true) = (record c { duplicate_manager = d }, failure)
take_foreign c context request now (d, false) =
    take_proposal (record c { duplicate_manager = d }) context request now

module _ (verify pre_verify : Request → Bool) where
  -- ProcessProposeMsg; `faulty` is global_stats_->IsFaulty().
  unfoldable pub process_propose_msg :
      Bool → Commitment → Option SignatureInfo → Request → ℕ → Commitment × ℤ
  unfolding recover_proposal take_foreign take_proposal
  process_propose_msg faulty c context request now =
      if faulty || not (has_signature context)
      then (c, failure)
      else if request.is_recovery
      then recover_proposal c context request now
      else if not (request.sender_id == get_current_primary c.message_manager)
      then (c, failure)
      else if request.sender_id == c.self_id
      then take_proposal c context request now
      else if not (pre_verify request)
      then (c, failure)
      else if not (verify request)
      then (c, failure)
      else take_foreign c context request now
          (check_and_add_proposed c.duplicate_manager request.hash now)

-- SetHighestPreparedSeq, if the number is greater.
unfoldable pub note_prepared : Commitment → ℕ → Commitment
note_prepared c seq =
    if ltb c.highest_prepared_seq seq then record c { highest_prepared_seq = seq } else c

-- The commit message of a prepare message, before it is signed.
unfoldable pub commit_of : Commitment → Request → Request
commit_of c request = record (new_request RequestType.commit request c.self_id) {
  data_signature = none;
}

-- ProcessPrepareMsg once the status has changed, with the signature of the hash.
unfoldable pub broadcast_commit : Commitment → Request → Option SignatureInfo → Commitment × ℤ
unfolding post
broadcast_commit c message signature =
    if c.need_qc
    then (elim signature [
      | none ↦ (c, failure)
      | some s ↦ (post c (broad_cast (record message { data_signature = some s })), success)
    ])
    else (post c (broad_cast message), success)

module _ (sign : String → Option SignatureInfo) where
  -- ProcessPrepareMsg past AddConsensusMsg.
  unfoldable pub after_prepare : Request → Request → Commitment × ResultCode → Commitment × ℤ
  unfolding note_prepared broadcast_commit handler_code is_state_changed
  after_prepare request message (c, code) =
      if is_state_changed code
      then broadcast_commit (note_prepared c request.seq) message (sign message.hash)
      else (c, handler_code code)

  -- ProcessPrepareMsg.
  unfoldable pub process_prepare_msg :
      Commitment → Option SignatureInfo → Request → ℕ → Commitment × ℤ
  unfolding after_prepare commit_of consensus recovered
  process_prepare_msg c context request now =
      if not (has_signature context)
      then (c, failure)
      else if request.is_recovery
      then recovered (consensus c context request now)
      else after_prepare request (commit_of c request) (consensus c context request now)

-- ProcessCommitMsg.
unfoldable pub process_commit_msg : Commitment → Option SignatureInfo → Request → ℕ → Commitment × ℤ
unfolding recovered consensus handler_code
process_commit_msg c context request now =
    if not (has_signature context)
    then (c, failure)
    else if request.is_recovery
    then recovered (consensus c context request now)
    else (let (c', code) = consensus c context request now in (c', handler_code code))
