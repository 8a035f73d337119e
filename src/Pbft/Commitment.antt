-- ===== src/Pbft/Commitment.antt =====
-- Commitment (platform/consensus/ordering/pbft/commitment.{h,cpp}): the handlers of client
-- requests, proposals, prepare and commit votes. What the code sends is a list, oldest first. The
-- checks of signatures, the signing and the function of SetPreVerifyFunc (always true where none
-- is installed) are parameters. A context is the signature that it carries.
pub mod Numbering
pub mod Proposals
pub mod Votes
use resilientdb.Common.{
  number_keys, text_keys, if◌then◌else◌, ◌==◌, ℕ, Bool, true, false, not, Option, none, some, List,
  [], ◌∷◌, ◌++◌,
}
use resilientdb.Common.Int.{ℤ}
use resilientdb.Messages.{
  RequestType, SignatureInfo, Request, default_request, success, changed, failure, redirected,
}
use resilientdb.Execution.DuplicateManager.{
  DuplicateManager, check_if_executed, check_and_add_proposed, erase_proposed,
}
use resilientdb.Pbft.MessageManager.{
  ok, invalid, state_changed, ResultCode, MessageManager, get_current_primary, assign_next_seq,
  send_response,
}

-- BroadCast, and SendMessage to a replica.
pub data Outgoing : Type 0 where
  broad_cast : Request → Outgoing
  send_message : Request → ℕ → Outgoing

pub record Commitment : Type 0 where
  -- config_.GetSelfInfo().id()
  pub self_id : ℕ
  pub message_manager : MessageManager
  pub duplicate_manager : DuplicateManager
  pub need_qc : Bool
  -- highest_prepared_seq_ of the CheckPointManager
  pub highest_prepared_seq : ℕ
  pub request_complained : List Request
  pub outgoing : List Outgoing

unfoldable pub post : Commitment → Outgoing → Commitment
post c m = record c { outgoing = c.outgoing ++ m ∷ [] }

-- `context == nullptr || context->signature.signature().empty()`, negated.
unfoldable pub has_signature : Option SignatureInfo → Bool
has_signature none = false
has_signature (some s) = not (s.signature == "")

-- The integers of CollectorResultCode.
unfoldable pub code_value : ResultCode → ℤ
code_value invalid = failure
code_value ok = success
code_value state_changed = changed

unfoldable pub is_state_changed : ResultCode → Bool
is_state_changed state_changed = true
is_state_changed _ = false

-- `ret == CollectorResultCode::INVALID ? -2 : 0`.
unfoldable pub handler_code : ResultCode → ℤ
handler_code invalid = failure
handler_code _ = success

-- The message to the proxy when no number is left.
unfoldable pub refusal : Commitment → Request → Request
refusal c request = record default_request {
  kind = RequestType.response;
  sender_id = c.self_id;
  proxy_id = request.proxy_id;
  ret = failure;
  hash = request.hash;
}

-- The pre-prepare message of a request and a number.
unfoldable pub proposal : Commitment → Request → ℕ → Request
proposal c request seq = record request {
  kind = RequestType.pre_prepare;
  current_view = c.message_manager.system_info.view;
  seq = seq;
  sender_id = c.self_id;
  primary_id = c.self_id;
}

-- ProcessNewRequest from AssignNextSeq on, with what it returned.
unfoldable pub propose_as : Commitment → Request → MessageManager × Option ℕ → Commitment × ℤ
unfolding post refusal proposal
propose_as c request (m, none) = (
  post
      (record c {
        message_manager = m;
        duplicate_manager = erase_proposed c.duplicate_manager request.hash;
      })
      (send_message (refusal c request) request.proxy_id),
  failure,
)
propose_as c request (m, some seq) =
    (post (record c { message_manager = m }) (broad_cast (proposal c request seq)), success)

-- ProcessNewRequest from CheckAndAddProposed on.
unfoldable pub propose_new : Commitment → Request → DuplicateManager × Bool → Commitment × ℤ
propose_new c request (d, true) = (record c { duplicate_manager = d }, failure)
propose_new c request (d, false) =
    propose_as (record c { duplicate_manager = d }) request (assign_next_seq c.message_manager)

-- ProcessNewRequest for a request that was executed with a number, and for one that another
-- replica has to propose.
unfoldable pub answer_executed : Commitment → Request → ℕ → Commitment × ℤ
answer_executed c request seq = (
  record c { message_manager = send_response c.message_manager (record request { seq = seq }) },
  failure,
)

unfoldable pub redirect : Commitment → Request → Commitment × ℤ
unfolding post
redirect c request = (
  post (record c { request_complained = c.request_complained ++ request ∷ [] })
      (send_message request (get_current_primary c.message_manager)),
  redirected,
)

-- What PostProcessExecutedMsg sends for a response; its text is that of the request here.
unfoldable pub answer_of : Commitment → Request → Request
answer_of c r = record default_request {
  hash = r.hash;
  seq = r.seq;
  kind = RequestType.response;
  sender_id = c.self_id;
  current_view = r.current_view;
  proxy_id = r.proxy_id;
  primary_id = r.primary_id;
  payload = r.payload;
}

-- A round of PostProcessExecutedMsg with the responses that GetResponseMsg takes from.
unfoldable pub answer_first : Commitment → List Request → Commitment
unfolding post answer_of
answer_first c [] = c
answer_first c (r ∷ rs) =
    post (record c { message_manager = record c.message_manager { responses = rs } })
      (send_message (answer_of c r) r.proxy_id)

unfoldable pub post_process_executed_msg : Commitment → Commitment
unfolding answer_first
post_process_executed_msg c = answer_first c c.message_manager.responses

module _ (verify pre_verify : Request → Bool) where
  -- ProcessNewRequest; `now` is what GetCurrentTime returns.
  unfoldable pub process_new_request :
      Commitment → Option SignatureInfo → Request → ℕ → Commitment × ℤ
  process_new_request c context request now =
      let executed = check_if_executed c.duplicate_manager request.hash in
      if not (has_signature context)
      then (c, failure)
      else if not (executed == 0)
      then answer_executed c request executed
      else if not (c.self_id == get_current_primary c.message_manager)
      then redirect c request
      else if not (verify request)
      then (c, failure)
      else if not (pre_verify request)
      then (c, failure)
      else propose_new c request (check_and_add_proposed c.duplicate_manager request.hash now)
