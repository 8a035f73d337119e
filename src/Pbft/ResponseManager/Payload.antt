-- ===== src/Pbft/ResponseManager/Payload.antt =====
-- What the count of responses does not look at
-- (platform/consensus/ordering/pbft/response_manager.cpp, transaction_collector.cpp).
use resilientdb.Pbft.ResponseManager.Answers.{
  send_response_to_client-some, take_response-keeps, addressed, connected,
}
use resilientdb.Config.{performance_running, min_client_receive_num}
use resilientdb.Pbft.MessageManager.{ResultCode}
use resilientdb.Pbft.Pool.{get_collector}
use resilientdb.Execution.Executor.Rounds.{BatchResponse}
use resilientdb.Pbft.ResponseManager.{
  send_response_to_client, is_minus_two, state_changed, ResponseManager, add_response_msg,
  after_response, is_zero, process_response_msg, take_response,
}
use mathlib.Core.Option
use resilientdb.Pbft.Status.{is_status, Status}
use resilientdb.Messages.{SignatureInfo, Request, success}
use resilientdb.Common.{
  ◌++◌, ◌≤◌, List, ℕ, String, ◌≡◌, refl, true, false, not, ◌||◌, Option, none, some, arith, ap, ◌∙◌,
  sym, Bool-cases, inl, inr, if◌then◌else◌, ◌==◌, number_keys, length, subst, ◌≢◌,
}
use resilientdb.Pbft.Collector.{add_request, Collector, Outcome}
use resilientdb.Pbft.ResponseManager.Counting.{
  receive_response, completes, receive_response_lem, add_vote-Counted,
}

refused_lem :
    (quorum : ℕ) (c : Collector) (r : Request) (signature : SignatureInfo)
    → c.is_committed || is_status c.status Status.executed || not (c.seq == r.seq) ≡ true
    → (receive_response quorum c (r, signature)).captured ≡ none
unfolding receive_response add_request
refused_lem quorum c r signature refused = rw refused refl

completed :
    (quorum : ℕ) (c : Collector) (r : Request)
    → (if completes quorum c r then some r else none) ≡ some r
    → completes quorum c r ≡ true
completed quorum c r e = ground (arith, e)

-- The votes are for the hash only.
any_payload :
    (quorum : ℕ) (c : Collector) (r : Request) (signature signature' : SignatureInfo)
    (payload : String)
    → c.status ≡ Status.none
    → c.enable_viewchange ≡ false
    → (receive_response quorum c (r, signature)).captured ≡ some r
    → let r' = record r { payload = payload } in
      (receive_response quorum c (r', signature')).captured ≡ some r'
any_payload quorum c r signature signature' payload e no_view full =
    let r' = record r { payload = payload } in
    elim (Bool-cases
      (c.is_committed || is_status c.status Status.executed || not (c.seq == r.seq))) [
        | inl refused ↦ absurd (ground (arith, refused_lem quorum c r signature refused, full))
        | inr taken ↦
            let first = receive_response_lem quorum c r signature taken no_view in
            let second = receive_response_lem quorum c r' signature' taken no_view in
            let counted = add_vote-Counted quorum c r e in
            let counted' = add_vote-Counted quorum c r' e in
            ap (λ (o : Outcome (Option Request)). o.captured) second
            ∙ counted'.captured
            ∙ ap (λ b. if b then some r' else none)
                (completed quorum c r (
                  sym counted.captured
                  ∙ sym (ap (λ (o : Outcome (Option Request)). o.captured) first)
                  ∙ full))
      ]

any_payload-code :
    (quorum : ℕ) (c : Collector) (r : Request) (signature : SignatureInfo)
    → c.status ≡ Status.none
    → c.enable_viewchange ≡ false
    → (receive_response quorum c (r, signature)).captured ≢ none
    → ((receive_response quorum c (r, signature)).code ≡ success)
      × ((receive_response quorum c (r, signature)).captured ≡ some r)
any_payload-code quorum c r signature e no_view full =
    elim (Bool-cases
      (c.is_committed || is_status c.status Status.executed || not (c.seq == r.seq))) [
        | inl refused ↦ absurd (full (refused_lem quorum c r signature refused))
        | inr taken ↦
            let first = receive_response_lem quorum c r signature taken no_view in
            let counted = add_vote-Counted quorum c r e in
            elim (Bool-cases (completes quorum c r)) [
              | inl enough ↦ (
                ap (λ (o : Outcome (Option Request)). o.code) first ∙ counted.code,
                ap (λ (o : Outcome (Option Request)). o.captured) first
                    ∙ counted.captured
                    ∙ ap (λ b. if b then some r else none) enough,
              )
              | inr few ↦ absurd (
                  full (
                    ap (λ (o : Outcome (Option Request)). o.captured) first
                    ∙ counted.captured
                    ∙ ap (λ b. if b then some r else none) few))
            ]
      ]

take_response-some :
    (m : ResponseManager) (hash : String) (seq : ℕ) (o : Outcome (Option Request)) (r : Request)
    → o.code ≡ success
    → o.captured ≡ some r
    → ((take_response m hash seq o).1 ≡ state_changed) × ((take_response m hash seq o).2 ≡ some r)
unfolding take_response is_zero
take_response-some m hash seq o r e e' = rw (e, e') (refl, refl)

take_response-none :
    (m : ResponseManager) (hash : String) (seq : ℕ) (o : Outcome (Option Request))
    → (take_response m hash seq o).1 ≡ state_changed
    → o.captured ≢ none
unfolding take_response is_zero
take_response-none m hash seq o e e' = ground (arith, e, e')

module _ (parse : String → Option BatchResponse) where
  add_response_msg_lem :
      (m : ResponseManager) (signature : SignatureInfo) (r : Request) (batch : BatchResponse)
      (c : Collector)
      → parse r.payload ≡ some batch
      → get_collector m.collector_pool batch.local_id ≡ some c
      → add_response_msg parse m signature r
        ≡ take_response m r.hash batch.local_id (
            receive_response
              (min_client_receive_num (length m.config.replicas))
              c
              (record r { seq = batch.local_id }, signature))
  unfolding add_response_msg receive_response
  add_response_msg_lem m signature r batch c e at = ground (arith, e, at)

  after_response_lem :
      (t : ResponseManager × ResultCode × Option Request) (r : Request) (batch : BatchResponse)
      → t.1 ≡ state_changed
      → t.2 ≡ some r
      → parse r.payload ≡ some batch
      → after_response parse t
        ≡ Option.map (λ m'. (m', success)) (send_response_to_client t.0 batch)
  unfolding after_response
  after_response_lem (m, code, kept) r batch e e' p = rw (e, e', p) refl

  -- Where a response completes the count of its hash at a collector that has not answered, one with
  -- any other payload that parses in its place, for the same batch of the clients, is sent to them
  -- just as well: each client of the batch is sent the response that stands at its place in that
  -- payload, which has enough of them, outside of a performance run.
  pub payload_unchecked :
      (m : ResponseManager) (r : Request) (signature signature' : SignatureInfo) (payload : String)
      (batch batch' : BatchResponse) (c kept_at : Collector) (ks : List (ℕ × SignatureInfo))
      → is_minus_two r.ret ≡ false
      → parse r.payload ≡ some batch
      → parse payload ≡ some batch'
      → batch'.local_id ≡ batch.local_id
      → get_collector m.collector_pool batch.local_id ≡ some c
      → c.status ≡ Status.none
      → c.enable_viewchange ≡ false
      → (add_response_msg parse m signature r).1 ≡ state_changed
      → performance_running m.config ≡ false
      → get_collector m.context_pool batch'.local_id ≡ some kept_at
      → kept_at.seq ≡ batch'.local_id
      → kept_at.context_list ≡ connected ks
      → length ks ≤ length batch'.responses
      → (m' : ResponseManager) × (process_response_msg parse m signature'
            (record r { payload = payload })
          ≡ some (m', success))
        × (m'.to_clients ≡ m.to_clients ++ addressed ks batch'.responses)
  unfolding process_response_msg
  payload_unchecked m r signature signature' payload batch batch' c kept_at ks ret p p' same at st
        no_view full quiet at_cc own contexts enough =
      let quorum = min_client_receive_num (length m.config.replicas) in
      let id = batch.local_id in
      let id' = batch'.local_id in
      let r' = record r { payload = payload } in
      let at' : get_collector m.collector_pool id' ≡ some c =
        ap (get_collector m.collector_pool) same ∙ at in
      let first = add_response_msg_lem m signature r batch c p at in
      let second = add_response_msg_lem m signature' r' batch' c p' at' in
      let o = receive_response quorum c (record r { seq = id }, signature) in
      let o' = receive_response quorum c (record r' { seq = id' }, signature') in
      let some_kept =
        take_response-none m r.hash id o
          (ap (λ (t : ResponseManager × ResultCode × Option Request). t.1) (sym first) ∙ full) in
      let (_, kept) =
        any_payload-code quorum c (record r { seq = id }) signature st no_view some_kept in
      let kept' : o'.captured ≡ some (record r' { seq = id' }) =
        subst
          (λ n.
            (receive_response quorum c (record r' { seq = n }, signature')).captured
            ≡ some (record r' { seq = n }))
          (sym same)
          (any_payload quorum c (record r { seq = id }) signature signature' payload st no_view
            kept) in
      let (code', _) =
        any_payload-code quorum c (record r' { seq = id' }) signature' st no_view
          (λ e. absurd (ground (arith, e, kept'))) in
      let (now, answer) =
        take_response-some m r.hash id' o' (record r' { seq = id' }) code' kept' in
      let t = add_response_msg parse m signature' r' in
      let done =
        after_response_lem t (record r' { seq = id' }) batch'
          (ap (λ (x : ResponseManager × ResultCode × Option Request). x.1) second ∙ now)
          (ap (λ (x : ResponseManager × ResultCode × Option Request). x.2) second ∙ answer) p' in
      let state : t.0 ≡ (take_response m r.hash id' o').0 =
        ap (λ (x : ResponseManager × ResultCode × Option Request). x.0) second in
      let (same_config, same_pool, same_sent) = take_response-keeps m r.hash id' o' in
      let (m', e, sent) =
        send_response_to_client-some t.0 batch' kept_at ks
          (ap (λ x. performance_running x.config) state
            ∙ ap performance_running same_config
            ∙ quiet)
          (ap (λ x. get_collector x.context_pool id') state
            ∙ ap (λ x. get_collector x id') same_pool
            ∙ at_cc)
          own contexts enough in
      (
        m',
        rw ret (done ∙ ap (Option.map (λ x. (x, success))) e),
        sent
            ∙ ap (λ x. x ++ addressed ks batch'.responses)
                (ap (λ x. x.to_clients) state ∙ same_sent),
      )
