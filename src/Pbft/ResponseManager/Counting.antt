-- ===== src/Pbft/ResponseManager/Counting.antt =====
-- The responses of the replicas at one collector
-- (platform/consensus/ordering/pbft/response_manager.cpp, transaction_collector.cpp).
use resilientdb.Pbft.Collector.Safety.{own_vote, Within}
use resilientdb.Pbft.Commitment.Numbering.{append_nil}
use resilientdb.Common.Maps.{lookup, member}
use resilientdb.Pbft.Collector.Tally.{mark-Tally, sent, Quorum, Tally}
use resilientdb.Pbft.Collector.Steps.{add_cert-votes}
use resilientdb.Pbft.Status.{at_most, is_status, Status}
use resilientdb.Messages.{success, SignatureInfo, Request, RequestType, is_type}
use resilientdb.Common.{
  sym, ◌==◌, not, number_keys, ap, ◌||◌, subst, ◌∙◌, inr, inl, Bool-cases, ◌≤◌, ◌⊎◌, arith, length,
  none, false, leb, ◌++◌, some, ◌&&◌, ◌∷◌, Bool, [], ◌≡◌, List, Option, ℕ, if◌then◌else◌, refl,
  true,
}
use resilientdb.Pbft.ResponseManager.{response_call_back, may_change_status, may_execute}
use resilientdb.Pbft.Collector.{
  bits, new_collector, accept, Senders, Collector, Outcome, add_request, add_vote, count_vote,
  add_cert, votes, mark,
}

-- A response, as AddResponseMsg passes it on.
unfoldable pub receive_response : ℕ → Collector → Request × SignatureInfo → Outcome (Option Request)
receive_response quorum c (r, signature) =
    add_request (response_call_back quorum r.kind) c (some r) signature false none

-- What the callback was given.
unfoldable pub noted : Option Request → List Request
noted none = []
noted (some r) = r ∷ []

-- Responses one after another: the collector, and those that went on to the clients.
unfoldable pub receive_responses :
    ℕ → Collector → List Request → List (Request × SignatureInfo) → Collector × List Request
receive_responses quorum c log [] = (c, log)
receive_responses quorum c log (m ∷ ms) =
    let o = receive_response quorum c m in
    receive_responses quorum o.collector (log ++ noted o.captured) ms

-- The message that makes the count full.
abbrev pub completes : ℕ → Collector → Request → Bool
completes quorum c r =
    is_type r.kind RequestType.response
    && leb quorum (length (votes (mark c.senders r.kind r.hash r.sender_id) r.kind r.hash))

may_change :
    (quorum : ℕ) (kind : RequestType) (received : ℕ)
    → may_change_status quorum kind received Status.none ≡ (
        if is_type kind RequestType.response && leb quorum received
        then (Status.executed, true)
        else (Status.none, false))
unfolding may_change_status may_execute is_type
may_change quorum RequestType.response received = refl
may_change quorum _ received = refl

-- A counted response, where nothing is complete yet.
pub record Counted (quorum : ℕ) (c : Collector) (r : Request) (o : Outcome (Option Request))
    : Type 0 where
  pub senders : o.collector.senders ≡ mark c.senders r.kind r.hash r.sender_id
  pub no_view : o.collector.enable_viewchange ≡ c.enable_viewchange
  pub status : o.collector.status ≡ (if completes quorum c r then Status.executed else Status.none)
  pub code : o.code ≡ success
  pub captured : o.captured ≡ (if completes quorum c r then some r else none)

add_cert-view :
    (c : Collector) (r : Request) → (add_cert c r).enable_viewchange ≡ c.enable_viewchange
unfolding add_cert
add_cert-view c r = ground arith

pub add_vote-Counted :
    (quorum : ℕ) (c : Collector) (r : Request)
    → c.status ≡ Status.none
    → Counted quorum c r (add_vote (response_call_back quorum r.kind) c r none)
unfolding add_vote count_vote response_call_back is_status
add_vote-Counted quorum c r e =
    let (same_senders, same_status) = add_cert-votes c r in
    let same_view = add_cert-view c r in
    let is_none : (add_cert c r).status ≡ Status.none = same_status ∙ e in
    let moves =
      may_change quorum r.kind
        (length (votes (mark c.senders r.kind r.hash r.sender_id) r.kind r.hash)) in
    elim (Bool-cases (completes quorum c r)) [
      | inl full ↦
          rw (same_senders, same_view, is_none, moves, full)
            (record {
              senders = refl;
              no_view = refl;
              status = rw full refl;
              code = refl;
              captured = rw full refl;
            })
      | inr short ↦
          rw (same_senders, same_view, is_none, moves, short)
            (record {
              senders = refl;
              no_view = refl;
              status = rw short refl;
              code = refl;
              captured = rw short refl;
            })
    ]

-- The message is in the list.
abbrev Own : List (Request × SignatureInfo) → Request → Type 0
Own ms r =
    (kind : RequestType) → is_type r.kind kind ≡ true → sent kind r.hash r.sender_id ms ≡ true

-- The answer that went on, and the votes for its hash that made the count full.
record Answered (quorum : ℕ) (ms : List (Request × SignatureInfo)) (log : List Request)
    : Type 0 where
  answer : Request
  alone : log ≡ answer ∷ []
  backed : Quorum quorum RequestType.response ms
  same_hash : backed.hash ≡ answer.hash

record Inv (quorum : ℕ) (ms : List (Request × SignatureInfo)) (c : Collector) (log : List Request)
    : Type 0 where
  tally : Tally quorum ms c.senders Status.none
  no_view : c.enable_viewchange ≡ false
  stage :
      ((c.status ≡ Status.none) × (log ≡ []))
      ⊎ ((c.status ≡ Status.executed) × Answered quorum ms log)

is_response :
    (kind : RequestType) → is_type kind RequestType.response ≡ true → kind ≡ RequestType.response
unfolding is_type
is_response RequestType.response e = refl
is_response _ e = absurd (ground arith)

-- The message that completes a count is backed by it.
answered :
    (quorum : ℕ) (ms : List (Request × SignatureInfo)) (s : Senders) (r : Request)
    → Tally quorum ms s Status.none
    → is_type r.kind RequestType.response ≡ true
    → quorum ≤ length (votes s r.kind r.hash)
    → Answered quorum ms (r ∷ [])
answered quorum ms s r t kind enough = record {
  answer = r;
  alone = refl;
  backed = record {
    hash = r.hash;
    ids = votes s r.kind r.hash;
    distinct = t.distinct r.kind r.hash;
    enough = enough;
    genuine =
        subst
          (λ k. (id : ℕ) → member id (votes s r.kind r.hash) ≡ true → sent k r.hash id ms ≡ true)
          (is_response r.kind kind) (t.genuine r.kind r.hash);
  };
  same_hash = refl;
}

Counted-Inv :
    (quorum : ℕ) (ms : List (Request × SignatureInfo)) (c : Collector) (log : List Request)
    (r : Request) (o : Outcome (Option Request))
    → Counted quorum c r o
    → Own ms r
    → c.status ≡ Status.none
    → log ≡ []
    → Inv quorum ms c log
    → Inv quorum ms o.collector (log ++ noted o.captured)
unfolding noted
Counted-Inv quorum ms c log r o step own e empty v =
    let t : Tally quorum ms o.collector.senders Status.none =
      rw step.senders (mark-Tally quorum ms c.senders Status.none r own v.tally) in
    elim (Bool-cases (completes quorum c r)) [
      | inl full ↦ record {
        tally = t;
        no_view = step.no_view ∙ v.no_view;
        stage = inr (
          step.status ∙ ap (λ b. if b then Status.executed else Status.none) full,
          rw (empty, step.captured, full)
              (answered quorum ms (mark c.senders r.kind r.hash r.sender_id) r
                (mark-Tally quorum ms c.senders Status.none r own v.tally) (ground (arith, full))
                (ground (arith, full))),
        );
      }
      | inr short ↦ record {
        tally = t;
        no_view = step.no_view ∙ v.no_view;
        stage = inl (
          step.status ∙ ap (λ b. if b then Status.executed else Status.none) short,
          rw (empty, step.captured, short) refl,
        );
      }
    ]

pub receive_response_lem :
    (quorum : ℕ) (c : Collector) (r : Request) (signature : SignatureInfo)
    → c.is_committed || is_status c.status Status.executed || not (c.seq == r.seq) ≡ false
    → c.enable_viewchange ≡ false
    → receive_response quorum c (r, signature)
      ≡ add_vote (response_call_back quorum r.kind) c r none
unfolding receive_response add_request accept
receive_response_lem quorum c r signature taken no_view = ground (arith, taken, no_view)

receive_response-Inv :
    (quorum : ℕ) (ms : List (Request × SignatureInfo)) (c : Collector) (log : List Request)
    (r : Request) (signature : SignatureInfo)
    → Own ms r
    → Inv quorum ms c log
    → let o = receive_response quorum c (r, signature) in
      Inv quorum ms o.collector (log ++ noted o.captured)
unfolding receive_response add_request accept noted is_status
receive_response-Inv quorum ms c log r signature own v =
    elim (Bool-cases
      (c.is_committed || is_status c.status Status.executed || not (c.seq == r.seq))) [
        | inl refused ↦ rw refused (subst (Inv quorum ms c) (sym (append_nil log)) v)
        | inr taken ↦ elim v.stage [
          | inr (done, answer) ↦ absurd (ground (arith, done, taken))
          | inl (e, empty) ↦
              subst
                (λ (o : Outcome (Option Request)).
                  Inv quorum ms o.collector (log ++ noted o.captured))
                (sym (receive_response_lem quorum c r signature taken v.no_view))
                (Counted-Inv quorum ms c log r
                  (add_vote (response_call_back quorum r.kind) c r none)
                  (add_vote-Counted quorum c r e) own e empty v)
        ]
      ]

receive_responses-Inv :
    (quorum : ℕ) (ms later : List (Request × SignatureInfo)) (c : Collector) (log : List Request)
    → Within later ms
    → Inv quorum ms c log
    → let (d, all) = receive_responses quorum c log later in Inv quorum ms d all
unfolding receive_responses
receive_responses-Inv quorum ms [] c log w v = v
receive_responses-Inv quorum ms ((r, sig) ∷ later) c log w v =
    let o = receive_response quorum c (r, sig) in
    let own : Own ms r = λ kind k. w kind r.hash r.sender_id (own_vote kind r sig later k) in
    receive_responses-Inv quorum ms later o.collector (log ++ noted o.captured)
      (λ kind h id e. w kind h id (ground arith)) (receive_response-Inv quorum ms c log r sig own v)

new_collector-Inv :
    (quorum seq : ℕ) (ms : List (Request × SignatureInfo))
    → Inv quorum ms (new_collector seq false false) []
unfolding new_collector votes bits lookup member at_most
new_collector-Inv quorum seq ms = record {
  tally = record {
    distinct = λ kind h. tt;
    genuine = λ kind h id e. absurd (ground arith);
    prepared = λ p. absurd (ground arith);
    committed = λ p. absurd (ground arith);
  };
  no_view = refl;
  stage = inl (refl, refl);
}

-- Whatever messages reach a fresh collector of responses, in whatever order and however often, no
-- response goes on to the clients, or exactly one; and in that case at least the quorum's number of
-- different senders sent a response with its hash.
pub responses-answered_once :
    (quorum seq : ℕ) (ms : List (Request × SignatureInfo))
    → let (_, log) = receive_responses quorum (new_collector seq false false) [] ms in
      (log ≡ [])
      ⊎ ((r : Request) × (log ≡ r ∷ [])
          × (q : Quorum quorum RequestType.response ms) × (q.hash ≡ r.hash))
responses-answered_once quorum seq ms =
    let v =
      receive_responses-Inv quorum ms ms (new_collector seq false false) [] (λ kind h id e. e)
        (new_collector-Inv quorum seq ms) in
    elim v.stage [
      | inl (_, empty) ↦ inl empty
      | inr (_, a) ↦ inr (a.answer, a.alone, a.backed, a.same_hash)
    ]
