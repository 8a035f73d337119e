-- ===== src/Pbft/Collector/Steps.antt =====
-- What one call of TransactionCollector::AddRequest does to votes and status
-- (platform/consensus/ordering/pbft/transaction_collector.cpp).
use resilientdb.Common.Int.{ℤ}
use resilientdb.Common.{
  number_keys, text_keys, length, ℕ, ◌≡◌, ◌≢◌, ◌⊎◌, Bool, true, false, List, [], ◌∷◌, Bool-cases,
  refl, sym, ◌∙◌, inl, inr, some, arith, String, not, ◌&&◌, ◌++◌, ◌==◌, ◌||◌, Option, none,
}
use resilientdb.Messages.{RequestType, is_type, SignatureInfo, Request}
use resilientdb.Pbft.Status.{Status, at_most, is_status, is_status-eq}
use resilientdb.Pbft.Collector.{
  Collector, votes, mark, Outcome, add_main, count_vote, add_prepare, add_vote, add_request,
  RequestInfo, set_main, is_forced, slot_for, commit, add_cert, settle_main, settle, Senders,
  with_certs, hand_over, finish, accept, settle_at,
}
use resilientdb.Pbft.StatusChange.{consensus_call_back, may_consensus_change_status}
use resilientdb.Pbft.Collector.Tally.{
  stays, proposes, prepares, commits, Moves, may_consensus_change_status-Moves, sent, Tally,
  mark-Tally, Moves-Tally,
}
use resilientdb.Pbft.Collector.Runs.{receive}

-- A message's own vote is in the list.
abbrev pub Own : List (Request × SignatureInfo) → Request → Type 0
Own ms r =
    (kind : RequestType) → is_type r.kind kind ≡ true → sent kind r.hash r.sender_id ms ≡ true

pub record Step (quorum : ℕ) (ms : List (Request × SignatureInfo)) (c : Collector)
    (o : Outcome Bool) : Type 0 where
  pub tally : Tally quorum ms o.collector.senders o.collector.status
  pub resting : o.collector.status ≢ Status.ready_execute
  pub few :
      (o.to_execute ≡ [])
      ⊎ ((o.collector.status ≡ Status.executed) × (r : Request) × (o.to_execute ≡ r ∷ []))
  pub kept :
      c.status ≡ Status.executed → (o.collector.status ≡ Status.executed) × (o.to_execute ≡ [])

settle_at-votes :
    (c : Collector) (h : String) (o : Option RequestInfo)
    → ((settle_at c h o).senders ≡ c.senders) × ((settle_at c h o).status ≡ c.status)
unfolding settle_at
settle_at-votes c h none = (refl, refl)
settle_at-votes c h (some info) = ground arith

pub settle-votes :
    (c : Collector) (h : String)
    → ((settle c h).senders ≡ c.senders) × ((settle c h).status ≡ c.status)
unfolding settle settle_main
settle-votes c h = elim (Bool-cases (is_status c.status Status.ready_commit)) [
  | inl e ↦ rw e (settle_at-votes (record c { is_prepared = true }) h c.main_request)
  | inr e ↦ rw e (refl, refl)
]

pub add_cert-votes :
    (c : Collector) (r : Request)
    → ((add_cert c r).senders ≡ c.senders) × ((add_cert c r).status ≡ c.status)
unfolding add_cert
add_cert-votes c r = ground arith

-- What Commit hands over: nothing, or one request; the votes and the status stay.
abbrev Hands : Collector → Collector × ℤ × List Request → Type 0
Hands c (d, _, sent_list) =
    (d.senders ≡ c.senders)
    × (d.status ≡ c.status)
    × ((sent_list ≡ []) ⊎ ((r : Request) × (sent_list ≡ r ∷ [])))

hand_over-Hands :
    (c : Collector) (info : RequestInfo) (o : Option Request) → Hands c (hand_over c info o)
unfolding hand_over
hand_over-Hands c info none = (refl, refl, inl refl)
hand_over-Hands c info (some r) = elim (Bool-cases c.has_executor) [
  | inl e ↦ rw e (refl, refl, inr (with_certs r c.commit_certs, refl))
  | inr e ↦ rw e (refl, refl, inl refl)
]

finish-Hands : (c : Collector) (o : Option RequestInfo) → Hands c (finish c o)
unfolding finish
finish-Hands c none = (refl, refl, inl refl)
finish-Hands c (some info) = hand_over-Hands c info info.request

commit-Hands :
    (c : Collector)
    → is_status c.status Status.ready_execute ≡ true
    → Hands (record c { status = Status.executed }) (commit c)
unfolding commit
commit-Hands c e = rw e (finish-Hands (record c { status = Status.executed }) c.main_request)

not_executed :
    (a b : Bool) (st : Status)
    → (a || is_status st Status.executed || b) ≡ false
    → st ≢ Status.executed
unfolding is_status
not_executed a b st e q = ground arith

executed-Tally :
    (quorum : ℕ) (ms : List (Request × SignatureInfo)) (s : Senders) (st : Status)
    → st ≡ Status.ready_execute
    → Tally quorum ms s st
    → Tally quorum ms s Status.executed
unfolding at_most
executed-Tally quorum ms s st e t = record {
  distinct = t.distinct;
  genuine = t.genuine;
  prepared = λ _. t.prepared (rw e refl);
  committed = λ _. t.committed (rw e refl);
}

module _ (quorum : ℕ) (ms : List (Request × SignatureInfo)) where
  count_vote-Tally :
      (c : Collector) (r : Request) (s : Bool)
      → Own ms r
      → Tally quorum ms c.senders c.status
      → let d = (count_vote (consensus_call_back quorum r.kind) c r s).0 in
        Tally quorum ms d.senders d.status
        × Moves quorum r.kind (length (votes d.senders r.kind r.hash)) c.status d.status
  unfolding count_vote consensus_call_back
  count_vote-Tally c r s own t =
      let marked = mark c.senders r.kind r.hash r.sender_id in
      let count = length (votes marked r.kind r.hash) in
      let moved = may_consensus_change_status-Moves quorum r.kind count c.status false in
      (
        Moves-Tally quorum ms marked c.status _ r.kind r.hash moved
            (mark-Tally quorum ms c.senders c.status r own t),
        moved,
      )

  main_Tally :
      (c : Collector) (r : Request) (force : Bool)
      → is_type r.kind RequestType.pre_prepare ≡ true
      → Tally quorum ms c.senders c.status
      → Tally quorum ms c.senders (may_consensus_change_status quorum r.kind 1 c.status force).0
  unfolding at_most is_type
  main_Tally c r force main t =
      elim (may_consensus_change_status-Moves quorum r.kind 1 c.status force) [
        | stays e ↦ rw e t
        | proposes e e' ↦ rw e' (record {
          distinct = t.distinct;
          genuine = t.genuine;
          prepared = λ p. absurd (ground arith);
          committed = λ p. absurd (ground arith);
        })
        | prepares k e enough ↦ absurd (not_main k)
        | commits k e e' enough ↦ absurd (not_main' k)
      ]
    where
      not_main : r.kind ≡ RequestType.prepare → ⊥
      not_main k = cc (rw k at main)

      not_main' : r.kind ≡ RequestType.commit → ⊥
      not_main' k = cc (rw k at main)

  main_resting :
      (c : Collector) (r : Request) (force : Bool)
      → is_type r.kind RequestType.pre_prepare ≡ true
      → c.status ≢ Status.ready_execute
      → (may_consensus_change_status quorum r.kind 1 c.status force).0 ≢ Status.ready_execute
  unfolding is_type
  main_resting c r force main rest q =
      elim (may_consensus_change_status-Moves quorum r.kind 1 c.status force) [
        | stays e ↦ rest (sym e ∙ q)
        | proposes e e' ↦ cc
        | prepares k e enough ↦ cc
        | commits k e e' enough ↦ cc (rw k at main)
      ]

  add_main-Step :
      (c : Collector) (r : Request) (sig : SignatureInfo) (s : Bool)
      → is_type r.kind RequestType.pre_prepare ≡ true
      → c.status ≢ Status.executed
      → c.status ≢ Status.ready_execute
      → Tally quorum ms c.senders c.status
      → Step quorum ms c (add_main (consensus_call_back quorum r.kind) c r sig s)
  unfolding add_main consensus_call_back
  add_main-Step c r sig s main fresh rest t = elim (Bool-cases (set_main (slot_for c r) info).1) [
    | inl e ↦ rw e (record {
      tally = main_Tally c r (is_forced c r) main t;
      resting = λ q. main_resting c r (is_forced c r) main rest q;
      few = inl refl;
      kept = λ q. absurd (fresh q);
    })
    | inr e ↦
        rw e (record { tally = t; resting = rest; few = inl refl; kept = λ q. absurd (fresh q) })
  ]
    where
      info : RequestInfo
      info = record { request = some r; signature = sig }

  prepare_resting :
      (r : Request) (st st' : Status) (count : ℕ)
      → is_type r.kind RequestType.prepare ≡ true
      → st ≢ Status.ready_execute
      → Moves quorum r.kind count st st'
      → st' ≢ Status.ready_execute
  unfolding is_type
  prepare_resting r st st' count kind rest (stays e) q = rest (sym e ∙ q)
  prepare_resting r st st' count kind rest (proposes e e') q = cc
  prepare_resting r st st' count kind rest (prepares k e enough) q = cc
  prepare_resting r st st' count kind rest (commits k e e' enough) q = cc (rw k at kind)

  add_prepare-Step :
      (c : Collector) (r : Request) (sig : SignatureInfo) (s : Bool)
      → Own ms r
      → is_type r.kind RequestType.prepare ≡ true
      → c.status ≢ Status.executed
      → c.status ≢ Status.ready_execute
      → Tally quorum ms c.senders c.status
      → Step quorum ms c (add_prepare (consensus_call_back quorum r.kind) c r sig s)
  unfolding add_prepare
  add_prepare-Step c r sig s own kind fresh rest t =
      elim (Bool-cases (at_most c.status Status.ready_prepare && not c.is_prepared)) [
        | inr e ↦
            rw e
              (record { tally = t; resting = rest; few = inl refl; kept = λ q. absurd (fresh q) })
        | inl e ↦
            let d₀ = record c {
              prepared_proof =
                  c.prepared_proof ++ record { request = some r; signature = sig } ∷ [];
            } in
            let d = (count_vote (consensus_call_back quorum r.kind) d₀ r s).0 in
            let (tally, moved) = count_vote-Tally d₀ r s own t in
            let (same, same') = settle-votes d r.hash in
            rw e (record {
              tally = rw (same, same') tally;
              resting = rw same' (prepare_resting r c.status d.status _ kind rest moved);
              few = inl refl;
              kept = λ q. absurd (fresh q);
            })
      ]

  add_vote-Step :
      (c : Collector) (r : Request) (s : Bool)
      → Own ms r
      → c.status ≢ Status.executed
      → c.status ≢ Status.ready_execute
      → Tally quorum ms c.senders c.status
      → Step quorum ms c (add_vote (consensus_call_back quorum r.kind) c r s)
  unfolding add_vote is_status at_most
  add_vote-Step c r s own fresh rest t =
      let c' = add_cert c r in
      let (same, same') = add_cert-votes c r in
      let d = (count_vote (consensus_call_back quorum r.kind) c' r s).0 in
      let (tally, _) = count_vote-Tally c' r s own (rw (same, same') t) in
      elim (Bool-cases (is_status d.status Status.ready_execute)) [
        | inl e ↦
            let (votes_same, done, sent_one) = commit-Hands d e in
            rw e (record {
              tally =
                  rw (votes_same, done)
                    (executed-Tally quorum ms d.senders d.status (is_status-eq _ _ e) tally);
              resting = λ q. cc;
              few = elim sent_one [ inl z ↦ inl z | inr (x, z) ↦ inr (done, x, z) ];
              kept = λ q. absurd (fresh q);
            })
        | inr e ↦ rw e (record {
          tally = tally;
          resting = λ q. cc (rw q at e);
          few = inl refl;
          kept = λ q. absurd (fresh q);
        })
      ]

  accept-Step :
      (c : Collector) (r : Request) (sig : SignatureInfo)
      → Own ms r
      → c.status ≢ Status.executed
      → c.status ≢ Status.ready_execute
      → Tally quorum ms c.senders c.status
      → Step quorum ms c (
          accept
            (consensus_call_back quorum r.kind)
            c
            r
            sig
            (is_type r.kind RequestType.pre_prepare)
            false)
  unfolding accept
  accept-Step c r sig own fresh rest t =
      elim (Bool-cases (is_type r.kind RequestType.pre_prepare)) [
        | inl e ↦ rw e (add_main-Step c r sig false e fresh rest t)
        | inr e ↦
            rw e (elim (Bool-cases (c.enable_viewchange && is_type r.kind RequestType.prepare)) [
              | inl p ↦ rw p (add_prepare-Step c r sig false own (ground arith) fresh rest t)
              | inr p ↦ rw p (add_vote-Step c r false own fresh rest t)
            ])
      ]

  pub receive-Step :
      (c : Collector) (r : Request) (sig : SignatureInfo)
      → Own ms r
      → c.status ≢ Status.ready_execute
      → Tally quorum ms c.senders c.status
      → Step quorum ms c (receive quorum c (r, sig))
  unfolding receive add_request
  receive-Step c r sig own rest t =
      elim (Bool-cases
        (c.is_committed || is_status c.status Status.executed || not (c.seq == r.seq))) [
          | inl e ↦
              rw e (record { tally = t; resting = rest; few = inl refl; kept = λ q. (q, refl) })
          | inr e ↦ rw e (
              accept-Step c r sig own
                (not_executed c.is_committed (not (c.seq == r.seq)) c.status e) rest t)
        ]
