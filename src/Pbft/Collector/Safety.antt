-- ===== src/Pbft/Collector/Safety.antt =====
-- What TransactionCollector::AddRequest guarantees over any history of messages
-- (platform/consensus/ordering/pbft/transaction_collector.cpp).
use resilientdb.Common.{
  ℕ, String, ◌≡◌, refl, ◌≢◌, ◌⊎◌, inl, inr, Bool, true, List, [], ◌∷◌, ◌++◌, arith, eq_iff,
}
use resilientdb.Common.Maps.{lookup, member}
use resilientdb.Messages.{RequestType, SignatureInfo, Request, is_type}
use resilientdb.Pbft.Status.{Status, at_most}
use resilientdb.Pbft.Collector.{Collector, new_collector, bits, votes, Outcome}
use resilientdb.Pbft.Collector.Tally.{sent, Quorum, Tally}
use resilientdb.Pbft.Collector.Runs.{receive, run}
use resilientdb.Pbft.Collector.Steps.{Own, Step, receive-Step}

record Inv (quorum : ℕ) (ms : List (Request × SignatureInfo)) (c : Collector) (log : List Request)
    : Type 0 where
  tally : Tally quorum ms c.senders c.status
  resting : c.status ≢ Status.ready_execute
  once : (log ≡ []) ⊎ ((c.status ≡ Status.executed) × (r : Request) × (log ≡ r ∷ []))

Step-Inv :
    (quorum : ℕ) (ms : List (Request × SignatureInfo)) (c : Collector) (log : List Request)
    (o : Outcome Bool)
    → Step quorum ms c o
    → Inv quorum ms c log
    → Inv quorum ms o.collector (log ++ o.to_execute)
Step-Inv quorum ms c log o step v = record {
  tally = step.tally;
  resting = step.resting;
  once = elim v.once [
    | inl e ↦ rw e step.few
    | inr (done, r, e) ↦
        let (still, nothing) = step.kept done in inr (still, r, rw (e, nothing) refl)
  ];
}

-- The messages to come are all in the list.
abbrev pub Within : List (Request × SignatureInfo) → List (Request × SignatureInfo) → Type 0
Within later ms =
    (kind : RequestType) (h : String) (id : ℕ)
    → sent kind h id later ≡ true
    → sent kind h id ms ≡ true

pub own_vote :
    (kind : RequestType) (r : Request) (sig : SignatureInfo)
    (later : List (Request × SignatureInfo))
    → is_type r.kind kind ≡ true
    → sent kind r.hash r.sender_id ((r, sig) ∷ later) ≡ true
own_vote kind r sig later k = ground (arith, eq_iff r.hash r.hash)

run-Inv :
    (quorum : ℕ) (ms later : List (Request × SignatureInfo)) (c : Collector) (log : List Request)
    → Within later ms
    → Inv quorum ms c log
    → let (d, all) = run quorum c log later in Inv quorum ms d all
unfolding run
run-Inv quorum ms [] c log w v = v
run-Inv quorum ms ((r, sig) ∷ later) c log w v =
    let o = receive quorum c (r, sig) in
    let own : Own ms r = λ kind k. w kind r.hash r.sender_id (own_vote kind r sig later k) in
    run-Inv quorum ms later o.collector (log ++ o.to_execute)
      (λ kind h id e. w kind h id (ground arith))
      (Step-Inv quorum ms c log o (receive-Step quorum ms c r sig own v.resting v.tally) v)

new_collector-Inv :
    (quorum : ℕ) (ms : List (Request × SignatureInfo)) (seq : ℕ) (x v : Bool)
    → Inv quorum ms (new_collector seq x v) []
unfolding new_collector votes bits lookup member at_most
new_collector-Inv quorum ms seq x v = record {
  tally = record {
    distinct = λ kind h. tt;
    genuine = λ kind h id e. absurd (ground arith);
    prepared = λ p. absurd (ground arith);
    committed = λ p. absurd (ground arith);
  };
  resting = λ q. cc;
  once = inl refl;
}

quorums_of :
    (quorum : ℕ) (ms : List (Request × SignatureInfo)) (c : Collector) (log : List Request)
    → Inv quorum ms c log
    → (log ≡ [])
      ⊎ ((r : Request) × (log ≡ r ∷ [])
          × Quorum quorum RequestType.prepare ms
          × Quorum quorum RequestType.commit ms)
unfolding at_most
quorums_of quorum ms c log v = elim v.once [
  | inl e ↦ inl e
  | inr (done, r, e) ↦ inr (r, e, v.tally.prepared (rw done refl), v.tally.committed (rw done refl))
]

-- Whatever messages reach a fresh collector, in whatever order and however often, it hands nothing
-- to the executor, or exactly one request; and in that case the messages hold prepare votes for one
-- hash and commit votes for one hash, of at least the quorum's number of different senders each.
pub run-quorums :
    (quorum seq : ℕ) (has_executor enable_viewchange : Bool) (ms : List (Request × SignatureInfo))
    → let (_, log) = run quorum (new_collector seq has_executor enable_viewchange) [] ms in
      (log ≡ [])
      ⊎ ((r : Request) × (log ≡ r ∷ [])
          × Quorum quorum RequestType.prepare ms
          × Quorum quorum RequestType.commit ms)
run-quorums quorum seq has_executor enable_viewchange ms =
    let c = new_collector seq has_executor enable_viewchange in
    let v =
      run-Inv quorum ms ms c [] (λ kind h id e. e)
        (new_collector-Inv quorum ms seq has_executor enable_viewchange) in
    quorums_of quorum ms (run quorum c [] ms).0 (run quorum c [] ms).1 v
