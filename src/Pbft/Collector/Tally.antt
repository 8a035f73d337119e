-- ===== src/Pbft/Collector/Tally.antt =====
-- The votes of a collector and how far they let its status go
-- (platform/consensus/ordering/pbft/transaction_collector.cpp, message_manager.cpp).
use resilientdb.Common.{
  number_keys, text_keys, if◌then◌else◌, length, ◌==◌, ℕ, ◌≤◌, String, ◌≡◌, refl, Bool, true, false,
  ◌&&◌, ◌||◌, List, [], ◌∷◌, arith, eq_iff, leb, Bool-cases, inl, inr, subst, ap, ◌∙◌,
}
use resilientdb.Common.Maps.{
  member, add, Distinct, lookup-insert, add-Distinct, member-add, Map, insert,
}
use resilientdb.Messages.{RequestType, is_type, SignatureInfo, Request}
use resilientdb.Pbft.Status.{Status, at_most, is_status, is_status-eq}
use resilientdb.Pbft.Collector.{Senders, votes, mark, bits}
use resilientdb.Pbft.StatusChange.{may_consensus_change_status}

bits-insert :
    (hash h : String) (ids : List ℕ) (m : Map String (List ℕ))
    → bits (insert hash ids m) h ≡ (if hash == h then ids else bits m h)
unfolding bits
bits-insert hash h ids m = ground (arith, lookup-insert hash h ids m)

pub votes-mark :
    (s : Senders) (kind t : RequestType) (hash h : String) (id : ℕ)
    → votes (mark s kind hash id) t h
      ≡ (if is_type kind t && hash == h then add id (votes s t h) else votes s t h)
unfolding votes mark
votes-mark s kind t hash h id = elim (Bool-cases (is_type kind t)) [
  | inl e ↦
      ap (λ b. bits (if b then insert hash (add id (votes s t hash)) (s t) else s t) h) e
      ∙ bits-insert hash h (add id (votes s t hash)) (s t)
      ∙ ground (arith, eq_iff hash h)
  | inr e ↦
      ap (λ b. bits (if b then insert hash (add id (votes s t hash)) (s t) else s t) h) e
      ∙ ground arith
]

pub length-add-ge : (id : ℕ) (ids : List ℕ) → length ids ≤ length (add id ids)
unfolding add
length-add-ge id ids = ground arith

-- What MayConsensusChangeStatus does to the status, with what allows it.
pub data Moves (quorum : ℕ) (kind : RequestType) (count : ℕ) (s t : Status) : Type 0 where
  stays : t ≡ s → Moves quorum kind count s t
  proposes : s ≡ Status.none → t ≡ Status.ready_prepare → Moves quorum kind count s t
  prepares :
      kind ≡ RequestType.prepare
      → t ≡ Status.ready_commit
      → quorum ≤ count
      → Moves quorum kind count s t
  commits :
      kind ≡ RequestType.commit
      → s ≡ Status.ready_commit
      → t ≡ Status.ready_execute
      → quorum ≤ count
      → Moves quorum kind count s t

pub may_consensus_change_status-Moves :
    (quorum : ℕ) (kind : RequestType) (count : ℕ) (s : Status) (ret : Bool)
    → Moves quorum kind count s (may_consensus_change_status quorum kind count s ret).0
unfolding may_consensus_change_status
may_consensus_change_status-Moves quorum RequestType.pre_prepare count s ret =
    elim (Bool-cases (is_status s Status.none)) [
      | inl e ↦ rw e (proposes (is_status-eq s Status.none e) refl)
      | inr e ↦ rw e (stays refl)
    ]
may_consensus_change_status-Moves quorum RequestType.prepare count s ret =
    elim (Bool-cases (is_status s Status.ready_prepare && leb quorum count)) [
      | inl e ↦ rw e (prepares refl refl (ground arith))
      | inr e ↦ rw e (stays refl)
    ]
may_consensus_change_status-Moves quorum RequestType.commit count s ret =
    elim (Bool-cases (is_status s Status.ready_commit && leb quorum count)) [
      | inl e ↦
          rw e
            (commits refl (is_status-eq s Status.ready_commit (ground arith)) refl (ground arith))
      | inr e ↦ rw e (stays refl)
    ]
may_consensus_change_status-Moves quorum _ count s ret = stays refl

-- Whether a message of the list is a vote of a kind for a hash by a sender.
abbrev pub sent : RequestType → String → ℕ → List (Request × SignatureInfo) → Bool
sent kind hash id [] = false
sent kind hash id ((r, _) ∷ ms) =
    (is_type r.kind kind && r.hash == hash && r.sender_id == id) || sent kind hash id ms

-- Votes of one kind for one hash by at least `quorum` different senders, all in the list.
pub record Quorum (quorum : ℕ) (kind : RequestType) (ms : List (Request × SignatureInfo))
    : Type 0 where
  pub hash : String
  pub ids : List ℕ
  pub distinct : Distinct ids
  pub enough : quorum ≤ length ids
  pub genuine : (id : ℕ) → member id ids ≡ true → sent kind hash id ms ≡ true

-- The counted votes are votes of the list, each sender counted once, and the status is covered.
pub record Tally (quorum : ℕ) (ms : List (Request × SignatureInfo)) (s : Senders) (st : Status)
    : Type 0 where
  pub distinct : (kind : RequestType) (h : String) → Distinct (votes s kind h)
  pub genuine :
      (kind : RequestType) (h : String) (id : ℕ)
      → member id (votes s kind h) ≡ true
      → sent kind h id ms ≡ true
  pub prepared : at_most Status.ready_commit st ≡ true → Quorum quorum RequestType.prepare ms
  pub committed : at_most Status.ready_execute st ≡ true → Quorum quorum RequestType.commit ms

pub mark-Tally :
    (quorum : ℕ) (ms : List (Request × SignatureInfo)) (s : Senders) (st : Status) (r : Request)
    → ((kind : RequestType) → is_type r.kind kind ≡ true → sent kind r.hash r.sender_id ms ≡ true)
    → Tally quorum ms s st
    → Tally quorum ms (mark s r.kind r.hash r.sender_id) st
mark-Tally quorum ms s st r own t = record {
  distinct = λ kind h. rw (votes-mark s r.kind kind r.hash h r.sender_id) (
      ground
        (arith, t.distinct kind h, add-Distinct r.sender_id (votes s kind h) (t.distinct kind h)));
  genuine = λ kind h id. rw (votes-mark s r.kind kind r.hash h r.sender_id) (λ e. ground (
    arith,
    own kind,
    t.genuine kind h id,
    eq_iff r.hash h,
    member-add r.sender_id id (votes s kind h),
  ));
  prepared = t.prepared;
  committed = t.committed;
}

counted :
    (quorum : ℕ) (ms : List (Request × SignatureInfo)) (s : Senders) (st : Status)
    (kind : RequestType) (h : String)
    → Tally quorum ms s st
    → quorum ≤ length (votes s kind h)
    → Quorum quorum kind ms
counted quorum ms s st kind h t enough = record {
  hash = h;
  ids = votes s kind h;
  distinct = t.distinct kind h;
  enough = enough;
  genuine = t.genuine kind h;
}

pub Moves-Tally :
    (quorum : ℕ) (ms : List (Request × SignatureInfo)) (s : Senders) (st st' : Status)
    (kind : RequestType) (h : String)
    → Moves quorum kind (length (votes s kind h)) st st'
    → Tally quorum ms s st
    → Tally quorum ms s st'
unfolding at_most
Moves-Tally quorum ms s st st' kind h (stays e) t = rw e t
Moves-Tally quorum ms s st st' kind h (proposes e e') t = record {
  distinct = t.distinct;
  genuine = t.genuine;
  prepared = λ p. absurd (ground arith);
  committed = λ p. absurd (ground arith);
}
Moves-Tally quorum ms s st st' kind h (prepares k e enough) t = record {
  distinct = t.distinct;
  genuine = t.genuine;
  prepared = λ p. subst (λ x. Quorum quorum x ms) k (counted quorum ms s st kind h t enough);
  committed = λ p. absurd (ground arith);
}
Moves-Tally quorum ms s st st' kind h (commits k e e' enough) t = record {
  distinct = t.distinct;
  genuine = t.genuine;
  prepared = λ p. t.prepared (rw e refl);
  committed = λ p. subst (λ x. Quorum quorum x ms) k (counted quorum ms s st kind h t enough);
}
