-- ===== src/Pbft/Commitment/Proposals.antt =====
-- What a primary proposes (platform/consensus/ordering/pbft/commitment.cpp).
use resilientdb.Pbft.Commitment.Numbering.{
  proposals, Numbered, hashes, append_nil, proposals-append, Numbered-append, member-hashes,
  Distinct-append,
}
use resilientdb.Pbft.Commitment.{
  send_message, Outgoing, Commitment, post, has_signature, proposal, propose_as, propose_new,
  answer_executed, redirect, process_new_request,
}
use resilientdb.Pbft.MessageManager.{
  MessageManager, get_current_primary, seq_gap, assign_next_seq, send_response,
}
use resilientdb.Messages.{SignatureInfo, Request, failure}
use resilientdb.Common.Int.{ℤ}
use resilientdb.Common.{
  number_keys, text_keys, inl, inr, ltb, if◌then◌else◌, Bool-cases, length, length-append, ◌==◌, ℕ,
  ◌+◌, ◌%◌, ◌^◌, ◌≤◌, ◌<◌, String, ◌≡◌, refl, sym, ◌∙◌, subst, ◌≢◌, ◌⊎◌, Bool, true, false, not,
  Option, none, some, List, [], ◌∷◌, ◌++◌, arith, eq_iff,
}
use resilientdb.Common.Maps.{member, add, remove, member-add, member-remove, Distinct}
use resilientdb.Config.{get_max_process_txn}
use resilientdb.Execution.DuplicateManager.{
  check_if_executed, add_proposed, check_and_add_proposed, erase_proposed,
}

-- The proposals are numbered from n up to the next number, no hash is there twice, and every hash
-- is known to the duplicate manager.
record Fresh (n : ℕ) (c : Commitment) : Type 0 where
  numbered : Numbered n (proposals c.outgoing)
  next : c.message_manager.next_seq ≡ n + length (proposals c.outgoing)
  distinct : Distinct (hashes (proposals c.outgoing))
  known :
      (h : String)
      → member h (hashes (proposals c.outgoing)) ≡ true
      → member h c.duplicate_manager.proposed_hash_set ≡ true

assign_cases :
    (m : MessageManager)
    → (assign_next_seq m ≡ (m, none))
      ⊎ (assign_next_seq m ≡ (record m { next_seq = (m.next_seq + 1) % 2 ^ 64 }, some m.next_seq))
unfolding assign_next_seq
assign_cases m = elim (Bool-cases (ltb (get_max_process_txn m.config) (seq_gap m))) [
  | inl e ↦ inl (rw e refl)
  | inr e ↦ inr (rw e refl)
]

-- A step that adds no proposal, and keeps the number and the hashes.
same-Fresh :
    (n : ℕ) (c c' : Commitment)
    → proposals c'.outgoing ≡ proposals c.outgoing
    → c'.message_manager.next_seq ≡ c.message_manager.next_seq
    → ((h : String)
        → member h c.duplicate_manager.proposed_hash_set ≡ true
        → member h c'.duplicate_manager.proposed_hash_set ≡ true)
    → Fresh n c
    → Fresh n c'
same-Fresh n c c' p q k v = record {
  numbered = rw p v.numbered;
  next = rw (p, q) v.next;
  distinct = rw p v.distinct;
  known = λ h e. k h (v.known h (subst (λ l. member h (hashes l) ≡ true) p e));
}

sent_only :
    (ms : List Outgoing) (r : Request) (id : ℕ)
    → proposals (ms ++ send_message r id ∷ []) ≡ proposals ms
sent_only ms r id = proposals-append ms (send_message r id) ∙ append_nil (proposals ms)

erased_known :
    (h k : String) (s : List String)
    → member k s ≡ false
    → member h s ≡ true
    → member h (remove k (add k s)) ≡ true
erased_known h k s n e = member-remove k h (add k s) ∙ ground (arith, member-add k h s, eq_iff k h)

-- A step that adds a proposal with the next number and a hash that was not known.
longer-Fresh :
    (n : ℕ) (c c' : Commitment) (r : Request)
    → proposals c'.outgoing ≡ proposals c.outgoing ++ r ∷ []
    → c'.message_manager.next_seq ≡ c.message_manager.next_seq + 1
    → r.seq ≡ c.message_manager.next_seq
    → c'.duplicate_manager.proposed_hash_set ≡ add r.hash c.duplicate_manager.proposed_hash_set
    → member r.hash c.duplicate_manager.proposed_hash_set ≡ false
    → Fresh n c
    → Fresh n c'
longer-Fresh n c c' r p q numbered k new_ v =
    let rs = proposals c.outgoing in
    let unknown : member r.hash (hashes rs) ≡ false =
      elim (Bool-cases (member r.hash (hashes rs))) [
        | inl e ↦ absurd (ground (arith, v.known r.hash e))
        | inr e ↦ e
      ] in
    record {
      numbered = rw p (Numbered-append n rs r v.numbered (numbered ∙ v.next));
      next = rw (p, q, length-append rs (r ∷ [])) (omega (arith, v.next));
      distinct = rw p (Distinct-append rs r v.distinct unknown);
      known = λ h e.
          rw (k, member-add r.hash h c.duplicate_manager.proposed_hash_set)
            (ground (
              arith,
              v.known h,
              sym (member-hashes h rs r) ∙ subst (λ l. member h (hashes l) ≡ true) p e,
            ));
    }

proposed-Fresh :
    (n : ℕ) (c : Commitment) (request : Request) (now : ℕ)
    → c.message_manager.next_seq + 1 < 2 ^ 64
    → member request.hash c.duplicate_manager.proposed_hash_set ≡ false
    → Fresh n c
    → Fresh n
        (propose_as
          (record c { duplicate_manager = add_proposed c.duplicate_manager request.hash now })
          request
          (assign_next_seq c.message_manager)).0
unfolding propose_as post erase_proposed add_proposed
proposed-Fresh n c request now small new_ v = elim (assign_cases c.message_manager) [
  | inl e ↦ rw e (
      same-Fresh n c _ (sent_only c.outgoing _ request.proxy_id) refl
        (λ h k. erased_known h request.hash c.duplicate_manager.proposed_hash_set new_ k) v)
  | inr e ↦ rw e (
      longer-Fresh n c _ (proposal c request c.message_manager.next_seq)
        (proposals-append c.outgoing _) (omega arith) refl refl new_ v)
]

-- A step to such a state, which takes one number at most.
record Stepped (n : ℕ) (c : Commitment) (p : Commitment × ℤ) : Type 0 where
  fresh : Fresh n p.0
  next : p.0.message_manager.next_seq ≤ c.message_manager.next_seq + 1

propose_as-next :
    (c : Commitment) (request : Request)
    → c.message_manager.next_seq + 1 < 2 ^ 64
    → (propose_as c request (assign_next_seq c.message_manager)).0.message_manager.next_seq
      ≤ c.message_manager.next_seq + 1
unfolding propose_as post
propose_as-next c request small = elim (assign_cases c.message_manager) [
  | inl e ↦ rw e (omega arith)
  | inr e ↦ rw e (omega arith)
]

propose_new-Stepped :
    (n : ℕ) (c : Commitment) (request : Request) (now : ℕ)
    → c.message_manager.next_seq + 1 < 2 ^ 64
    → Fresh n c
    → Stepped n c
        (propose_new c request (check_and_add_proposed c.duplicate_manager request.hash now))
unfolding propose_new check_and_add_proposed
propose_new-Stepped n c request now small v =
    elim (Bool-cases (member request.hash c.duplicate_manager.proposed_hash_set)) [
      | inl e ↦
          rw e (record { fresh = same-Fresh n c _ refl refl (λ h k. k) v; next = omega arith })
      | inr e ↦ rw e (record {
        fresh = proposed-Fresh n c request now small e v;
        next =
            propose_as-next
              (record c { duplicate_manager = add_proposed c.duplicate_manager request.hash now })
              request small;
      })
    ]

send_response-next : (m : MessageManager) (r : Request) → (send_response m r).next_seq ≡ m.next_seq
unfolding send_response
send_response-next m r = ground arith

answer_executed-Stepped :
    (n : ℕ) (c : Commitment) (request : Request) (seq : ℕ)
    → Fresh n c
    → Stepped n c (answer_executed c request seq)
unfolding answer_executed
answer_executed-Stepped n c request seq v =
    let same = send_response-next c.message_manager (record request { seq = seq }) in
    record { fresh = same-Fresh n c _ refl same (λ h k. k) v; next = omega (arith, same) }

redirect-Stepped :
    (n : ℕ) (c : Commitment) (request : Request) → Fresh n c → Stepped n c (redirect c request)
unfolding redirect post
redirect-Stepped n c request v = record {
  fresh =
      same-Fresh n c _ (sent_only c.outgoing request (get_current_primary c.message_manager)) refl
        (λ h k. k) v;
  next = omega arith;
}

if-Stepped :
    (n : ℕ) (c : Commitment) (b : Bool) (p q : Commitment × ℤ)
    → Stepped n c p
    → Stepped n c q
    → Stepped n c (if b then p else q)
if-Stepped n c true p q v w = v
if-Stepped n c false p q v w = w

process_new_request-Stepped :
    (verify pre_verify : Request → Bool) (n : ℕ) (c : Commitment) (context : Option SignatureInfo)
    (request : Request) (now : ℕ)
    → c.message_manager.next_seq + 1 < 2 ^ 64
    → Fresh n c
    → Stepped n c (process_new_request verify pre_verify c context request now)
unfolding process_new_request
process_new_request-Stepped verify pre_verify n c context request now small v =
    let stay : (k : ℤ) → Stepped n c (c, k) = λ k. record { fresh = v; next = omega arith } in
    let executed = check_if_executed c.duplicate_manager request.hash in
    let answer = answer_executed-Stepped n c request executed v in
    if-Stepped n c (not (has_signature context)) _ _ (stay failure) (
      if-Stepped n c (not (executed == 0)) _ _ answer (
        if-Stepped n c (not (c.self_id == get_current_primary c.message_manager)) _ _
          (redirect-Stepped n c request v)
          (if-Stepped n c (not (verify request)) _ _ (stay failure) (
            if-Stepped n c (not (pre_verify request)) _ _ (stay failure)
              (propose_new-Stepped n c request now small v)))))

-- The client requests that reach a replica, with their contexts and times, one after another.
unfoldable pub new_requests :
    (Request → Bool)
    → (Request → Bool)
    → Commitment
    → List (Option SignatureInfo × Request × ℕ)
    → Commitment
new_requests verify pre_verify c [] = c
new_requests verify pre_verify c ((context, request, now) ∷ ms) =
    new_requests verify pre_verify (process_new_request verify pre_verify c context request now).0
      ms

new_requests-Fresh :
    (verify pre_verify : Request → Bool) (n : ℕ) (c : Commitment)
    (ms : List (Option SignatureInfo × Request × ℕ))
    → c.message_manager.next_seq + length ms < 2 ^ 64
    → Fresh n c
    → Fresh n (new_requests verify pre_verify c ms)
unfolding new_requests
new_requests-Fresh verify pre_verify n c [] small v = v
new_requests-Fresh verify pre_verify n c ((context, request, now) ∷ ms) small v =
    let step =
      process_new_request-Stepped verify pre_verify n c context request now (omega arith) v in
    new_requests-Fresh verify pre_verify n
      (process_new_request verify pre_verify c context request now).0 ms (omega (arith, step.next))
      step.fresh

no_hash : (ms : List Outgoing) (h : String) → ms ≡ [] → member h (hashes (proposals ms)) ≢ true
unfolding member
no_hash ms h e q =
    let r : false ≡ true = subst (λ l. member h (hashes (proposals l)) ≡ true) e q in ground arith

-- Whatever client requests reach a replica that has sent nothing yet, the pre-prepare messages that
-- it broadcasts are numbered one by one from its next number on, and no two of them are for the
-- same request hash, as long as the numbers stay below 2^64 and no hash expires in between.
pub new_requests-Numbered :
    (verify pre_verify : Request → Bool) (c : Commitment)
    (ms : List (Option SignatureInfo × Request × ℕ))
    → c.outgoing ≡ []
    → c.message_manager.next_seq + length ms < 2 ^ 64
    → let sent = proposals (new_requests verify pre_verify c ms).outgoing in
      Numbered c.message_manager.next_seq sent × Distinct (hashes sent)
unfolding member
new_requests-Numbered verify pre_verify c ms none_sent small =
    let v = new_requests-Fresh verify pre_verify c.message_manager.next_seq c ms small (record {
      numbered = rw none_sent tt;
      next = rw none_sent (omega arith);
      distinct = rw none_sent tt;
      known = λ h e. absurd (no_hash c.outgoing h none_sent e);
    }) in
    (v.numbered, v.distinct)
