-- ===== src/Pbft/Collector.antt =====
-- TransactionCollector (platform/consensus/ordering/pbft/transaction_collector.{h,cpp}): the votes
-- and the proposals for one sequence number. One call is one step: the mutex and the atomics make
-- the calls follow one another, so AtomicUniquePtr is an `Option`.
pub mod Tally
pub mod Runs
pub mod Steps
pub mod Safety
pub mod Prepared
use mathlib.Core.Option
use resilientdb.Common.{
  ℕ, String, Bool, true, false, not, ◌&&◌, Option, none, some, List, [], ◌∷◌, ◌++◌, length, ltb,
  if◌then◌else◌, ◌==◌, number_keys, text_keys, ◌||◌,
}
use resilientdb.Common.Int.{ℤ}
use resilientdb.Common.Maps.{Map, lookup, insert, add}
use resilientdb.Messages.{RequestType, is_type, SignatureInfo, Request, success, changed, failure}
use resilientdb.Pbft.Status.{Status, at_most, is_status}

pub record RequestInfo : Type 0 where
  pub request : Option Request
  pub signature : SignatureInfo

-- Context: the channel to the client, if it is kept, and the signature of the message.
pub record Context : Type 0 where
  pub client : Option ℕ
  pub signature : SignatureInfo

-- A bitset<128> is the list of its set positions: writing a bit that is set changes nothing, and
-- `count()` is the length. (A sender from 128 on is out of the bitset's range.)
abbrev pub Senders : Type 0
Senders = RequestType → Map String (List ℕ)

pub record Collector : Type 0 where
  pub seq : ℕ
  pub has_executor : Bool
  pub is_committed : Bool
  pub is_prepared : Bool
  pub context_list : List Context
  pub prepared_proof : List RequestInfo
  pub main_request : Option RequestInfo
  pub status : Status
  pub enable_viewchange : Bool
  pub commit_certs : List SignatureInfo
  pub senders : Senders
  pub other_main_request : List RequestInfo
  pub view : ℕ

-- The constructor.
unfoldable pub new_collector : ℕ → Bool → Bool → Collector
new_collector seq has_executor enable_viewchange = record {
  seq = seq;
  has_executor = has_executor;
  is_committed = false;
  is_prepared = false;
  context_list = [];
  prepared_proof = [];
  main_request = none;
  status = Status.none;
  enable_viewchange = enable_viewchange;
  commit_certs = [];
  senders = λ _. [];
  other_main_request = [];
  view = 0;
}

-- AtomicUniquePtr::Set: the new pointer and whether the slot was free.
unfoldable pub set_main : Option RequestInfo → RequestInfo → Option RequestInfo × Bool
set_main none info = (some info, true)
set_main (some old) info = (some old, false)

-- SetContextList.
unfoldable pub set_context_list : Collector → ℕ → List Context → Collector × ℤ
set_context_list c seq context =
    if seq == c.seq then (record c { context_list = context }, success) else (c, failure)

-- HasClientContextList.
unfoldable pub has_client_context_list : Collector → ℕ → Bool
has_client_context_list c seq =
    if seq == c.seq then (elim c.context_list [ [] ↦ false | _ ∷ _ ↦ true ]) else false

-- FetchContextList: the vector is moved out.
unfoldable pub fetch_context_list : Collector → ℕ → Collector × List Context
fetch_context_list c seq =
    if seq == c.seq then (record c { context_list = [] }, c.context_list) else (c, [])

-- The bitset of a hash in one of the maps.
unfoldable pub bits : Map String (List ℕ) → String → List ℕ
bits m hash = elim (lookup hash m) [ none ↦ [] | some ids ↦ ids ]

-- `senders_[type][hash]`.
unfoldable pub votes : Senders → RequestType → String → List ℕ
unfolding bits
votes s kind hash = bits (s kind) hash

-- `senders_[type][hash][sender_id] = 1`, after the entry is made if it is missing.
unfoldable pub mark : Senders → RequestType → String → ℕ → Senders
unfolding votes is_type
mark s kind hash sender =
    λ t. if is_type kind t then insert hash (add sender (votes s t hash)) (s t) else s t

-- `info->request->hash() == hash`. (The pointer is null only once Commit has moved the request.)
unfoldable pub has_hash : String → RequestInfo → Bool
has_hash hash info = elim info.request [ none ↦ false | some r ↦ r.hash == hash ]

-- The loop over other_main_request_ with its `break`: the first proposal with the hash.
unfoldable pub find_proposal : String → List RequestInfo → Option RequestInfo
unfolding has_hash
find_proposal hash [] = none
find_proposal hash (i ∷ is) = if has_hash hash i then some i else find_proposal hash is

-- The loop that compacts prepared_proof_, and the erase after it.
unfoldable pub keep_hash : String → List RequestInfo → List RequestInfo
unfolding has_hash
keep_hash hash [] = []
keep_hash hash (i ∷ is) = let rest = keep_hash hash is in if has_hash hash i then i ∷ rest else rest

-- What AddRequest's callback does: from the request, the count, the status and `force` to the new
-- status and the variables that it captures.
abbrev pub CallBack {ℓ} : Type ℓ → Type ℓ
CallBack S = Request → ℕ → Status → Bool → S → Status × S

-- A call's effect: the collector, the integer returned, what was handed to executor_->Commit, and
-- the variables of the callback.
pub record Outcome {ℓ} (S : Type ℓ) : Type ℓ where
  pub collector : Collector
  pub code : ℤ
  pub to_execute : List Request
  pub captured : S

-- What `add_committed_certs` leaves in the request.
unfoldable pub with_certs : Request → List SignatureInfo → Request
with_certs r certs = record r { committed_certs = r.committed_certs ++ certs }

-- Commit, past the compare-exchange and the test for a main request.
unfoldable pub hand_over : Collector → RequestInfo → Option Request → Collector × ℤ × List Request
unfolding with_certs
hand_over c info none = (record c { is_committed = true }, success, [])
hand_over c info (some r) =
    if c.has_executor
    then (
      record c { is_committed = true; main_request = some (record info { request = none }) },
      success,
      with_certs r c.commit_certs ∷ [],
    )
    else (record c { is_committed = true }, success, [])

-- Commit, past the compare-exchange.
unfoldable pub finish : Collector → Option RequestInfo → Collector × ℤ × List Request
unfolding hand_over
finish c none = (c, failure, [])
finish c (some info) = hand_over c info info.request

-- Commit: the collector, the integer returned, and what executor_->Commit was given.
unfoldable pub commit : Collector → Collector × ℤ × List Request
unfolding is_status finish
commit c =
    if is_status c.status Status.ready_execute
    then finish (record c { status = Status.executed }) c.main_request
    else (c, failure, [])

-- `force`: the proposal is of a later view, and nothing is prepared.
unfoldable pub is_forced : Collector → Request → Bool
is_forced c request = ltb 0 c.view && ltb c.view request.current_view && not c.is_prepared

-- The main request as Set finds it: a forced proposal clears it first.
unfoldable pub slot_for : Collector → Request → Option RequestInfo
unfolding is_forced
slot_for c request = if is_forced c request then none else c.main_request

module _ {ℓ} {S : Type ℓ} (call_back : CallBack S) where
  -- `is_main_request`: a proposal.
  unfoldable pub add_main : Collector → Request → SignatureInfo → S → Outcome S
  add_main c request signature s =
      let info : RequestInfo = record { request = some request; signature = signature } in
      let (slot, free) = set_main (slot_for c request) info in
      if free
      then (let (status, s') = call_back request 1 c.status (is_forced c request) s in
          record {
            collector = record c {
              main_request = slot;
              view = request.current_view;
              status = status;
            };
            code = success;
            to_execute = [];
            captured = s';
          })
      else record {
        collector = record c { other_main_request = c.other_main_request ++ info ∷ [] };
        code = failure;
        to_execute = [];
        captured = s;
      }

  -- The vote is marked and the callback is told the count.
  unfoldable pub count_vote : Collector → Request → S → Collector × S
  count_vote c request s =
      let marked = mark c.senders request.kind request.hash request.sender_id in
      let (status, s') =
        call_back request (length (votes marked request.kind request.hash)) c.status false s in
      (record c { senders = marked; status = status }, s')

-- The certificate that a commit vote carries.
unfoldable pub add_cert : Collector → Request → Collector
unfolding is_type
add_cert c request = elim request.data_signature [
  | none ↦ c
  | some sig ↦
      if is_type request.kind RequestType.commit && ltb 0 sig.node_id
      then record c { commit_certs = c.commit_certs ++ sig ∷ [] }
      else c
]

-- The main request, given as it stands, once `hash` is prepared: a proposal with another hash gives
-- way to the first with this hash among the others, if there is one.
unfoldable pub settle_at : Collector → String → Option RequestInfo → Collector
settle_at c hash none = c
settle_at c hash (some info) = if has_hash hash info then c else record c {
  main_request = find_proposal hash c.other_main_request;
  other_main_request = [];
}

unfoldable pub settle_main : Collector → String → Collector
unfolding settle_at
settle_main c hash = settle_at c hash c.main_request

-- What follows the count of a prepare vote, if it made the status READY_COMMIT.
unfoldable pub settle : Collector → String → Collector
settle c hash =
    if is_status c.status Status.ready_commit
    then (let d = settle_main (record c { is_prepared = true }) hash in
        record d { prepared_proof = keep_hash hash d.prepared_proof })
    else c

module _ {ℓ} {S : Type ℓ} (call_back : CallBack S) where
  -- A prepare vote while view changes are enabled: it is kept as a proof.
  unfoldable pub add_prepare : Collector → Request → SignatureInfo → S → Outcome S
  add_prepare c request signature s =
      let ignored : Outcome S = record {
        collector = c;
        code = success;
        to_execute = [];
        captured = s;
      } in
      if at_most c.status Status.ready_prepare && not c.is_prepared
      then (let info : RequestInfo = record { request = some request; signature = signature } in
          let (d, s') =
            count_vote call_back (record c { prepared_proof = c.prepared_proof ++ info ∷ [] })
              request s in
          record {
            collector = settle d request.hash;
            code = success;
            to_execute = [];
            captured = s';
          })
      else ignored

  -- Every other vote.
  unfoldable pub add_vote : Collector → Request → S → Outcome S
  add_vote c request s =
      let (d, s') = count_vote call_back (add_cert c request) request s in
      if is_status d.status Status.ready_execute
      then (let (e, _, sent) = commit d in
          record { collector = e; code = changed; to_execute = sent; captured = s' })
      else record { collector = d; code = success; to_execute = []; captured = s' }

  -- AddRequest, past the checks.
  unfoldable pub accept : Collector → Request → SignatureInfo → Bool → S → Outcome S
  accept c request signature is_main s =
      if is_main
      then add_main call_back c request signature s
      else if c.enable_viewchange && is_type request.kind RequestType.prepare
      then add_prepare c request signature s
      else add_vote c request s

  -- AddRequest.
  unfoldable pub add_request : Collector → Option Request → SignatureInfo → Bool → S → Outcome S
  add_request c none signature is_main s = record {
    collector = c;
    code = failure;
    to_execute = [];
    captured = s;
  }
  add_request c (some request) signature is_main s =
      if c.is_committed || is_status c.status Status.executed || not (c.seq == request.seq)
      then record { collector = c; code = failure; to_execute = []; captured = s }
      else accept c request signature is_main s

-- GetPreparedProof.
unfoldable pub get_prepared_proof : Collector → List RequestInfo
get_prepared_proof c = c.prepared_proof

-- The hashes of the other proposals; `none` where a null request is read through.
stored_hashes : List RequestInfo → Option (List String)
stored_hashes [] = some []
stored_hashes (i ∷ is) = elim i.request [
  | none ↦ none
  | some r ↦ Option.map (λ hs. r.hash ∷ hs) (stored_hashes is)
]

-- GetAllStoredHash: `none` where a null request is read through.
unfoldable pub get_all_stored_hash : Collector → Option (List String)
unfolding stored_hashes
get_all_stored_hash c = elim c.main_request [
  | none ↦ stored_hashes c.other_main_request
  | some info ↦ stored_hashes (info ∷ c.other_main_request)
]
