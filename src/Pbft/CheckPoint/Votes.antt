-- ===== src/Pbft/CheckPoint/Votes.antt =====
-- The votes for checkpoints in CheckPointManager
-- (platform/consensus/ordering/pbft/checkpoint_manager.cpp): ProcessCheckPoint and the stable
-- checkpoint of UpdateStableCheckPointStatus. sender_ckpt_ and sign_ckpt_, which always have the
-- same keys, are one list of ballots in the order of their keys. hash_ckpt_, which nothing reads,
-- and the transfer of missing requests from other replicas are left out.
pub mod Stable
use Prim.Native.Nat.{Ordering}
use Prim.Native.String.{compare}
use resilientdb.Common.{
  number_keys, text_keys, ltb, leb, if◌then◌else◌, length, push, ◌==◌, ℕ, ◌+◌, ◌%◌, String, Bool,
  true, false, not, ◌&&◌, ◌||◌, Option, none, some, List, [], ◌∷◌,
}
use resilientdb.Common.Int.{ℤ}
use resilientdb.Common.Maps.{member, add}
use resilientdb.Messages.{SignatureInfo, success, failure}
use resilientdb.Pbft.CheckPoint.{CheckPointData}

-- An entry of sender_ckpt_ and of sign_ckpt_.
pub record Ballot : Type 0 where
  pub seq : ℕ
  pub hash : String
  pub senders : List ℕ
  pub signatures : List SignatureInfo

-- StableCheckPoint.
pub record StableCheckPoint : Type 0 where
  pub seq : ℕ
  pub hash : String
  pub signatures : List SignatureInfo

pub record Votes : Type 0 where
  pub ballots : List Ballot
  pub new_data : ℕ
  pub current_stable_seq : ℕ
  pub stable_ckpt : StableCheckPoint

unfoldable pub new_votes : Votes
new_votes = record {
  ballots = [];
  new_data = 0;
  current_stable_seq = 0;
  stable_ckpt = record { seq = 0; hash = ""; signatures = [] };
}

-- Whether a key of the map stands before a ballot: std::pair compares the number, then the hash.
unfoldable pub is_before : ℕ → String → Ballot → Bool
is_before seq hash b =
    ltb seq b.seq
    || (seq == b.seq && (elim (compare hash b.hash) [ Ordering.lt ↦ true | _ ↦ false ]))

unfoldable pub is_ballot : ℕ → String → Ballot → Bool
is_ballot seq hash b = b.seq == seq && b.hash == hash

-- The insertion of the sender into its set, and of the signature if the sender is new.
unfoldable pub vote_on : Ballot → ℕ → SignatureInfo → Ballot
vote_on b sender signature =
    if member sender b.senders
    then b
    else record b { senders = add sender b.senders; signatures = push b.signatures signature }

unfoldable pub first_vote : ℕ → String → ℕ → SignatureInfo → Ballot
first_vote seq hash sender signature = record {
  seq = seq;
  hash = hash;
  senders = sender ∷ [];
  signatures = signature ∷ [];
}

unfoldable pub cast : List Ballot → ℕ → String → ℕ → SignatureInfo → List Ballot
unfolding is_before is_ballot
cast [] seq hash sender signature = first_vote seq hash sender signature ∷ []
cast (b ∷ bs) seq hash sender signature =
    let later = cast bs seq hash sender signature in
    if is_ballot seq hash b
    then vote_on b sender signature ∷ bs
    else if is_before seq hash b
    then first_vote seq hash sender signature ∷ b ∷ bs
    else b ∷ later

-- Whether the sender has voted already, so that new_data_ stays.
unfoldable pub has_voted : List Ballot → ℕ → String → ℕ → Bool
unfolding is_ballot
has_voted [] seq hash sender = false
has_voted (b ∷ bs) seq hash sender =
    let later = has_voted bs seq hash sender in
    if is_ballot seq hash b then member sender b.senders else later

module _ (verify : String → SignatureInfo → Bool) where
  -- ProcessCheckPoint past the parsing; `none` is data that is not parsed.
  unfoldable pub process_check_point : ℕ → Votes → Option CheckPointData → ℕ → Votes × ℤ
  unfolding has_voted
  process_check_point water_mark v none sender = (v, failure)
  process_check_point water_mark v (some d) sender =
      if not (d.seq % water_mark == 0)
      then (v, failure)
      else if not (verify d.hash d.hash_signature)
      then (v, failure)
      else (
        record v {
          ballots = cast v.ballots d.seq d.hash sender d.hash_signature;
          new_data = if has_voted v.ballots d.seq d.hash sender then v.new_data else v.new_data + 1;
        },
        success,
      )

-- The loop over sender_ckpt_: the last ballot with a quorum.
unfoldable pub later_or : Option Ballot → Option Ballot → Option Ballot
later_or (some later) b = some later
later_or none b = b

unfoldable pub stable_ballot : ℕ → List Ballot → Option Ballot
stable_ballot quorum [] = none
stable_ballot quorum (b ∷ bs) =
    later_or (stable_ballot quorum bs) (if leb quorum (length b.senders) then some b else none)

-- The loop that erases the ballots up to a number.
unfoldable pub erase_up_to : ℕ → List Ballot → List Ballot
erase_up_to seq [] = []
erase_up_to seq (b ∷ bs) = let rest = erase_up_to seq bs in if leb b.seq seq then rest else b ∷ rest

-- A round of UpdateStableCheckPointStatus, with the ballot that the loop found.
unfoldable pub make_stable : Votes → Option Ballot → Votes
unfolding erase_up_to
make_stable v none = record v { new_data = 0 }
make_stable v (some b) =
    if ltb v.current_stable_seq b.seq
    then record v {
      new_data = 0;
      ballots = erase_up_to b.seq v.ballots;
      current_stable_seq = b.seq;
      stable_ckpt = record { seq = b.seq; hash = b.hash; signatures = b.signatures };
    }
    else record v { new_data = 0 }

-- The round; the thread waits for new_data_ to be above 0.
unfoldable pub update_stable : ℕ → Votes → Votes
unfolding stable_ballot make_stable
update_stable quorum v =
    if ltb 0 v.new_data then make_stable v (stable_ballot quorum v.ballots) else v
