-- ===== src/Tests/CheckPoints.antt =====
-- Votes of three of four replicas for a checkpoint
-- (platform/consensus/ordering/pbft/checkpoint_manager.cpp).
use resilientdb.Common.{
  number_keys, text_keys, ◌==◌, ℕ, String, ◌≡◌, refl, Bool, some, List, [], ◌∷◌,
}
use resilientdb.Common.Maps.{member, add}
use resilientdb.Messages.{SignatureInfo}
use resilientdb.Pbft.CheckPoint.Votes.{
  new_votes, is_before, is_ballot, vote_on, first_vote, cast, has_voted, process_check_point,
  later_or, stable_ballot, erase_up_to, make_stable, update_stable,
}
use resilientdb.Pbft.CheckPoint.Votes.Stable.{
  vote, round, Event, Voted, Backed, run_events, stable_ckpt-Backed,
}

abbrev of_hash : String → SignatureInfo → Bool
of_hash hash s = s.signature == hash

abbrev check_point : ℕ → Event
check_point id =
    vote
      (some
        (record { seq = 5; hash = "h"; hash_signature = record { node_id = id; signature = "h" } }))
      id

abbrev events : List Event
events = check_point 1 ∷ check_point 2 ∷ round ∷ check_point 2 ∷ check_point 4 ∷ round ∷ []

stable_ckpt-Backed_example :
    let v = run_events of_hash 3 5 new_votes events in
    Backed (Voted of_hash events) 3 v.stable_ckpt × (v.stable_ckpt.seq ≡ v.current_stable_seq)
stable_ckpt-Backed_example = stable_ckpt-Backed of_hash 3 5 events

becomes_stable : (run_events of_hash 3 5 new_votes events).current_stable_seq ≡ 5
unfolding run_events process_check_point has_voted is_ballot is_before cast first_vote vote_on
    new_votes update_stable stable_ballot later_or make_stable erase_up_to member add
becomes_stable = refl
