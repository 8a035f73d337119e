-- ===== src/Pbft/CheckPoint/Votes/Stable.antt =====
-- The quorum behind a stable checkpoint (platform/consensus/ordering/pbft/checkpoint_manager.cpp).
use resilientdb.Common.{
  some_inj, subst, sym, number_keys, text_keys, inl, inr, suc, leb, Bool-cases, length, push, ℕ,
  ◌≤◌, String, ◌≡◌, refl, ap, ◌∙◌, ◌⊎◌, Bool, true, Option, List, [], ◌∷◌, ltb, leb→le, ◌==◌, ◌%◌,
  none, some, arith, eq_iff,
}
use resilientdb.Common.Maps.{member, add, Distinct}
use resilientdb.Messages.{SignatureInfo}
use resilientdb.Pbft.CheckPoint.{CheckPointData}
use resilientdb.Pbft.CheckPoint.Votes.{
  Ballot, StableCheckPoint, Votes, is_before, is_ballot, vote_on, first_vote, cast, erase_up_to,
  new_votes, process_check_point, later_or, stable_ballot, make_stable, update_stable,
}

-- What reaches the manager: the checkpoint of a sender, or a round of the thread.
pub data Event : Type 0 where
  vote : Option CheckPointData → ℕ → Event
  round : Event

is_ballot-hash :
    (seq : ℕ) (hash : String) (b : Ballot) → is_ballot seq hash b ≡ true → b.hash ≡ hash
unfolding is_ballot
is_ballot-hash seq hash b q = ground (arith, eq_iff b.hash hash)

-- A sender with the signature that came with its vote.
abbrev pub Signed : Type 0
Signed = ℕ × SignatureInfo

abbrev pub ids_of : List Signed → List ℕ
ids_of [] = []
ids_of ((id, _) ∷ ps) = id ∷ ids_of ps

-- The signatures, that of the last one first.
abbrev pub signatures_of : List Signed → List SignatureInfo
signatures_of [] = []
signatures_of ((_, s) ∷ ps) = push (signatures_of ps) s

length-ids_of : (ps : List Signed) → length (ids_of ps) ≡ length ps
length-ids_of [] = refl
length-ids_of (p ∷ ps) = ap suc (length-ids_of ps)

-- Whether a sender sent the checkpoint with a number and a hash, with the signature.
abbrev pub WasSent : List Event → ℕ → String → Signed → Type 0
WasSent [] seq hash p = ⊥
WasSent (round ∷ es) seq hash p = WasSent es seq hash p
WasSent (vote none sender ∷ es) seq hash p = WasSent es seq hash p
WasSent (vote (some d) sender ∷ es) seq hash p =
    ((d.seq ≡ seq) × (d.hash ≡ hash) × (sender ≡ p.0) × (d.hash_signature ≡ p.1))
    ⊎ WasSent es seq hash p

is_ballot-same :
    (seq : ℕ) (hash : String) (b : Ballot)
    → is_ballot seq hash b ≡ true
    → (seq ≡ b.seq) × (hash ≡ b.hash)
unfolding is_ballot
is_ballot-same seq hash b q = (ground arith, ground (arith, eq_iff b.hash hash))

-- The votes of a list: each was sent, in the sense of the parameter.
module _ (Vote : ℕ → String → Signed → Type 0) where
  abbrev pub AllVotes : ℕ → String → List Signed → Type 0
  AllVotes seq hash [] = Unit {0}
  AllVotes seq hash (p ∷ ps) = Vote seq hash p × AllVotes seq hash ps

  -- Votes of different senders, which are the senders and the signatures.
  abbrev pub Good : ℕ → String → List ℕ → List SignatureInfo → Type 0
  Good seq hash senders signatures =
      (ps : List Signed) × (senders ≡ ids_of ps)
      × (signatures ≡ signatures_of ps)
      × Distinct (ids_of ps)
      × AllVotes seq hash ps

  abbrev pub GoodBallot : Ballot → Type 0
  GoodBallot b = Good b.seq b.hash b.senders b.signatures

  abbrev pub AllGood : List Ballot → Type 0
  AllGood [] = Unit {0}
  AllGood (b ∷ bs) = GoodBallot b × AllGood bs

  vote_on-Good :
      (b : Ballot) (sender : ℕ) (s : SignatureInfo)
      → GoodBallot b
      → Vote b.seq b.hash (sender, s)
      → GoodBallot (vote_on b sender s)
  unfolding vote_on add
  vote_on-Good b sender s (ps, es, eg, d, v) e = elim (Bool-cases (member sender b.senders)) [
    | inl q ↦ rw q (ps, es, eg, d, v)
    | inr q ↦ rw q (
      (sender, s) ∷ ps,
      ap (λ ids. sender ∷ ids) es,
      ap (λ ss. push ss s) eg,
      (ap (member sender) (sym es) ∙ q, d),
      (e, v),
    )
  ]

  first_vote-Good :
      (seq : ℕ) (hash : String) (sender : ℕ) (s : SignatureInfo)
      → Vote seq hash (sender, s)
      → GoodBallot (first_vote seq hash sender s)
  unfolding first_vote member
  first_vote-Good seq hash sender s e = ((sender, s) ∷ [], refl, refl, (refl, tt), (e, tt))

  cast-AllGood :
      (bs : List Ballot) (seq : ℕ) (hash : String) (sender : ℕ) (s : SignatureInfo)
      → Vote seq hash (sender, s)
      → AllGood bs
      → AllGood (cast bs seq hash sender s)
  unfolding cast
  cast-AllGood [] seq hash sender s e g = (first_vote-Good seq hash sender s e, tt)
  cast-AllGood (b ∷ bs) seq hash sender s e (g, gs) = elim (Bool-cases (is_ballot seq hash b)) [
    | inl q ↦
        let (num, same) = is_ballot-same seq hash b q in
        let own : Vote b.seq b.hash (sender, s) =
          subst (λ n. Vote n b.hash (sender, s)) num (subst (λ h. Vote seq h (sender, s)) same e) in
        rw q (vote_on-Good b sender s g own, gs)
    | inr q ↦ elim (Bool-cases (is_before seq hash b)) [
      | inl r ↦ rw (q, r) (first_vote-Good seq hash sender s e, (g, gs))
      | inr r ↦ rw (q, r) (g, cast-AllGood bs seq hash sender s e gs)
    ]
  ]

  erase_up_to-AllGood : (seq : ℕ) (bs : List Ballot) → AllGood bs → AllGood (erase_up_to seq bs)
  unfolding erase_up_to
  erase_up_to-AllGood seq [] g = tt
  erase_up_to-AllGood seq (b ∷ bs) (g, gs) = elim (Bool-cases (leb b.seq seq)) [
    | inl q ↦ rw q (erase_up_to-AllGood seq bs gs)
    | inr q ↦ rw q (g, erase_up_to-AllGood seq bs gs)
  ]

  -- The checkpoint is none yet, or its signatures are those of votes for it by a quorum of
  -- different senders.
  abbrev pub Backed : ℕ → StableCheckPoint → Type 0
  Backed quorum c =
      (c.seq ≡ 0)
      ⊎ ((ps : List Signed) × (quorum ≤ length ps)
          × (c.signatures ≡ signatures_of ps)
          × Distinct (ids_of ps)
          × AllVotes c.seq c.hash ps)

  pub record Sound (quorum : ℕ) (v : Votes) : Type 0 where
    pub all_good : AllGood v.ballots
    pub current : v.stable_ckpt.seq ≡ v.current_stable_seq
    pub backed : Backed quorum v.stable_ckpt

  abbrev Found : ℕ → Option Ballot → Type 0
  Found quorum none = Unit {0}
  Found quorum (some b) = (quorum ≤ length b.senders) × GoodBallot b

  later_or-Found :
      (quorum : ℕ) (o p : Option Ballot)
      → Found quorum o
      → Found quorum p
      → Found quorum (later_or o p)
  unfolding later_or
  later_or-Found quorum none p f g = g
  later_or-Found quorum (some b) p f g = f

  stable_ballot-Found :
      (quorum : ℕ) (bs : List Ballot) → AllGood bs → Found quorum (stable_ballot quorum bs)
  unfolding stable_ballot
  stable_ballot-Found quorum [] g = tt
  stable_ballot-Found quorum (b ∷ bs) (g, gs) =
      later_or-Found quorum _ _ (stable_ballot-Found quorum bs gs)
        (elim (Bool-cases (leb quorum (length b.senders))) [
          | inl q ↦ rw q (leb→le _ _ q, g)
          | inr q ↦ rw q tt
        ])

  make_stable-Sound :
      (quorum : ℕ) (v : Votes) (o : Option Ballot)
      → Found quorum o
      → Sound quorum v
      → Sound quorum (make_stable v o)
  unfolding make_stable
  make_stable-Sound quorum v none f s = record {
    all_good = s.all_good;
    current = s.current;
    backed = s.backed;
  }
  make_stable-Sound quorum v (some b) (enough, g) s =
      elim (Bool-cases (ltb v.current_stable_seq b.seq)) [
        | inl q ↦ rw q (record {
          all_good = erase_up_to-AllGood b.seq v.ballots s.all_good;
          current = refl;
          backed = inr (
            g.0,
            subst (λ n. quorum ≤ n) (ap length g.1 ∙ length-ids_of g.0) enough,
            g.2,
            g.3,
            g.4,
          );
        })
        | inr q ↦ rw q (record { all_good = s.all_good; current = s.current; backed = s.backed })
      ]

  update_stable-Sound :
      (quorum : ℕ) (v : Votes) → Sound quorum v → Sound quorum (update_stable quorum v)
  unfolding update_stable
  update_stable-Sound quorum v s = elim (Bool-cases (ltb 0 v.new_data)) [
    | inl q ↦
        rw q (make_stable-Sound quorum v _ (stable_ballot-Found quorum v.ballots s.all_good) s)
    | inr q ↦ rw q s
  ]

  process_check_point-Sound :
      (verify : String → SignatureInfo → Bool) (quorum water_mark : ℕ) (v : Votes)
      (o : Option CheckPointData) (sender : ℕ)
      → ((d : CheckPointData)
          → o ≡ some d
          → verify d.hash d.hash_signature ≡ true
          → Vote d.seq d.hash (sender, d.hash_signature))
      → Sound quorum v
      → Sound quorum (process_check_point verify water_mark v o sender).0
  unfolding process_check_point
  process_check_point-Sound verify quorum water_mark v none sender own s = s
  process_check_point-Sound verify quorum water_mark v (some d) sender own s =
      elim (Bool-cases (d.seq % water_mark == 0)) [
        | inr q ↦ rw q s
        | inl q ↦ elim (Bool-cases (verify d.hash d.hash_signature)) [
          | inr r ↦ rw (q, r) s
          | inl r ↦
              rw (q, r)
                (record {
                  all_good =
                      cast-AllGood v.ballots d.seq d.hash sender d.hash_signature (own d refl r)
                        s.all_good;
                  current = s.current;
                  backed = s.backed;
                })
        ]
      ]

module _ (verify : String → SignatureInfo → Bool) where
  -- The events one after another.
  unfoldable pub run_events : ℕ → ℕ → Votes → List Event → Votes
  run_events quorum water_mark v [] = v
  run_events quorum water_mark v (vote d sender ∷ es) =
      run_events quorum water_mark (process_check_point verify water_mark v d sender).0 es
  run_events quorum water_mark v (round ∷ es) =
      run_events quorum water_mark (update_stable quorum v) es

  -- A vote that was sent among the events, with a signature of the hash that verifies.
  abbrev pub Voted : List Event → ℕ → String → Signed → Type 0
  Voted es seq hash p = (verify hash p.1 ≡ true) × WasSent es seq hash p

  run_events-Sound :
      (all : List Event) (quorum water_mark : ℕ) (v : Votes) (es : List Event)
      → ((seq : ℕ) (hash : String) (p : Signed) → WasSent es seq hash p → WasSent all seq hash p)
      → Sound (Voted all) quorum v
      → Sound (Voted all) quorum (run_events quorum water_mark v es)
  unfolding run_events
  run_events-Sound all quorum water_mark v [] w s = s
  run_events-Sound all quorum water_mark v (vote none sender ∷ es) w s =
      run_events-Sound all quorum water_mark (process_check_point verify water_mark v none sender).0
        es w
        (process_check_point-Sound (Voted all) verify quorum water_mark v none sender
          (λ d e. absurd (ground arith)) s)
  run_events-Sound all quorum water_mark v (vote (some d) sender ∷ es) w s =
      run_events-Sound all quorum water_mark
        (process_check_point verify water_mark v (some d) sender).0 es
        (λ seq hash p e. w seq hash p (inr e))
        (process_check_point-Sound (Voted all) verify quorum water_mark v (some d) sender
          (λ x e r.
            subst
              (λ y.
                verify y.hash y.hash_signature ≡ true
                → Voted all y.seq y.hash (sender, y.hash_signature))
              (some_inj e)
              (λ q. (q, w d.seq d.hash (sender, d.hash_signature) (inl (refl, refl, refl, refl))))
              r)
          s)
  run_events-Sound all quorum water_mark v (round ∷ es) w s =
      run_events-Sound all quorum water_mark (update_stable quorum v) es w
        (update_stable-Sound (Voted all) quorum v s)

  -- Whatever checkpoints the replicas send, in whatever order and however often, the stable
  -- checkpoint is at number 0, or its signatures are, one for one, those with which at least the
  -- quorum's number of different senders sent a checkpoint with its number and its hash, and all of
  -- them verify; and it has the number that is the current one.
  pub stable_ckpt-Backed :
      (quorum water_mark : ℕ) (es : List Event)
      → let v = run_events quorum water_mark new_votes es in
        Backed (Voted es) quorum v.stable_ckpt × (v.stable_ckpt.seq ≡ v.current_stable_seq)
  unfolding new_votes
  stable_ckpt-Backed quorum water_mark es =
      let s =
        run_events-Sound es quorum water_mark new_votes es (λ seq hash p e. e)
          (record { all_good = tt; current = refl; backed = inl refl }) in
      (s.backed, s.current)
