-- ===== src/Pbft/Collector/Prepared.antt =====
-- Which request a collector has at hand when it is prepared and when it executes
-- (platform/consensus/ordering/pbft/transaction_collector.cpp).
use resilientdb.Common.{
  subst, ◌↔◌, ◌⊎◌, number_keys, text_keys, Bool-cases, ℕ, String, ◌≡◌, inl, inr, Bool, true, false,
  Option, none, some, List, [], ◌∷◌, refl, sym, ◌∙◌, ◌++◌, not, ◌&&◌, arith,
}
use resilientdb.Messages.{SignatureInfo, Request}
use resilientdb.Pbft.Status.{Status, at_most, is_status}
use resilientdb.Pbft.Collector.{
  RequestInfo, Collector, has_hash, find_proposal, keep_hash, settle_main, add_prepare, count_vote,
  settle_at, settle,
}
use resilientdb.Pbft.Collector.Steps.{settle-votes}
use resilientdb.Pbft.StatusChange.{consensus_call_back}

-- A proof or a proposal is in a list.
abbrev pub In : RequestInfo → List RequestInfo → Type 0
In i [] = ⊥
In i (x ∷ xs) = (x ≡ i) ⊎ In i xs

-- The proofs are those of a list that are for the hash.
abbrev pub Kept : String → List RequestInfo → List RequestInfo → Type 0
Kept h old proofs = (i : RequestInfo) → In i proofs ↔ (In i old × (has_hash h i ≡ true))

keep_hash-Kept : (h : String) (is : List RequestInfo) → Kept h is (keep_hash h is)
unfolding keep_hash
keep_hash-Kept h [] i = (λ e. absurd e, λ e. absurd e.0)
keep_hash-Kept h (x ∷ xs) i =
    let (there, back) = keep_hash-Kept h xs i in
    elim (Bool-cases (has_hash h x)) [
      | inl q ↦ rw q (
        λ e. elim e [
          | inl same ↦ (inl same, subst (λ y. has_hash h y ≡ true) same q)
          | inr later ↦ (inr (there later).0, (there later).1)
        ],
        λ e. elim e.0 [ inl same ↦ inl same | inr later ↦ inr (back (later, e.1)) ],
      )
      | inr q ↦ rw q (
        λ e. (inr (there e).0, (there e).1),
        λ e. elim e.0 [
          | inl same ↦ absurd (ground (arith, subst (λ y. has_hash h y ≡ false) same q, e.1))
          | inr later ↦ back (later, e.1)
        ],
      )
    ]

-- No proposal of the list has the hash.
abbrev pub NoneFor : String → List RequestInfo → Type 0
NoneFor h is = (i : RequestInfo) → In i is → has_hash h i ≡ false

find_proposal-cases :
    (h : String) (is : List RequestInfo)
    → ((find_proposal h is ≡ none) × NoneFor h is)
      ⊎ ((i : RequestInfo) × (find_proposal h is ≡ some i) × In i is × (has_hash h i ≡ true))
unfolding find_proposal
find_proposal-cases h [] = inl (refl, λ i e. absurd e)
find_proposal-cases h (x ∷ xs) = elim (Bool-cases (has_hash h x)) [
  | inl q ↦ rw q (inr (x, refl, inl refl, q))
  | inr q ↦ rw q (elim (find_proposal-cases h xs) [
    | inl (e, rest) ↦ inl (
      e,
      λ i e. elim e [
        | inl same ↦ subst (λ y. has_hash h y ≡ false) same q
        | inr later ↦ rest i later
      ],
    )
    | inr (i, e, there, same) ↦ inr (i, e, inr there, same)
  ])
]

-- What the main request is afterwards, from what it was and the other proposals: it stays if there
-- is none or if it has the hash, and otherwise it is another proposal with the hash, or none where
-- there is no such proposal.
abbrev pub Chosen : String → Option RequestInfo → List RequestInfo → Option RequestInfo → Type 0
Chosen h old others main =
    ((old ≡ none) × (main ≡ none))
    ⊎ (((i : RequestInfo) × (old ≡ some i) × (main ≡ some i) × (has_hash h i ≡ true))
        ⊎ (((i : RequestInfo) × (old ≡ some i) × (has_hash h i ≡ false))
            × (((main ≡ none) × NoneFor h others)
                ⊎ ((i : RequestInfo) × (main ≡ some i) × In i others × (has_hash h i ≡ true)))))

settle_at-Settled :
    (c : Collector) (h : String) (o : Option RequestInfo)
    → c.main_request ≡ o
    → Chosen h o c.other_main_request (settle_at c h o).main_request
      × ((settle_at c h o).is_prepared ≡ c.is_prepared)
      × ((settle_at c h o).prepared_proof ≡ c.prepared_proof)
unfolding settle_at
settle_at-Settled c h none e = (inl (refl, e), refl, refl)
settle_at-Settled c h (some i) e = elim (Bool-cases (has_hash h i)) [
  | inl q ↦ rw q (inr (inl (i, refl, e, q)), refl, refl)
  | inr q ↦ rw q (inr (inr ((i, refl, q), find_proposal-cases h c.other_main_request)), refl, refl)
]

settle-Settled :
    (c : Collector) (h : String)
    → (settle c h).status ≡ Status.ready_commit
    → let d = settle c h in
      (d.is_prepared ≡ true)
      × Kept h c.prepared_proof d.prepared_proof
      × Chosen h c.main_request c.other_main_request d.main_request
unfolding settle settle_main is_status
settle-Settled c h e =
    let (_, same) = settle-votes c h in
    let ready : c.status ≡ Status.ready_commit = sym same ∙ e in
    let (main, prepared, proofs) =
      settle_at-Settled (record c { is_prepared = true }) h c.main_request refl in
    let q : is_status c.status Status.ready_commit ≡ true = rw ready refl in
    let kept =
      subst
        (λ is. Kept h is (
          keep_hash h
            (settle_at (record c { is_prepared = true }) h c.main_request).prepared_proof))
        proofs (keep_hash-Kept h _) in
    rw q (prepared, kept, main)

-- With view changes enabled, the prepare vote that brings an unprepared collector to READY_COMMIT
-- leaves it prepared. Its proofs are then those for the hash of that vote, the vote's own among them,
-- and no others; a main request with another hash is replaced by another proposal with this hash, or
-- by none exactly where there is no such proposal, and it stays otherwise.
pub add_prepare-settles :
    (quorum : ℕ) (c : Collector) (r : Request) (sig : SignatureInfo) (s : Bool)
    → at_most c.status Status.ready_prepare ≡ true
    → c.is_prepared ≡ false
    → let d = (add_prepare (consensus_call_back quorum r.kind) c r sig s).collector in
      let own : RequestInfo = record { request = some r; signature = sig } in
      d.status ≡ Status.ready_commit
      → (d.is_prepared ≡ true)
        × Kept r.hash (c.prepared_proof ++ own ∷ []) d.prepared_proof
        × Chosen r.hash c.main_request c.other_main_request d.main_request
unfolding add_prepare count_vote
add_prepare-settles quorum c r sig s early unprepared =
    let q : (at_most c.status Status.ready_prepare && not c.is_prepared) ≡ true = ground arith in
    rw q (
      settle-Settled
        (count_vote (consensus_call_back quorum r.kind)
          (record c {
            prepared_proof = c.prepared_proof ++ record { request = some r; signature = sig } ∷ [];
          })
          r s).0
        r.hash)
