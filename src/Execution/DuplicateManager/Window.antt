-- ===== src/Execution/DuplicateManager/Window.antt =====
-- How long DuplicateManager remembers a proposed hash
-- (platform/consensus/execution/duplicate_manager.cpp).
use resilientdb.Common.{
  number_keys, text_keys, inl, inr, ltb, Bool-cases, ◌==◌, ℕ, ◌+◌, String, ◌≡◌, ◌∙◌, false, ◌||◌,
  List, [], ◌∷◌, ◌++◌, arith, eq_iff, if◌then◌else◌, ◌≤◌, sym, ◌≢◌, true, some, beq_self, refl,
}
use resilientdb.Common.Maps.{member, remove, member-remove, Distinct, lookup, member-add}
use resilientdb.Execution.DuplicateManager.{
  DuplicateManager, check_and_add_proposed, expire_proposed, update_recent_hash,
  new_duplicate_manager, check_if_proposed,
}

-- The hashes of a queue.
abbrev pub hashes_of : List (String × ℕ) → List String
hashes_of [] = []
hashes_of ((h, t) ∷ q) = h ∷ hashes_of q

-- The queue holds no hash twice, and the hashes of the set.
abbrev pub Matched : List String → List (String × ℕ) → Type 0
Matched hashes q =
    Distinct (hashes_of q) × ((h : String) → member h hashes ≡ member h (hashes_of q))

-- What reaches the manager: CheckAndAddProposed at a time, or a round of the thread.
pub data Event : Type 0 where
  propose : String → ℕ → Event
  tick : ℕ → Event

unfoldable pub step : DuplicateManager → Event → DuplicateManager
step m (propose hash now) = (check_and_add_proposed m hash now).0
step m (tick time) = update_recent_hash m time

unfoldable pub steps : DuplicateManager → List Event → DuplicateManager
unfolding step
steps m [] = m
steps m (e ∷ es) = steps (step m e) es

member-append :
    (h : String) (q : List (String × ℕ)) (k : String) (t : ℕ)
    → member h (hashes_of (q ++ (k, t) ∷ [])) ≡ (member h (hashes_of q) || k == h)
unfolding member
member-append h [] k t = ground arith
member-append h ((j, u) ∷ q) k t = ground (arith, member-append h q k t)

append-Distinct :
    (q : List (String × ℕ)) (k : String) (t : ℕ)
    → Distinct (hashes_of q)
    → member k (hashes_of q) ≡ false
    → Distinct (hashes_of (q ++ (k, t) ∷ []))
unfolding member
append-Distinct [] k t d n = ground arith
append-Distinct ((j, u) ∷ q) k t d n = (
  member-append j q k t ∙ ground (arith, eq_iff j k, eq_iff k j),
  append-Distinct q k t d.1 (ground arith),
)

gone :
    (h j : String) (s l : List String)
    → member j s ≡ member j (h ∷ l)
    → member h l ≡ false
    → (if h == j then false else member j s) ≡ member j l
unfolding member
gone h j s l e n = ground (arith, eq_iff h j)

expire_proposed-Matched :
    (window time : ℕ) (hashes : List String) (q : List (String × ℕ))
    → Matched hashes q
    → let (hashes', q') = expire_proposed window time hashes q in Matched hashes' q'
unfolding expire_proposed
expire_proposed-Matched window time hashes [] v = v
expire_proposed-Matched window time hashes ((h, t) ∷ q) (d, v) =
    elim (Bool-cases (ltb (t + window) time)) [
      | inl e ↦ rw e (
          expire_proposed-Matched window time (remove h hashes) q
            (d.1, λ j. member-remove h j hashes ∙ gone h j hashes (hashes_of q) (v j) d.0))
      | inr e ↦ rw e (d, v)
    ]

check_and_add_proposed-Matched :
    (m : DuplicateManager) (hash : String) (now : ℕ)
    → Matched m.proposed_hash_set m.proposed_hash_time_queue
    → let (m', _) = check_and_add_proposed m hash now in
      Matched m'.proposed_hash_set m'.proposed_hash_time_queue
unfolding check_and_add_proposed
check_and_add_proposed-Matched m hash now (d, v) =
    let q = m.proposed_hash_time_queue in
    elim (Bool-cases (member hash m.proposed_hash_set)) [
      | inl e ↦ rw e (d, v)
      | inr e ↦ rw e (
        append-Distinct q hash now d (sym (v hash) ∙ e),
        λ j.
            rw (member-add hash j m.proposed_hash_set, member-append j q hash now, v j)
              (ground arith),
      )
    ]

step-Matched :
    (m : DuplicateManager) (e : Event)
    → Matched m.proposed_hash_set m.proposed_hash_time_queue
    → Matched (step m e).proposed_hash_set (step m e).proposed_hash_time_queue
unfolding step update_recent_hash
step-Matched m (propose hash now) v = check_and_add_proposed-Matched m hash now v
step-Matched m (tick time) v =
    expire_proposed-Matched m.window_useconds time m.proposed_hash_set m.proposed_hash_time_queue v

-- The hash is in the set, and its entry in the queue has the time.
abbrev pub Kept : String → ℕ → List String → List (String × ℕ) → Type 0
Kept hash t hashes q = (lookup hash q ≡ some t) × (member hash hashes ≡ true)

Kept-pop :
    (hash h : String) (t u : ℕ) (hashes : List String) (q : List (String × ℕ))
    → t ≢ u
    → Kept hash t hashes ((h, u) ∷ q)
    → Kept hash t (remove h hashes) q
unfolding lookup
Kept-pop hash h t u hashes q n k = ground (arith, member-remove h hash hashes)

expire_proposed-Kept :
    (window time : ℕ) (hash : String) (t : ℕ) (hashes : List String) (q : List (String × ℕ))
    → time ≤ t + window
    → Kept hash t hashes q
    → let (hashes', q') = expire_proposed window time hashes q in Kept hash t hashes' q'
unfolding expire_proposed
expire_proposed-Kept window time hash t hashes [] early k = k
expire_proposed-Kept window time hash t hashes ((h, u) ∷ q) early k =
    elim (Bool-cases (ltb (u + window) time)) [
      | inl e ↦
          let n : t ≢ u = λ r. absurd (ground arith) in
          rw e (
            expire_proposed-Kept window time hash t (remove h hashes) q early
              (Kept-pop hash h t u hashes q n k))
      | inr e ↦ rw e k
    ]

lookup-append :
    (h : String) (q : List (String × ℕ)) (k : String) (u t : ℕ)
    → lookup h q ≡ some t
    → lookup h (q ++ (k, u) ∷ []) ≡ some t
unfolding lookup
lookup-append h [] k u t e = absurd (ground arith)
lookup-append h ((j, v) ∷ q) k u t e = ground (arith, lookup-append h q k u t)

-- Every round of the thread up to a time.
abbrev pub Until : ℕ → List Event → Type 0
Until limit [] = Unit {0}
Until limit (propose hash now ∷ es) = Until limit es
Until limit (tick time ∷ es) = (time ≤ limit) × Until limit es

propose-Kept :
    (m : DuplicateManager) (hash h : String) (t now : ℕ)
    → Kept hash t m.proposed_hash_set m.proposed_hash_time_queue
    → let (m', _) = check_and_add_proposed m h now in
      (m'.window_useconds ≡ m.window_useconds)
      × Kept hash t m'.proposed_hash_set m'.proposed_hash_time_queue
unfolding check_and_add_proposed
propose-Kept m hash h t now (e, k) = elim (Bool-cases (member h m.proposed_hash_set)) [
  | inl r ↦ rw r (refl, (e, k))
  | inr r ↦ rw r (
    refl,
    (
      lookup-append hash m.proposed_hash_time_queue h now t e,
      member-add h hash m.proposed_hash_set ∙ rw k (ground arith),
    ),
  )
]

steps-Kept :
    (m : DuplicateManager) (hash : String) (t : ℕ) (es : List Event)
    → Until (t + m.window_useconds) es
    → Kept hash t m.proposed_hash_set m.proposed_hash_time_queue
    → check_if_proposed (steps m es) hash ≡ true
unfolding steps check_if_proposed update_recent_hash
steps-Kept m hash t [] early k = k.1
steps-Kept m hash t (propose h now ∷ es) early k =
    let (same, k') = propose-Kept m hash h t now k in
    steps-Kept (check_and_add_proposed m h now).0 hash t es (rw same early) k'
steps-Kept m hash t (tick time ∷ es) (first, early) k =
    steps-Kept (update_recent_hash m time) hash t es early (
      expire_proposed-Kept m.window_useconds time hash t m.proposed_hash_set
        m.proposed_hash_time_queue first k)

lookup_new :
    (h : String) (q : List (String × ℕ)) (t : ℕ)
    → member h (hashes_of q) ≡ false
    → lookup h (q ++ (h, t) ∷ []) ≡ some t
unfolding lookup member
lookup_new h [] t n = rw (beq_self h) refl
lookup_new h ((j, u) ∷ q) t n = ground (arith, lookup_new h q t)

added-Kept :
    (m : DuplicateManager) (hash : String) (now : ℕ)
    → Matched m.proposed_hash_set m.proposed_hash_time_queue
    → (check_and_add_proposed m hash now).1 ≡ false
    → let (m', _) = check_and_add_proposed m hash now in
      (m'.window_useconds ≡ m.window_useconds)
      × Kept hash now m'.proposed_hash_set m'.proposed_hash_time_queue
unfolding check_and_add_proposed
added-Kept m hash now (d, v) new_ = elim (Bool-cases (member hash m.proposed_hash_set)) [
  | inl r ↦ absurd (ground arith)
  | inr r ↦ rw r (
    refl,
    (
      lookup_new hash m.proposed_hash_time_queue now (sym (v hash) ∙ r),
      member-add hash hash m.proposed_hash_set ∙ ground (arith, beq_self hash),
    ),
  )
]

steps-Matched :
    (m : DuplicateManager) (es : List Event)
    → Matched m.proposed_hash_set m.proposed_hash_time_queue
    → Matched (steps m es).proposed_hash_set (steps m es).proposed_hash_time_queue
unfolding steps
steps-Matched m [] v = v
steps-Matched m (e ∷ es) v = steps-Matched (step m e) es (step-Matched m e v)

new_duplicate_manager-Matched :
    (frequency : ℕ)
    → let m = new_duplicate_manager frequency in
      Matched m.proposed_hash_set m.proposed_hash_time_queue
unfolding new_duplicate_manager
new_duplicate_manager-Matched frequency = (tt, λ h. refl)

-- After any history of proposals and rounds of the thread, a hash that CheckAndAddProposed takes as
-- a new one is found proposed after whatever comes next, as long as the rounds have counted no
-- further than the window past the time at which it was taken.
pub proposed_within_window :
    (frequency : ℕ) (before after : List Event) (hash : String) (now : ℕ)
    → let m = steps (new_duplicate_manager frequency) before in
      (check_and_add_proposed m hash now).1 ≡ false
      → Until (now + m.window_useconds) after
      → check_if_proposed (steps (check_and_add_proposed m hash now).0 after) hash ≡ true
proposed_within_window frequency before after hash now new_ early =
    let m = steps (new_duplicate_manager frequency) before in
    let v =
      steps-Matched (new_duplicate_manager frequency) before
        (new_duplicate_manager-Matched frequency) in
    let (same, k) = added-Kept m hash now v new_ in
    steps-Kept (check_and_add_proposed m hash now).0 hash now after (rw same early) k
