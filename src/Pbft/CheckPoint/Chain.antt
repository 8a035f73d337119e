-- ===== src/Pbft/CheckPoint/Chain.antt =====
-- What a checkpoint says (platform/consensus/ordering/pbft/checkpoint_manager.cpp).
use mathlib.Core.List.{append-nil, append_assoc}
use resilientdb.Common.{
  number_keys, text_keys, inl, inr, zero, suc, if◌then◌else◌, Bool-cases, length, length-append,
  take, push, ◌==◌, ℕ, ◌+◌, ◌≤◌, String, ◌≡◌, refl, sym, ap, ◌∙◌, Option, none, some, List, [], ◌∷◌,
  ◌++◌, arith, subst, Bool, true, false,
}
use resilientdb.Messages.{SignatureInfo, Request}
use resilientdb.Pbft.CheckPoint.{
  CheckPointData, CheckPointManager, get_hash, broadcast_check_point, mark_check_point,
  take_requests, new_check_point_manager, take_request,
}

-- The requests that are passed on: those with the numbers n, n + 1 and so on, in turn.
abbrev pub in_row : ℕ → List Request → List Request
in_row n [] = []
in_row n (r ∷ rs) =
    let taken = in_row (n + 1) rs in
    let skipped = in_row n rs in if r.seq == n then r ∷ taken else skipped

-- The hash of a chain of requests.
unfoldable pub chain_hash : (String → String) → String → List Request → String
chain_hash h last [] = last
chain_hash h last (r ∷ rs) = chain_hash h (get_hash h last r.hash) rs

-- Every checkpoint carries the hash of the chain of exactly the requests up to its number.
abbrev pub Certified : (String → String) → List Request → List CheckPointData → Type 0
Certified h row [] = Unit {0}
Certified h row (d ∷ ds) =
    ((d.seq ≤ length row) × (d.hash ≡ chain_hash h "" (take d.seq row))) × Certified h row ds

chain_hash-append :
    (h : String → String) (last : String) (rs : List Request) (r : Request)
    → chain_hash h last (rs ++ r ∷ []) ≡ get_hash h (chain_hash h last rs) r.hash
unfolding chain_hash
chain_hash-append h last [] r = refl
chain_hash-append h last (x ∷ rs) r = chain_hash-append h (get_hash h last x.hash) rs r

take-append :
    (n : ℕ) (rs : List Request) (r : Request) → n ≤ length rs → take n (rs ++ r ∷ []) ≡ take n rs
take-append zero rs r small = refl
take-append (suc n) [] r small = absurd (omega arith)
take-append (suc n) (x ∷ rs) r small = ap (λ l. x ∷ l) (take-append n rs r (omega arith))

take_all : (rs : List Request) → take (length rs) rs ≡ rs
take_all [] = refl
take_all (x ∷ rs) = ap (λ l. x ∷ l) (take_all rs)

Certified-append :
    (h : String → String) (row : List Request) (r : Request) (ds : List CheckPointData)
    → Certified h row ds
    → Certified h (row ++ r ∷ []) ds
Certified-append h row r [] c = tt
Certified-append h row r (d ∷ ds) ((small, e), c) = (
  (
    omega (arith, small, length-append row (r ∷ [])),
    e ∙ ap (chain_hash h "") (sym (take-append d.seq row r small)),
  ),
  Certified-append h row r ds c,
)

Certified-push :
    (h : String → String) (row : List Request) (d : CheckPointData) (ds : List CheckPointData)
    → Certified h row ds
    → d.seq ≡ length row
    → d.hash ≡ chain_hash h "" row
    → Certified h row (push ds d)
Certified-push h row d [] c n e =
    ((omega (arith, n), e ∙ ap (chain_hash h "") (sym (ap (λ k. take k row) n ∙ take_all row))), tt)
Certified-push h row d (x ∷ ds) (first, c) n e = (first, Certified-push h row d ds c n e)

-- The manager after the requests of a row.
record Chained (h : String → String) (row : List Request) (m : CheckPointManager) : Type 0 where
  count : m.last_seq ≡ length row
  hashed : m.last_hash ≡ chain_hash h "" row
  certified : Certified h row m.sent

module _ (h : String → String) (sign : String → Option SignatureInfo) where
  broadcast_check_point-Chained :
      (row : List Request) (m : CheckPointManager) (s : Option SignatureInfo)
      → Chained h row m
      → (seq : ℕ) → seq ≡ length row
      → Chained h row (broadcast_check_point m seq m.last_hash s)
  unfolding broadcast_check_point
  broadcast_check_point-Chained row m none c seq n = c
  broadcast_check_point-Chained row m (some s) c seq n = record {
    count = c.count;
    hashed = c.hashed;
    certified = Certified-push h row _ m.sent c.certified n c.hashed;
  }

  mark_check_point-Chained :
      (row : List Request) (m : CheckPointManager) (r : Request)
      → Chained h row m
      → r.seq ≡ length row
      → Chained h row (mark_check_point h sign m r)
  unfolding mark_check_point
  mark_check_point-Chained row m r c n =
      let m' = record m { last_ckpt_seq = r.seq } in
      let c' : Chained h row m' = record {
        count = c.count;
        hashed = c.hashed;
        certified = c.certified;
      } in
      elim (Bool-cases (r.seq == m.last_ckpt_seq + m.water_mark)) [
        | inr e ↦ rw e c
        | inl e ↦ elim (Bool-cases r.is_recovery) [
          | inl q ↦ rw (e, q) c'
          | inr q ↦ rw (e, q) (broadcast_check_point-Chained row m' (sign m'.last_hash) c' r.seq n)
        ]
      ]

  take_request_skip :
      (m : CheckPointManager) (r : Request)
      → (r.seq == m.last_seq + 1) ≡ false
      → take_request h sign m r ≡ m
  unfolding take_request
  take_request_skip m r q = rw q refl

  take_request-Chained :
      (row : List Request) (m : CheckPointManager) (r : Request)
      → Chained h row m
      → (r.seq == m.last_seq + 1) ≡ true
      → Chained h (row ++ r ∷ []) (take_request h sign m r)
  unfolding take_request
  take_request-Chained row m r c q =
      let next : r.seq ≡ m.last_seq + 1 = ground arith in
      rw q (
        mark_check_point-Chained (row ++ r ∷ []) _ r
          (record {
            count = omega (arith, c.count, length-append row (r ∷ []));
            hashed = ap (λ l. get_hash h l r.hash) c.hashed ∙ sym (chain_hash-append h "" row r);
            certified = Certified-append h row r m.sent c.certified;
          })
          (omega (arith, next, c.count, length-append row (r ∷ []))))

  take_requests-Chained :
      (row rs : List Request) (m : CheckPointManager)
      → Chained h row m
      → Chained h (row ++ in_row (m.last_seq + 1) rs) (take_requests h sign m rs)
  unfolding take_requests
  take_requests-Chained row [] m c = rw append-nil c
  take_requests-Chained row (r ∷ rs) m c = elim (Bool-cases (r.seq == m.last_seq + 1)) [
    | inr q ↦ rw (q, take_request_skip m r q) (take_requests-Chained row rs m c)
    | inl q ↦
        let c' = take_request-Chained row m r c q in
        let more = take_requests-Chained (row ++ r ∷ []) rs (take_request h sign m r) c' in
        let next : (take_request h sign m r).last_seq ≡ m.last_seq + 1 =
          c'.count ∙ omega (arith, c.count, length-append row (r ∷ [])) in
        let whole : (row ++ r ∷ []) ++ in_row (m.last_seq + 1 + 1) rs
            ≡ row ++ r ∷ in_row (m.last_seq + 1 + 1) rs =
          append_assoc row (r ∷ []) (in_row (m.last_seq + 1 + 1) rs) in
        rw q (
          subst (λ l. Chained h l (take_requests h sign (take_request h sign m r) rs)) whole
            (subst
              (λ n.
                Chained h ((row ++ r ∷ []) ++ in_row (n + 1) rs)
                  (take_requests h sign (take_request h sign m r) rs))
              next more))
  ]

  -- Whatever requests are passed on by the executor, the last hash of the chain is that of the
  -- requests 1, 2 and so on in turn, and every checkpoint that is broadcast carries the hash of
  -- exactly the requests up to its number, all of which have come in.
  pub take_requests-Certified :
      (enabled : Bool) (water_mark : ℕ) (rs : List Request)
      → let m = take_requests h sign (new_check_point_manager enabled water_mark) rs in
        (m.last_seq ≡ length (in_row 1 rs))
        × (m.last_hash ≡ chain_hash h "" (in_row 1 rs))
        × Certified h (in_row 1 rs) m.sent
  unfolding new_check_point_manager chain_hash
  take_requests-Certified enabled water_mark rs =
      let c =
        take_requests-Chained [] rs (new_check_point_manager enabled water_mark)
          (record { count = refl; hashed = refl; certified = tt }) in
      (c.count, c.hashed, c.certified)
