-- ===== src/Pbft/Commitment/Numbering.antt =====
-- The proposals among the messages that were sent
-- (platform/consensus/ordering/pbft/commitment.cpp).
use resilientdb.Common.Maps.{member, Distinct}
use resilientdb.Common.{
  number_keys, text_keys, length, ◌==◌, ℕ, ◌+◌, String, ◌≡◌, ap, ◌∙◌, false, ◌||◌, List, [], ◌∷◌,
  ◌++◌, arith, eq_iff, refl,
}
use resilientdb.Messages.{Request}
use resilientdb.Pbft.Commitment.{broad_cast, send_message, Outgoing}

-- The requests that were broadcast, oldest first.
abbrev pub proposals : List Outgoing → List Request
proposals [] = []
proposals (broad_cast r ∷ ms) = r ∷ proposals ms
proposals (send_message r id ∷ ms) = proposals ms

-- The requests have the numbers n, n + 1 and so on.
abbrev pub Numbered : ℕ → List Request → Type 0
Numbered n [] = Unit {0}
Numbered n (r ∷ rs) = (r.seq ≡ n) × Numbered (n + 1) rs

abbrev pub hashes : List Request → List String
hashes [] = []
hashes (r ∷ rs) = r.hash ∷ hashes rs

pub append_nil {ℓ} : {A : Type ℓ} (xs : List A) → xs ++ [] ≡ xs
append_nil [] = refl
append_nil (x ∷ xs) = ap (λ l. x ∷ l) (append_nil xs)

pub proposals-append :
    (ms : List Outgoing) (m : Outgoing)
    → proposals (ms ++ m ∷ []) ≡ proposals ms ++ proposals (m ∷ [])
proposals-append [] m = refl
proposals-append (broad_cast r ∷ ms) m = ap (λ l. r ∷ l) (proposals-append ms m)
proposals-append (send_message r id ∷ ms) m = proposals-append ms m

pub Numbered-append :
    (n : ℕ) (rs : List Request) (r : Request)
    → Numbered n rs
    → r.seq ≡ n + length rs
    → Numbered n (rs ++ r ∷ [])
Numbered-append n [] r v e = (omega (arith, e), tt)
Numbered-append n (x ∷ rs) r (first, v) e =
    (first, Numbered-append (n + 1) rs r v (omega (arith, e)))

pub member-hashes :
    (h : String) (rs : List Request) (r : Request)
    → member h (hashes (rs ++ r ∷ [])) ≡ (member h (hashes rs) || r.hash == h)
unfolding member
member-hashes h [] r = ground arith
member-hashes h (x ∷ rs) r = ground (arith, member-hashes h rs r)

pub Distinct-append :
    (rs : List Request) (r : Request)
    → Distinct (hashes rs)
    → member r.hash (hashes rs) ≡ false
    → Distinct (hashes (rs ++ r ∷ []))
unfolding member
Distinct-append [] r d n = ground arith
Distinct-append (x ∷ rs) r d n = (
  member-hashes x.hash rs r ∙ ground (arith, eq_iff x.hash r.hash, eq_iff r.hash x.hash),
  Distinct-append rs r d.1 (ground arith),
)
