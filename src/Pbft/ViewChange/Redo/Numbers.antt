-- ===== src/Pbft/ViewChange/Redo/Numbers.antt =====
-- The numbers and the data of the requests that GetPrepareMsg gives
-- (platform/consensus/ordering/pbft/viewchange_manager.cpp), and the loops of ProcessNewView that
-- look at them.
use resilientdb.Common.{
  number_keys, text_keys, if◌then◌else◌, length, leb, ltb, ◌==◌, ℕ, zero, suc, ◌+◌, ◌≤◌, String,
  ◌≡◌, refl, Bool, true, ◌&&◌, Option, none, some, List, [], ◌∷◌, arith, beq_self, ap, false,
}
use resilientdb.Common.Maps.{Map, lookup, member}
use resilientdb.Messages.{RequestType, new_request, SignatureInfo, Request}
use resilientdb.Pbft.ViewChange.Redo.{redo_request, sign_null, null_request, redo_from}
use resilientdb.Pbft.ViewChange.NewView.{seqs, same_data, all_there, largest}

-- The numbers from `i` on, as many as `n`.
abbrev pub numbers : ℕ → ℕ → List ℕ
numbers i zero = []
numbers i (suc n) = i ∷ numbers (i + 1) n

pub member-numbers : (j i n : ℕ) → member j (numbers i n) ≡ (leb i j && ltb j (i + n))
unfolding member
member-numbers j i zero = ground arith
member-numbers j i (suc n) = ground (arith, member-numbers j (i + 1) n)

-- The loop over the numbers up to max_s finds those that are there.
pub all_there-numbers :
    (i n j k : ℕ)
    → i ≤ j
    → all_there (numbers i n) k j ≡ (if k == 0 then true else leb (j + k) (i + n))
unfolding all_there
all_there-numbers i n j zero h = ground arith
all_there-numbers i n j (suc k) h =
    ground (arith, member-numbers j i n, all_there-numbers i n (j + 1) k)

pub largest-numbers : (i n : ℕ) → largest (numbers i (suc n)) ≡ i + n
unfolding largest
largest-numbers i zero = ground arith
largest-numbers i (suc n) = ground (arith, largest-numbers (i + 1) n)

-- The data that the request of a number has.
abbrev pub payload_at : Option Request → String
payload_at none = ""
payload_at (some r) = r.payload

abbrev pub payloads : List Request → List String
payloads [] = []
payloads (r ∷ rs) = r.payload ∷ payloads rs

abbrev pub payloads_at : Map ℕ Request → ℕ → ℕ → List String
payloads_at prepared i zero = []
payloads_at prepared i (suc n) = payload_at (lookup i prepared) ∷ payloads_at prepared (i + 1) n

pub length-seqs : (rs : List Request) → length (seqs rs) ≡ length rs
unfolding seqs
length-seqs [] = refl
length-seqs (r ∷ rs) = ap suc (length-seqs rs)

pub length-numbers : (i n : ℕ) → length (numbers i n) ≡ n
length-numbers i zero = refl
length-numbers i (suc n) = ap suc (length-numbers (i + 1) n)

pub same_data-payloads : (xs ys : List Request) → payloads xs ≡ payloads ys → same_data xs ys ≡ true
unfolding same_data
same_data-payloads [] ys h = refl
same_data-payloads (x ∷ xs) [] h = refl
same_data-payloads (x ∷ xs) (y ∷ ys) h =
    ground (arith, same_data-payloads xs ys, beq_self y.payload)

module _ (sign : String → Option SignatureInfo) (self view : ℕ) (need_sign : Bool) where
  abbrev pub Signs : Type 0
  Signs =
      (i : ℕ)
      → (r : Request) × (sign_null sign self view need_sign i ≡ some r)
        × (r.seq ≡ i)
        × (r.payload ≡ "")

module _ (sign : String → Option SignatureInfo) (self view : ℕ) (need_sign : Bool)
    (prepared : Map ℕ Request) (signs : Signs sign self view need_sign) where
  abbrev pub Redone : ℕ → Option Request → Type 0
  Redone i o =
      (r : Request) × (redo_request sign self view need_sign prepared i ≡ some r)
      × (r.seq ≡ i)
      × (r.payload ≡ payload_at o)

  redo_request-Redone : (i : ℕ) (o : Option Request) → lookup i prepared ≡ o → Redone i o
  unfolding redo_request new_request
  redo_request-Redone i none e =
      let (r, es, ei, ep) = signs i in (r, rw (e, redo_request) es, ei, ep)
  redo_request-Redone i (some r) e = (
    record (new_request RequestType.commit r self) { seq = i; current_view = view },
    rw (e, redo_request) refl,
    refl,
    refl,
  )

  -- The list has the numbers in turn, and its data is that of what is prepared.
  pub redo_from-seqs :
      (n i : ℕ)
      → (seqs (redo_from sign self view need_sign prepared n i) ≡ numbers i n)
        × (payloads (redo_from sign self view need_sign prepared n i) ≡ payloads_at prepared i n)
  unfolding redo_from seqs
  redo_from-seqs zero i = (refl, refl)
  redo_from-seqs (suc n) i =
      let (r, e, ei, ep) = redo_request-Redone i (lookup i prepared) refl in
      let (es, eps) = redo_from-seqs n (i + 1) in
      rw (e, redo_from) (ground (arith, es, ei), ground (arith, eps, ep))

-- A receiver does not sign, and a sender whose signing works signs every request.
pub unsigned-Signs :
    (sign : String → Option SignatureInfo) (self view : ℕ) → Signs sign self view false
unfolding sign_null null_request new_request
unsigned-Signs sign self view i = (null_request sign self view false i, refl, refl, refl)

pub signed-Signs :
    (sign : String → Option SignatureInfo) (self view : ℕ) (s : SignatureInfo)
    → sign "" ≡ some s
    → Signs sign self view true
unfolding sign_null null_request new_request
signed-Signs sign self view s e i =
    (record (null_request sign self view true i) { data_signature = some s }, rw e refl, refl, refl)
