-- ===== src/LevelDb/Batched.antt =====
-- ResLevelDB (chain/storage/leveldb.cpp) with a write_batch_size that lets writes wait in the batch,
-- where reads do not see them.
use resilientdb.Common.Int.{ℤ}
use resilientdb.Common.{
  ◌∙◌, inr, sym, text_keys, ap, beq_self, inl, refl, arith, ◌<◌, Option-cases, [], some, true, ◌∷◌,
  ◌≡◌, ◌++◌, Option, ◌+◌, List, ℕ, String,
}
use resilientdb.LevelDb.{
  Backend, ResLevelDb, last_put, get_value, set_value, written, flush, history, last_version,
  set_at, set_value_with_version,
}
use resilientdb.Messages.{success}
use resilientdb.Storage.{Versioned}

pub last_put-append :
    {Text : Type 0} (key : String) (b c : List (String × Text)) (found : Option Text)
    → last_put key (b ++ c) found ≡ last_put key c (last_put key b found)
unfolding last_put
last_put-append key [] c found = refl
last_put-append key ((k, v) ∷ b) c found = last_put-append key b c _

module _ (backend : Backend) where
  -- The text that a versioned write puts.
  abbrev pub text : String → ℕ → List Versioned → backend.Text
  text value version h = backend.print_history ((value, version + 1) ∷ h)

  waits :
      (s : ResLevelDb backend) (key value : String) (version : ℕ) (h : List Versioned)
      → history backend s key ≡ some h
      → last_version backend h ≡ version
      → backend.approximate_size (s.batch ++ (key, text value version h) ∷ []) < s.write_batch_size
      → set_value_with_version backend s key value version
        ≡ (record s { batch = s.batch ++ (key, text value version h) ∷ [] }, success)
  unfolding set_value_with_version set_at set_value
  waits s key value version h read newest small = ground (arith, read, newest, small)

last_put_self :
    {Text : Type 0} (key : String) (value : Text) (found : Option Text)
    → last_put key ((key, value) ∷ []) found ≡ some value
unfolding last_put
last_put_self key value found = ground (arith, beq_self key)

-- Two versioned writes of a key at one version, with what they answer.
abbrev pub write_twice :
    (backend : Backend)
    → ResLevelDb backend
    → String
    → String
    → String
    → ℕ
    → ResLevelDb backend × ℤ × ℤ
write_twice backend s key value value' version =
    let (s1, code) = set_value_with_version backend s key value version in
    let (s2, code') = set_value_with_version backend s1 key value' version in (s2, code, code')

flush_get :
    (backend : Backend) (s : ResLevelDb backend) (key : String) {s' : ResLevelDb backend}
    → flush backend s ≡ (s', true)
    → backend.get s'.db key ≡ last_put key s.batch (backend.get s.db key)
unfolding flush written
flush_get backend s key {s' = s'} f = elim (Option-cases (backend.write s.db s.batch)) [
  | inl fails ↦ absurd (ground arith)
  | inr (d, e) ↦ ground (arith, backend.get-write s.db d s.batch key e)
]

-- While the batch is below its limit, two writes of a key at one version both answer 0, and a Flush
-- that succeeds leaves the second one only, under the next version: the first one is lost.
pub batched_write-lost :
    (backend : Backend) (s : ResLevelDb backend) (key value value' : String) (version : ℕ)
    (h : List Versioned) {s' : ResLevelDb backend}
    → history backend s key ≡ some h
    → last_version backend h ≡ version
    → backend.approximate_size (s.batch ++ (key, text backend value version h) ∷ [])
      < s.write_batch_size
    → backend.approximate_size (
        (s.batch ++ (key, text backend value version h) ∷ [])
        ++ (key, text backend value' version h) ∷ [])
      < s.write_batch_size
    → flush backend (write_twice backend s key value value' version).0 ≡ (s', true)
    → ((write_twice backend s key value value' version).1 ≡ success)
      × ((write_twice backend s key value value' version).2 ≡ success)
      × (history backend s' key ≡ some ((value', version + 1) ∷ h))
unfolding history get_value
batched_write-lost backend s key value value' version h {s' = s'} read newest small small' f =
    let first = waits backend s key value version h read newest small in
    let s1 = record s { batch = s.batch ++ (key, text backend value version h) ∷ [] } in
    let second = waits backend s1 key value' version h read newest small' in
    let s2 = record s1 { batch = s1.batch ++ (key, text backend value' version h) ∷ [] } in
    let both : (write_twice backend s key value value' version) ≡ (s2, success, success) =
      ground (arith, first, second) in
    let flushed : flush backend s2 ≡ (s', true) =
      ap (λ (t : ResLevelDb backend × ℤ × ℤ). flush backend t.0) (sym both) ∙ f in
    let got = flush_get backend s2 key flushed in
    (
      ap (λ (t : ResLevelDb backend × ℤ × ℤ). t.1) both,
      ap (λ (t : ResLevelDb backend × ℤ × ℤ). t.2) both,
      ground (
        arith,
        got,
        last_put-append key s1.batch ((key, text backend value' version h) ∷ [])
            (backend.get s.db key),
        last_put_self key (text backend value' version h)
            (last_put key s1.batch (backend.get s.db key)),
        backend.parse-print ((value', version + 1) ∷ h),
      ),
    )
