-- ===== src/LevelDb.antt =====
-- ResLevelDB (chain/storage/leveldb.{h,cpp}). leveldb::DB and leveldb::WriteBatch are parameters, and
-- so are ParseFromString and SerializeToString of a ValueHistory; a history is here from its last
-- value, the newest, to its first, and a version is ℕ, as in Storage. Failing to open the database
-- stops the code and is left out.
pub mod Refinement
pub mod Batched
use resilientdb.Messages.{failure, success}
use resilientdb.Common.Int.{negsuc, ℤ}
use Prim.Native.Nat.{Ordering}
use resilientdb.Common.{
  not, false, ltb, Bool, none, take, true, number_keys, text_keys, if◌then◌else◌, ◌==◌, ℕ, ◌≡◌,
  String, Option, some, List, [], ◌∷◌, leb, ◌+◌, ◌++◌,
}
use resilientdb.Common.Maps.{Map}
use resilientdb.Storage.{collect_history, find_version, in_range, Versioned}

-- A WriteBatch of byte strings: its puts, oldest first.
abbrev pub Batch : Type 0 → Type 0
Batch Text = List (String × Text)

-- The value that a batch leaves for a key: that of its last put.
unfoldable pub last_put : {Text : Type 0} → String → Batch Text → Option Text → Option Text
last_put key [] found = found
last_put key ((k, v) ∷ more) found = last_put key more (if k == key then some v else found)

-- What the code relies on: Get after a Write that succeeds, the order of an iterator, the size of a
-- batch, and the generated code of a ValueHistory. Text is the byte strings stored as values.
pub record Backend : Type 1 where
  pub Text : Type 0
  pub empty_text : Text
  pub Db : Type 0
  pub get : Db → String → Option Text
  pub write : Db → Batch Text → Option Db
  pub items : Db → Map String Text
  pub approximate_size : Batch Text → ℕ
  pub parse_history : Text → Option (List Versioned)
  pub print_history : List Versioned → Text
  pub get-write :
      (d d' : Db) (b : Batch Text) (key : String)
      → write d b ≡ some d'
      → get d' key ≡ last_put key b (get d key)
  pub parse-print : (h : List Versioned) → parse_history (print_history h) ≡ some h
  pub parse_empty : parse_history empty_text ≡ some []

module _ (backend : Backend) where
  pub record ResLevelDb : Type 0 where
    pub db : backend.Db
    pub batch : Batch backend.Text
    pub write_batch_size : ℕ

  -- What GetValue makes of the text, ParseFromString included.
  unfoldable pub get_value : ResLevelDb → String → backend.Text
  get_value s key = elim (backend.get s.db key) [ none ↦ backend.empty_text | some v ↦ v ]

  -- A Write of the batch; `none` is a status that is not ok.
  unfoldable pub written : ResLevelDb → Option backend.Db → Option ResLevelDb
  written s none = none
  written s (some d) = some (record s { db = d; batch = [] })

  -- SetValue.
  unfoldable pub set_value : ResLevelDb → String → backend.Text → ResLevelDb × ℤ
  unfolding written
  set_value s key value =
      let s' = record s { batch = s.batch ++ (key, value) ∷ [] } in
      if leb s.write_batch_size (backend.approximate_size s'.batch)
      then (elim (written s' (backend.write s'.db s'.batch)) [
        | none ↦ (s', negsuc 0)
        | some s'' ↦ (s'', success)
      ])
      else (s', success)

  -- Flush.
  unfoldable pub flush : ResLevelDb → ResLevelDb × Bool
  unfolding written
  flush s = elim (written s (backend.write s.db s.batch)) [
    | none ↦ (s, false)
    | some s' ↦ (s', true)
  ]

  -- The history of a key; `none` is a text that is not parsed.
  unfoldable pub history : ResLevelDb → String → Option (List Versioned)
  unfolding get_value
  history s key = backend.parse_history (get_value s key)

  -- The version of the newest value, or 0.
  unfoldable pub last_version : List Versioned → ℕ
  last_version [] = 0
  last_version ((value, version) ∷ older) = version

  -- SetValueWithVersion, with the history of the key.
  unfoldable pub set_at :
      ResLevelDb → String → String → ℕ → Option (List Versioned) → ResLevelDb × ℤ
  unfolding set_value last_version
  set_at s key value version none = (s, failure)
  set_at s key value version (some h) =
      if not (last_version h == version)
      then (s, failure)
      else set_value s key (backend.print_history ((value, version + 1) ∷ h))

  unfoldable pub set_value_with_version : ResLevelDb → String → String → ℕ → ResLevelDb × ℤ
  unfolding set_at history
  set_value_with_version s key value version = set_at s key value version (history s key)

  -- GetValueWithVersion of a history: the loop runs for a version above 0 only.
  unfoldable pub read_at : Option (List Versioned) → ℕ → Versioned
  unfolding find_version
  read_at none version = ("", 0)
  read_at (some []) version = ("", 0)
  read_at (some (newest ∷ older)) version =
      if ltb 0 version
      then (elim (find_version (newest ∷ older) version) [ none ↦ newest | some e ↦ e ])
      else newest

  unfoldable pub get_value_with_version : ResLevelDb → String → ℕ → Versioned
  unfolding read_at history
  get_value_with_version s key version = read_at (history s key) version

  -- The values of a history, none of one that is not parsed.
  unfoldable pub values_of : Option (List Versioned) → List Versioned
  values_of none = []
  values_of (some h) = h

  -- GetHistory: its loop is that of MemoryDB.
  unfoldable pub get_history : ResLevelDb → String → ℕ → ℕ → List Versioned
  unfolding values_of history collect_history
  get_history s key lo hi = collect_history lo hi (values_of (history s key))

  -- GetTopHistory; the code takes a negative number as a huge one.
  unfoldable pub get_top_history : ResLevelDb → String → ℕ → List Versioned
  unfolding values_of history
  get_top_history s key top = take top (values_of (history s key))

  -- The loops of GetAllItems and GetKeyRange over an iterator: keys whose text is no history, or an
  -- empty one, are passed over.
  unfoldable pub newest_of : Option (List Versioned) → Option Versioned
  newest_of none = none
  newest_of (some []) = none
  newest_of (some (newest ∷ older)) = some newest

  unfoldable pub newest_items : (String → Bool) → Map String backend.Text → Map String Versioned
  unfolding newest_of
  newest_items p [] = []
  newest_items p ((k, text) ∷ more) =
      let rest = newest_items p more in
      if p k
      then (elim (newest_of (backend.parse_history text)) [ none ↦ rest | some e ↦ (k, e) ∷ rest ])
      else rest

  unfoldable pub get_all_items : ResLevelDb → Map String Versioned
  unfolding newest_items
  get_all_items s = newest_items (λ k. true) (backend.items s.db)

  -- GetKeyRange: the iterator's keys are in order, so that Seek and the test of the loop take those
  -- of the range.
  unfoldable pub get_key_range : ResLevelDb → String → String → Map String Versioned
  unfolding newest_items in_range
  get_key_range s lo hi = newest_items (in_range lo hi) (backend.items s.db)

  -- Versioned writes, one after the other, with what they answer.
  unfoldable pub write_each : ResLevelDb → List (String × String × ℕ) → ResLevelDb × List ℤ
  write_each s [] = (s, [])
  write_each s ((key, value, version) ∷ more) =
      let (s', code) = set_value_with_version s key value version in
      let (s'', codes) = write_each s' more in (s'', code ∷ codes)
