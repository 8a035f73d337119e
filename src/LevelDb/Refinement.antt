-- ===== src/LevelDb/Refinement.antt =====
-- ResLevelDB and MemoryDB (chain/storage/leveldb.cpp, chain/storage/memory_db.cpp) under the same
-- versioned writes.
use resilientdb.Storage.Reads.{get_top_history_lem}
use resilientdb.Common.Int.{ℤ}
use resilientdb.Storage
use resilientdb.Storage.History.{history as memory_history}
use resilientdb.Storage.{
  read_version, new_memory_db, collect_top, MemoryDb, Versioned, list_of, is_newest,
}
use resilientdb.LevelDb.{
  read_at, values_of, get_history, get_top_history, get_value_with_version, write_each, Backend,
  ResLevelDb, last_put, get_value, written, set_value, history, last_version, set_at,
  set_value_with_version,
}
use resilientdb.Common.Maps.{lookup-insert, insert, lookup}
use resilientdb.Messages.{success}
use resilientdb.Common.{
  suc, ◌-◌, sym, subst, ◌<◌, ◌+◌, inl, inr, number_keys, refl, Bool-cases, arith, text_keys, String,
  ℕ, ◌≤◌, ◌≡◌, ◌≢◌, some, [], ◌∷◌, if◌then◌else◌, ◌==◌, Option, none, List,
}

module _ (backend : Backend) where
  -- The two hold the same history for every key; nothing waits in the batch.
  pub record Agrees (s : ResLevelDb backend) (m : MemoryDb) : Type 0 where
    pub no_batch : s.batch ≡ []
    pub same : (key : String) → history backend s key ≡ some (list_of (lookup key m.kv_map_with_v))
    pub not_empty : (key : String) → lookup key m.kv_map_with_v ≢ some []

  -- Every write of one value is made at once, and succeeds.
  abbrev pub Immediate : ℕ → Type 0
  Immediate limit =
      (key : String) (value : backend.Text)
      → (limit ≤ backend.approximate_size ((key, value) ∷ []))
        × ((d : backend.Db) → (d' : backend.Db) × (backend.write d ((key, value) ∷ []) ≡ some d'))

  write_one :
      (s : ResLevelDb backend) (key : String) (value : backend.Text)
      → s.batch ≡ []
      → Immediate s.write_batch_size
      → (d : backend.Db) × (backend.write s.db ((key, value) ∷ []) ≡ some d)
        × (set_value backend s key value ≡ (record s { db = d; batch = [] }, success))
  unfolding set_value written
  write_one s key value empty now =
      let (size, works) = now key value in
      let (d, e) = works s.db in (d, e, rw empty (ground (arith, size, e)))

  -- After a write at once the key has the new text and the others the old one.
  get_value_after :
      (s : ResLevelDb backend) (d : backend.Db) (key : String) (value : backend.Text)
      (other : String)
      → backend.write s.db ((key, value) ∷ []) ≡ some d
      → get_value backend (record s { db = d; batch = [] }) other
        ≡ (if key == other then value else get_value backend s other)
  unfolding get_value last_put
  get_value_after s d key value other e =
      ground (arith, backend.get-write s.db d ((key, value) ∷ []) other e)

  history_after :
      (s : ResLevelDb backend) (d : backend.Db) (key other : String) (h : List Versioned)
      → backend.write s.db ((key, backend.print_history h) ∷ []) ≡ some d
      → history backend (record s { db = d; batch = [] }) other
        ≡ (if key == other then some h else history backend s other)
  unfolding history
  history_after s d key other h e =
      ground
        (arith, get_value_after s d key (backend.print_history h) other e, backend.parse-print h)

  -- A write of a history that both make keeps the two together.
  put_both :
      (s : ResLevelDb backend) (m : MemoryDb) (d : backend.Db) (key : String) (e : Versioned)
      (h : List Versioned)
      → Agrees s m
      → backend.write s.db ((key, backend.print_history (e ∷ h)) ∷ []) ≡ some d
      → Agrees
          (record s { db = d; batch = [] })
          (record m { kv_map_with_v = insert key (e ∷ h) m.kv_map_with_v })
  unfolding list_of
  put_both s m d key e h a w = record {
    no_batch = refl;
    same = λ other. ground (
      arith,
      history_after s d key other (e ∷ h) w,
      lookup-insert key other (e ∷ h) m.kv_map_with_v,
      a.same other,
    );
    not_empty =
        λ other. ground (arith, lookup-insert key other (e ∷ h) m.kv_map_with_v, a.not_empty other);
  }

  -- What a versioned write has to keep, from what it answers on both sides.
  abbrev Same : ResLevelDb backend → ResLevelDb backend × ℤ → MemoryDb × ℤ → Type 0
  Same s (s', code) (m', code') =
      (code ≡ code') × (s'.write_batch_size ≡ s.write_batch_size) × Agrees s' m'

  -- The test of MemoryDB is that of ResLevelDB, where no key has an empty list.
  newest_test :
      (found : Option (List Versioned)) (version : ℕ)
      → found ≢ some []
      → is_newest found version ≡ (last_version backend (list_of found) == version)
  unfolding is_newest last_version list_of
  newest_test none version h = ground arith
  newest_test (some []) version h = absurd (h refl)
  newest_test (some ((x, v) ∷ older)) version h = refl

  set_value_with_version-Same :
      (s : ResLevelDb backend) (m : MemoryDb) (key value : String) (version : ℕ)
      → Agrees s m
      → Immediate s.write_batch_size
      → Same s
          (set_value_with_version backend s key value version)
          (Storage.set_value_with_version m key value version)
  unfolding set_value_with_version set_at Storage.set_value_with_version
  set_value_with_version-Same s m key value version a now =
      let found = lookup key m.kv_map_with_v in
      let h = list_of found in
      let test = newest_test found version (a.not_empty key) in
      elim (Bool-cases (last_version backend h == version)) [
        | inr stale ↦ rw (a.same key, test, stale) (refl, refl, a)
        | inl fresh ↦
            let (d, w, done) =
              write_one s key (backend.print_history ((value, version + 1) ∷ h)) a.no_batch now in
            rw (a.same key, test, fresh, done)
              (refl, refl, put_both s m d key (value, version + 1) h a w)
      ]

-- Versioned writes of MemoryDB, one after the other, with what they answer.
unfoldable pub memory_writes : MemoryDb → List (String × String × ℕ) → MemoryDb × List ℤ
memory_writes m [] = (m, [])
memory_writes m ((key, value, version) ∷ more) =
    let (m', code) = Storage.set_value_with_version m key value version in
    let (m'', codes) = memory_writes m' more in (m'', code ∷ codes)

write_each-Agrees :
    (backend : Backend) (ws : List (String × String × ℕ)) (s : ResLevelDb backend) (m : MemoryDb)
    → Agrees backend s m
    → Immediate backend s.write_batch_size
    → ((write_each backend s ws).1 ≡ (memory_writes m ws).1)
      × Agrees backend (write_each backend s ws).0 (memory_writes m ws).0
unfolding write_each memory_writes
write_each-Agrees backend [] s m a now = (refl, a)
write_each-Agrees backend ((key, value, version) ∷ more) s m a now =
    let (code, size, agrees) = set_value_with_version-Same backend s m key value version a now in
    let (codes, at_end) =
      write_each-Agrees backend more (set_value_with_version backend s key value version).0
        (Storage.set_value_with_version m key value version).0 agrees
        (subst (Immediate backend) (sym size) now) in
    (ground (arith, code, codes), at_end)

start :
    (backend : Backend) (s : ResLevelDb backend)
    → s.batch ≡ []
    → ((key : String) → backend.get s.db key ≡ none)
    → Agrees backend s new_memory_db
unfolding history get_value new_memory_db lookup list_of
start backend s empty fresh = record {
  no_batch = empty;
  same = λ key. ground (arith, fresh key, backend.parse_empty);
  not_empty = λ key. ground arith;
}

-- The reads of two that agree.
module _ (backend : Backend) (s : ResLevelDb backend) (m : MemoryDb) (a : Agrees backend s m) where
  get_value_with_version-same :
      (key : String) (version : ℕ)
      → 0 < version
      → get_value_with_version backend s key version ≡ Storage.get_value_with_version m key version
  unfolding get_value_with_version read_at Storage.get_value_with_version read_version list_of
  get_value_with_version-same key version h = read (lookup key m.kv_map_with_v) (a.same key)
    where
      read :
          (found : Option (List Versioned))
          → history backend s key ≡ some (list_of found)
          → read_at backend (history backend s key) version ≡ read_version found version
      read none e = ground (arith, e)
      read (some []) e = ground (arith, e)
      read (some (newest ∷ older)) e = ground (arith, e)

  get_history-same :
      (key : String) (lo hi : ℕ) → get_history backend s key lo hi ≡ Storage.get_history m key lo hi
  unfolding get_history values_of Storage.get_history
  get_history-same key lo hi = ground (arith, a.same key)

  get_top_history-same :
      (key : String) (top : ℕ)
      → 0 < top
      → get_top_history backend s key top ≡ Storage.get_top_history m key top
  unfolding get_top_history values_of memory_history
  get_top_history-same key top h =
      let e : suc (top - 1) ≡ top = omega arith in
      ground (arith, a.same key, get_top_history_lem m key top, e)

-- A ResLevelDB that has no value yet, writes every batch at once and does not fail in it, and a new
-- MemoryDB answer the same to the same versioned writes, whatever they are, and give the same
-- after them: the value of every key at every version above 0, every range of the history, and the
-- newest values, where at least one is asked for.
pub leveldb-memory_db :
    (backend : Backend) (s : ResLevelDb backend) (ws : List (String × String × ℕ))
    → s.batch ≡ []
    → ((key : String) → backend.get s.db key ≡ none)
    → Immediate backend s.write_batch_size
    → let (s', codes) = write_each backend s ws in
      let (m, codes') = memory_writes new_memory_db ws in
      (codes ≡ codes')
      × ((key : String) (version : ℕ)
          → 0 < version
          → get_value_with_version backend s' key version
            ≡ Storage.get_value_with_version m key version)
      × ((key : String) (lo hi : ℕ)
          → get_history backend s' key lo hi ≡ Storage.get_history m key lo hi)
      × ((key : String) (top : ℕ)
          → 0 < top
          → get_top_history backend s' key top ≡ Storage.get_top_history m key top)
leveldb-memory_db backend s ws empty fresh now =
    let (codes, agrees) =
      write_each-Agrees backend ws s new_memory_db (start backend s empty fresh) now in
    let s' = (write_each backend s ws).0 in
    let m = (memory_writes new_memory_db ws).0 in
    (
      codes,
      get_value_with_version-same backend s' m agrees,
      get_history-same backend s' m agrees,
      get_top_history-same backend s' m agrees,
    )
