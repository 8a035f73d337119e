-- ===== src/Storage/Writes.antt =====
-- The check of versions by MemoryDB::SetValueWithVersion (chain/storage/memory_db.cpp).
use resilientdb.Common.{
  number_keys, text_keys, if◌then◌else◌, Bool-cases, length, ◌==◌, ℕ, ◌+◌, ◌≤◌, String, ◌≡◌, refl,
  sym, ap, inl, inr, Bool, true, false, ◌&&◌, Option, some, List, [], ◌∷◌, arith, eq_iff, beq_self,
  ◌<◌, ◌∙◌,
}
use resilientdb.Common.Maps.{lookup, lookup-insert}
use resilientdb.Messages.{success, failure}
use resilientdb.Storage.{Versioned, MemoryDb, list_of, set_value_with_version, is_newest}
use resilientdb.Storage.History.{
  Versions, history, is_newest-Filled, write_all, set_value_with_version-Versions,
  write_all-Versions,
}

list_of-if :
    (b : Bool) (h : List Versioned) (o : Option (List Versioned))
    → list_of (if b then some h else o) ≡ (if b then h else list_of o)
unfolding list_of
list_of-if true h o = refl
list_of-if false h o = refl

-- A versioned write answers 0 exactly when the version is the number of entries of its key, and -2
-- otherwise; when it answers 0 it puts the value before them with the next version, and it changes
-- the entries of no other key, nor any when it answers -2.
pub set_value_with_version_lem :
    (db : MemoryDb) (key value : String) (version : ℕ)
    → Versions db
    → let (db', ret) = set_value_with_version db key value version in
      let newest = length (history db key) == version in
      (ret ≡ (if newest then success else failure))
      × ((j : String)
          → history db' j
            ≡ (if newest && key == j then (value, version + 1) ∷ history db key else history db j))
unfolding set_value_with_version history
set_value_with_version_lem db key value version f =
    let found = lookup key db.kv_map_with_v in
    let h = (value, version + 1) ∷ list_of found in
    let q = is_newest-Filled found version (f key) in
    elim (Bool-cases (length (list_of found) == version)) [
      | inl e ↦
          rw (q, e)
            (
              refl,
              λ j.
                  rw (lookup-insert key j h db.kv_map_with_v)
                    (list_of-if (key == j) h (lookup j db.kv_map_with_v)),
            )
      | inr e ↦ rw (q, e) (refl, λ j. refl)
    ]

longer :
    (b : Bool) (version : ℕ) (key j value : String) (h g : List Versioned)
    → ((key == j) ≡ true → g ≡ h)
    → length g ≤ length (if b && key == j then (value, version + 1) ∷ h else g)
longer true version key j value h g e = elim (Bool-cases (key == j)) [
  | inl q ↦ rw (q, e q) (omega arith)
  | inr q ↦ rw q (omega arith)
]
longer false version key j value h g e = omega arith

pub history_same :
    (db : MemoryDb) (key j : String) → (key == j) ≡ true → history db j ≡ history db key
history_same db key j e = ap (history db) (sym ((eq_iff key j).0 e))

pub write-longer :
    (db : MemoryDb) (key value j : String) (version : ℕ)
    → Versions db
    → length (history db j) ≤ length (history (set_value_with_version db key value version).0 j)
write-longer db key value j version f =
    rw ((set_value_with_version_lem db key value version f).1 j) (
      longer (length (history db key) == version) version key j value (history db key)
        (history db j) (history_same db key j))

pub write_all-longer :
    (db : MemoryDb) (ws : List (String × String × ℕ)) (j : String)
    → Versions db
    → length (history db j) ≤ length (history (write_all db ws) j)
unfolding write_all
write_all-longer db [] j f = omega arith
write_all-longer db ((key, value, version) ∷ ws) j f =
    let db' = (set_value_with_version db key value version).0 in
    let first = write-longer db key value j version f in
    let rest = write_all-longer db' ws j (set_value_with_version-Versions db key value version f) in
    omega (arith, first, rest)

pub refused :
    (db : MemoryDb) (key value : String) (version : ℕ)
    → Versions db
    → version < length (history db key)
    → set_value_with_version db key value version ≡ (db, failure)
unfolding set_value_with_version history
refused db key value version f older =
    let q : is_newest (lookup key db.kv_map_with_v) version ≡ false =
      is_newest-Filled (lookup key db.kv_map_with_v) version (f key) ∙ ground arith in
    rw q refl

pub made :
    (db : MemoryDb) (key value : String) (version : ℕ)
    → Versions db
    → (set_value_with_version db key value version).1 ≡ success
    → version < length (history (set_value_with_version db key value version).0 key)
made db key value version f done =
    let (ret, entries) = set_value_with_version_lem db key value version f in
    elim (Bool-cases (length (history db key) == version)) [
      | inl e ↦ rw (entries key, e, beq_self key) (ground arith)
      | inr e ↦ absurd (ground arith)
    ]

-- Of the writes that read one version of a key at most one is made: once a versioned write has
-- answered 0, a write to the same key at the same version answers -2 and changes nothing, whatever
-- other versioned writes come in between.
pub stale_write-refused :
    (db : MemoryDb) (key value value' : String) (version : ℕ) (ws : List (String × String × ℕ))
    → Versions db
    → let (db', ret) = set_value_with_version db key value version in
      ret ≡ success
      → set_value_with_version (write_all db' ws) key value' version ≡ (write_all db' ws, failure)
stale_write-refused db key value value' version ws f done =
    let db' = (set_value_with_version db key value version).0 in
    let f' = set_value_with_version-Versions db key value version f in
    refused (write_all db' ws) key value' version (write_all-Versions db' ws f')
      (omega (arith, made db key value version f done, write_all-longer db' ws key f'))
