-- ===== src/Storage/History.antt =====
-- The versions of a key in MemoryDB (chain/storage/memory_db.cpp) over a sequence of writes.
use resilientdb.Common.{
  number_keys, text_keys, if◌then◌else◌, Bool-cases, length, ◌==◌, ℕ, suc, ◌+◌, String, ◌≡◌, inl,
  inr, Bool, true, false, Option, none, some, List, [], ◌∷◌, arith, ◌<◌,
}
use resilientdb.Common.Maps.{lookup, lookup-insert}
use resilientdb.Storage.{
  Versioned, MemoryDb, new_memory_db, is_newest, list_of, set_value_with_version,
}

-- The versions of the list are its length, and so on down to 1.
abbrev pub Counted : List Versioned → Type 0
Counted [] = Unit {0}
Counted ((x, v) ∷ older) = (v ≡ suc (length older)) × Counted older

abbrev pub Filled : Option (List Versioned) → Type 0
Filled none = Unit {0}
Filled (some h) = (0 < length h) × Counted h

-- Every key that is there has a list that is counted and not empty.
abbrev pub Versions : MemoryDb → Type 0
Versions db = (key : String) → Filled (lookup key db.kv_map_with_v)

-- The entries of a key.
unfoldable pub history : MemoryDb → String → List Versioned
unfolding list_of
history db key = list_of (lookup key db.kv_map_with_v)

pub is_newest-Filled :
    (o : Option (List Versioned)) (version : ℕ)
    → Filled o
    → is_newest o version ≡ (length (list_of o) == version)
unfolding is_newest list_of
is_newest-Filled none version f = ground arith
is_newest-Filled (some []) version f = ground arith
is_newest-Filled (some (e ∷ older)) version f = ground arith

pub Counted-list_of : (o : Option (List Versioned)) → Filled o → Counted (list_of o)
unfolding list_of
Counted-list_of none f = tt
Counted-list_of (some h) f = f.1

-- A sequence of writes: a key, a value, the version that the client read.
unfoldable pub write_all : MemoryDb → List (String × String × ℕ) → MemoryDb
write_all db [] = db
write_all db ((key, value, version) ∷ ws) =
    write_all (set_value_with_version db key value version).0 ws

written-Filled :
    (o : Option (List Versioned)) (value : String) (version : ℕ)
    → is_newest o version ≡ true
    → Filled o
    → Filled (some ((value, version + 1) ∷ list_of o))
unfolding is_newest list_of
written-Filled none value version e f = ground arith
written-Filled (some []) value version e f = ground arith
written-Filled (some (x ∷ older)) value version e f = ground arith

if-Filled :
    (b : Bool) (p q : Option (List Versioned)) → Filled p → Filled q → Filled (if b then p else q)
if-Filled true p q f g = f
if-Filled false p q f g = g

pub set_value_with_version-Versions :
    (db : MemoryDb) (key value : String) (version : ℕ)
    → Versions db
    → Versions (set_value_with_version db key value version).0
unfolding set_value_with_version
set_value_with_version-Versions db key value version f j =
    let found = lookup key db.kv_map_with_v in
    elim (Bool-cases (is_newest found version)) [
      | inl e ↦
          rw (e, lookup-insert key j ((value, version + 1) ∷ list_of found) db.kv_map_with_v)
            (if-Filled (key == j) _ _ (written-Filled found value version e (f key)) (f j))
      | inr e ↦ rw e (f j)
    ]

-- In a database where the versions of every key run from its number of entries down to 1, they do
-- so after any sequence of versioned writes, refused ones included.
pub write_all-Versions :
    (db : MemoryDb) (ws : List (String × String × ℕ)) → Versions db → Versions (write_all db ws)
unfolding write_all
write_all-Versions db [] f = f
write_all-Versions db ((key, value, version) ∷ ws) f =
    write_all-Versions (set_value_with_version db key value version).0 ws
      (set_value_with_version-Versions db key value version f)

pub new_memory_db-Versions : Versions new_memory_db
unfolding new_memory_db lookup
new_memory_db-Versions key = tt
