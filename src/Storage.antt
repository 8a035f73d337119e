-- ===== src/Storage.antt =====
-- MemoryDB (chain/storage/memory_db.{h,cpp}). A version is an int: here ℕ, as the code makes
-- versions from 1 up (it refuses to write at a negative one; reading at one gives the newest). The
-- two unordered maps are iterated in the order of the association list, which stands for the
-- order that the code leaves unspecified.
pub mod History
pub mod Reads
pub mod Writes
use Prim.Native.Nat.{Ordering}
use Prim.Native.String.{compare, ◌++◌}
use resilientdb.Common.{
  number_keys, text_keys, ltb, leb, if◌then◌else◌, ◌==◌, ℕ, ◌+◌, String, Bool, true, false, not,
  ◌&&◌, Option, none, some, List, [], ◌∷◌,
}
use resilientdb.Common.Int.{ℤ}
use resilientdb.Common.Maps.{Map, lookup, insert}
use resilientdb.Messages.{success, failure}

-- A value with its version.
abbrev pub Versioned : Type 0
Versioned = String × ℕ

-- The list of a key of kv_map_with_v_ is here from its back, the newest version, to its front.
pub record MemoryDb : Type 0 where
  pub kv_map : Map String String
  pub kv_map_with_v : Map String (List Versioned)

unfoldable pub new_memory_db : MemoryDb
new_memory_db = record { kv_map = []; kv_map_with_v = [] }

-- SetValue; it returns 0.
unfoldable pub set_value : MemoryDb → String → String → MemoryDb
set_value db key value = record db { kv_map = insert key value db.kv_map }

-- GetValue: "" for a missing key.
unfoldable pub get_value : MemoryDb → String → String
get_value db key = elim (lookup key db.kv_map) [ none ↦ "" | some v ↦ v ]

-- `a <= b` of two std::strings.
unfoldable pub le_text : String → String → Bool
le_text a b = elim (compare a b) [ Ordering.gt ↦ false | _ ↦ true ]

unfoldable pub in_range : String → String → String → Bool
unfolding le_text
in_range lo hi key = le_text lo key && le_text key hi

-- The loops of GetAllValues and GetRange, from the flag `first_iteration` on.
unfoldable pub join_values : (String → Bool) → Bool → Map String String → String
join_values p first [] = ""
join_values p first ((k, v) ∷ m) =
    if p k then (if first then v else "," ++ v) ++ join_values p false m else join_values p first m

-- GetAllValues.
unfoldable pub get_all_values : MemoryDb → String
unfolding join_values
get_all_values db = "[" ++ join_values (λ _. true) true db.kv_map ++ "]"

-- GetRange.
unfoldable pub get_range : MemoryDb → String → String → String
unfolding join_values in_range
get_range db lo hi = "[" ++ join_values (in_range lo hi) true db.kv_map ++ "]"

-- The test of SetValueWithVersion: the version is the newest one, or 0 for a missing key.
unfoldable pub is_newest : Option (List Versioned) → ℕ → Bool
is_newest none version = version == 0
is_newest (some []) version = false
is_newest (some ((x, newest) ∷ older)) version = newest == version

unfoldable pub list_of : Option (List Versioned) → List Versioned
list_of none = []
list_of (some h) = h

-- SetValueWithVersion: the database and 0, or -2.
unfoldable pub set_value_with_version : MemoryDb → String → String → ℕ → MemoryDb × ℤ
set_value_with_version db key value version =
    let found = lookup key db.kv_map_with_v in
    if not (is_newest found version) then (db, failure) else (
      record db {
        kv_map_with_v = insert key ((value, version + 1) ∷ list_of found) db.kv_map_with_v;
      },
      success,
    )

-- The loop of GetValueWithVersion: the entry of a version, searched from the newest down, until an
-- older one is met.
unfoldable pub find_version : List Versioned → ℕ → Option Versioned
find_version [] version = none
find_version ((x, v) ∷ older) version =
    if v == version then some (x, v) else if ltb v version then none else find_version older version

-- GetValueWithVersion of the list of a key: the newest entry when the version is not there.
unfoldable pub read_version : Option (List Versioned) → ℕ → Versioned
read_version none version = ("", 0)
read_version (some []) version = ("", 0)
read_version (some (newest ∷ older)) version = elim (find_version (newest ∷ older) version) [
  | none ↦ newest
  | some e ↦ e
]

-- GetValueWithVersion.
unfoldable pub get_value_with_version : MemoryDb → String → ℕ → Versioned
unfolding read_version
get_value_with_version db key version = read_version (lookup key db.kv_map_with_v) version

-- The loops of GetAllItems and GetKeyRange: the newest entry of every key that passes.
unfoldable pub newest_items : (String → Bool) → Map String (List Versioned) → Map String Versioned
newest_items p [] = []
newest_items p ((k, []) ∷ m) = newest_items p m
newest_items p ((k, e ∷ older) ∷ m) =
    let rest = newest_items p m in if p k then (k, e) ∷ rest else rest

-- GetAllItems.
unfoldable pub get_all_items : MemoryDb → Map String Versioned
unfolding newest_items
get_all_items db = newest_items (λ _. true) db.kv_map_with_v

-- GetKeyRange.
unfoldable pub get_key_range : MemoryDb → String → String → Map String Versioned
unfolding newest_items in_range
get_key_range db lo hi = newest_items (in_range lo hi) db.kv_map_with_v

-- The loop of GetHistory.
unfoldable pub collect_history : ℕ → ℕ → List Versioned → List Versioned
collect_history lo hi [] = []
collect_history lo hi ((x, v) ∷ older) =
    let rest = collect_history lo hi older in
    if ltb v lo then [] else if leb v hi then (x, v) ∷ rest else rest

-- GetHistory.
unfoldable pub get_history : MemoryDb → String → ℕ → ℕ → List Versioned
unfolding collect_history list_of
get_history db key lo hi = collect_history lo hi (list_of (lookup key db.kv_map_with_v))

-- The loop of GetTopHistory, with the number of entries that `resp` holds.
unfoldable pub collect_top : ℕ → ℕ → List Versioned → List Versioned
collect_top size top [] = []
collect_top size top (e ∷ older) =
    let rest = collect_top (size + 1) top older in if leb top (size + 1) then e ∷ [] else e ∷ rest

-- GetTopHistory; the code takes a negative number as a huge one.
unfoldable pub get_top_history : MemoryDb → String → ℕ → List Versioned
unfolding collect_top list_of
get_top_history db key top = collect_top 0 top (list_of (lookup key db.kv_map_with_v))
