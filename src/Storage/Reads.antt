-- ===== src/Storage/Reads.antt =====
-- What the reads of MemoryDB find (chain/storage/memory_db.cpp).
use resilientdb.Common.{
  number_keys, text_keys, inr, ltb, leb, if◌then◌else◌, Bool-cases, length, get_elem?, take, ℕ, ◌-◌,
  ◌<◌, ◌≡◌, refl, ◌&&◌, none, List, [], ◌∷◌, arith, ◌==◌, suc, ◌+◌, ◌≤◌, ◌∙◌, true, false, String,
  ap, Option, some, zero, beq_self, sym, subst, Bool, some_inj, inl,
}
use resilientdb.Common.Maps.{lookup}
use resilientdb.Messages.{success}
use resilientdb.Storage.{
  Versioned, find_version, collect_history, collect_top, MemoryDb, list_of, read_version,
  get_history, get_top_history, set_value_with_version, get_value_with_version,
}
use resilientdb.Storage.Writes.{
  set_value_with_version_lem, history_same, write-longer, write_all-longer, made,
}
use resilientdb.Storage.History.{
  Counted, Filled, Versions, history, Counted-list_of, write_all, set_value_with_version-Versions,
  write_all-Versions,
}

get_elem?-older :
    (e : Versioned) (h : List Versioned) (version : ℕ)
    → version ≤ length h
    → get_elem? (e ∷ h) (suc (length h) - version) ≡ get_elem? h (length h - version)
get_elem?-older e h version small =
    let q : suc (length h) - version ≡ suc (length h - version) = omega arith in rw q refl

find_version-Counted :
    (h : List Versioned) (version : ℕ)
    → Counted h
    → 0 < version
    → find_version h version
      ≡ (if leb version (length h) then get_elem? h (length h - version) else none)
unfolding find_version
find_version-Counted [] version c some_ = ground arith
find_version-Counted ((x, v) ∷ older) version c some_ =
    elim (Bool-cases (leb version (length older))) [
      | inl e ↦
          let q : leb version (suc (length older)) ≡ true = ground arith in
          let q1 : (v == version) ≡ false = ground arith in
          let q2 : ltb v version ≡ false = ground arith in
          let q3 = get_elem?-older (x, v) older version (ground arith) in
          rw (q, q1, q2, q3) (find_version-Counted older version c.1 some_ ∙ rw e refl)
      | inr e ↦ elim (Bool-cases (v == version)) [
        | inl r ↦
            let q : suc (length older) - version ≡ 0 = ground arith in
            let q1 : leb version (suc (length older)) ≡ true = ground arith in rw (r, q1, q) refl
        | inr r ↦
            let q1 : leb version (suc (length older)) ≡ false = ground arith in
            let q2 : ltb v version ≡ true = ground arith in rw (r, q1, q2) refl
      ]
    ]

-- The loop of GetHistory stops at the first version that is too old; in a counted list it finds
-- what a filter of all the entries finds.
abbrev pub within : ℕ → ℕ → List Versioned → List Versioned
within lo hi [] = []
within lo hi ((x, v) ∷ older) =
    let rest = within lo hi older in if leb lo v && leb v hi then (x, v) ∷ rest else rest

within_old : (lo hi : ℕ) (h : List Versioned) → Counted h → length h < lo → within lo hi h ≡ []
within_old lo hi [] c small = refl
within_old lo hi ((x, v) ∷ older) c small =
    ground (arith, within_old lo hi older c.1 (ground arith))

collect_history-within :
    (lo hi : ℕ) (h : List Versioned) → Counted h → collect_history lo hi h ≡ within lo hi h
unfolding collect_history
collect_history-within lo hi [] c = refl
collect_history-within lo hi ((x, v) ∷ older) c = elim (Bool-cases (ltb v lo)) [
  | inl e ↦ let q : length older < lo = ground arith in ground (arith, within_old lo hi older c.1 q)
  | inr e ↦ ground (arith, collect_history-within lo hi older c.1)
]

collect_top-take :
    (size top : ℕ) (h : List Versioned) → collect_top size top h ≡ take (suc (top - size - 1)) h
unfolding collect_top
collect_top-take size top [] = refl
collect_top-take size top (e ∷ older) = elim (Bool-cases (leb top (size + 1))) [
  | inl q ↦ let r : top - size - 1 ≡ 0 = ground arith in rw (q, r) refl
  | inr q ↦
      let r : top - size - 1 ≡ suc (top - (size + 1) - 1) = ground arith in
      rw (q, r) (ap (λ l. e ∷ l) (collect_top-take (size + 1) top older))
]

-- Where the versions of every key are counted, GetHistory gives the entries whose version is in
-- the range, from the newest on, though its loop stops at the first one that is too old.
pub get_history_lem :
    (db : MemoryDb) (key : String) (lo hi : ℕ)
    → Versions db
    → get_history db key lo hi ≡ within lo hi (history db key)
unfolding get_history history
get_history_lem db key lo hi f =
    collect_history-within lo hi _ (Counted-list_of (lookup key db.kv_map_with_v) (f key))

-- GetTopHistory gives the newest entries of the key, as many as asked for, and one when none is
-- asked for.
pub get_top_history_lem :
    (db : MemoryDb) (key : String) (top : ℕ)
    → get_top_history db key top ≡ take (suc (top - 1)) (history db key)
unfolding get_top_history history
get_top_history_lem db key top =
    let q : top - 0 - 1 ≡ top - 1 = omega arith in
    subst (λ n. get_top_history db key top ≡ take (suc n) (history db key)) q
      (collect_top-take 0 top (list_of (lookup key db.kv_map_with_v)))

get_elem?-in :
    (h : List Versioned) (i : ℕ) → i < length h → (e : Versioned) × (get_elem? h i ≡ some e)
get_elem?-in [] i small = absurd (omega arith)
get_elem?-in (e ∷ h) zero small = (e, refl)
get_elem?-in (e ∷ h) (suc i) small = get_elem?-in h i (omega arith)

read_version-Filled :
    (o : Option (List Versioned)) (version : ℕ)
    → Filled o
    → 0 < version
    → version ≤ length (list_of o)
    → get_elem? (list_of o) (length (list_of o) - version) ≡ some (read_version o version)
unfolding read_version list_of
read_version-Filled none version f some_ small = absurd (omega arith)
read_version-Filled (some []) version f some_ small = absurd (omega arith)
read_version-Filled (some (e ∷ older)) version f some_ small =
    let (found, at) = get_elem?-in (e ∷ older) (suc (length older) - version) (omega arith) in
    let q : leb version (suc (length older)) ≡ true = ground arith in
    let r : find_version (e ∷ older) version ≡ some found =
      find_version-Counted (e ∷ older) version f.1 some_ ∙ rw q at in
    rw (read_version, r) at

still_there :
    (b : Bool) (version w : ℕ) (key j value : String) (h g : List Versioned)
    → ((key == j) ≡ true → g ≡ h)
    → w ≤ length g
    → let l = if b && key == j then (value, version + 1) ∷ h else g in
      get_elem? l (length l - w) ≡ get_elem? g (length g - w)
still_there true version w key j value h g e small = elim (Bool-cases (key == j)) [
  | inl q ↦ rw (q, e q) (get_elem?-older (value, version + 1) h w (rw (sym (e q)) small))
  | inr q ↦ rw q refl
]
still_there false version w key j value h g e small = refl

-- The entry of a version, by its place in the list of its key.
unfoldable pub entry : MemoryDb → String → ℕ → Option Versioned
entry db key version = let h = history db key in get_elem? h (length h - version)

write-entry :
    (db : MemoryDb) (key value j : String) (version w : ℕ)
    → Versions db
    → w ≤ length (history db j)
    → entry (set_value_with_version db key value version).0 j w ≡ entry db j w
unfolding entry
write-entry db key value j version w f small =
    rw ((set_value_with_version_lem db key value version f).1 j) (
      still_there (length (history db key) == version) version w key j value (history db key)
        (history db j) (history_same db key j) small)

write_all-entry :
    (db : MemoryDb) (ws : List (String × String × ℕ)) (j : String) (w : ℕ)
    → Versions db
    → w ≤ length (history db j)
    → entry (write_all db ws) j w ≡ entry db j w
unfolding write_all
write_all-entry db [] j w f small = refl
write_all-entry db ((key, value, version) ∷ ws) j w f small =
    let db' = (set_value_with_version db key value version).0 in
    let more = write-longer db key value j version f in
    write_all-entry db' ws j w (set_value_with_version-Versions db key value version f)
      (omega (arith, more))
    ∙ write-entry db key value j version w f small

made-entry :
    (db : MemoryDb) (key value : String) (version : ℕ)
    → Versions db
    → (set_value_with_version db key value version).1 ≡ success
    → entry (set_value_with_version db key value version).0 key (version + 1)
      ≡ some (value, version + 1)
unfolding entry
made-entry db key value version f done =
    let (ret, entries) = set_value_with_version_lem db key value version f in
    elim (Bool-cases (length (history db key) == version)) [
      | inl e ↦
          let q : suc (length (history db key)) - (version + 1) ≡ 0 = ground arith in
          rw (entries key, e, beq_self key, q) refl
      | inr e ↦ absurd (ground arith)
    ]

read-entry :
    (db : MemoryDb) (key : String) (version : ℕ)
    → Versions db
    → 0 < version
    → version ≤ length (history db key)
    → entry db key version ≡ some (get_value_with_version db key version)
unfolding entry history get_value_with_version
read-entry db key version f = read_version-Filled (lookup key db.kv_map_with_v) version (f key)

-- A value that a versioned write has stored (it answered 0) is read back, under the version after
-- the one that was written at, after any sequence of later versioned writes.
pub get_value-set_value :
    (db : MemoryDb) (key value : String) (version : ℕ) (ws : List (String × String × ℕ))
    → Versions db
    → let (db', ret) = set_value_with_version db key value version in
      ret ≡ success
      → get_value_with_version (write_all db' ws) key (version + 1) ≡ (value, version + 1)
get_value-set_value db key value version ws f done =
    let db' = (set_value_with_version db key value version).0 in
    let f' = set_value_with_version-Versions db key value version f in
    let there : version + 1 ≤ length (history db' key) =
      omega (arith, made db key value version f done) in
    let more = write_all-longer db' ws key f' in
    let read =
      read-entry (write_all db' ws) key (version + 1) (write_all-Versions db' ws f') (omega arith)
        (omega (arith, there, more)) in
    some_inj (
      sym read
      ∙ write_all-entry db' ws key (version + 1) f' there
      ∙ made-entry db key value version f done)
