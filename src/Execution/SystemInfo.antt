-- ===== src/Execution/SystemInfo.antt =====
-- SystemInfo (platform/consensus/execution/system_info.cpp): the view, its primary, the replicas.
use resilientdb.Common.{
  number_keys, text_keys, if◌then◌else◌, ◌==◌, ℕ, String, ◌≡◌, refl, Bool, true, false, ◌||◌,
  Option, none, some, List, [], ◌∷◌, ◌++◌, arith,
}
use resilientdb.Config.{ReplicaInfo, ResDbConfig}

pub record SystemInfo : Type 0 where
  pub primary_id : ℕ
  pub view : ℕ
  pub replicas : List ReplicaInfo

-- The constructor from a config; `none` where replica 0 is read of an empty vector.
unfoldable pub new_system_info : ResDbConfig → Option SystemInfo
new_system_info config = elim config.replicas [
  | [] ↦ none
  | r ∷ rs ↦ some (record { primary_id = r.id; view = 1; replicas = config.replicas })
]

unfoldable pub set_primary : SystemInfo → ℕ → SystemInfo
set_primary s id = record s { primary_id = id }

unfoldable pub set_current_view : SystemInfo → ℕ → SystemInfo
set_current_view s view = record s { view = view }

-- The loop of AddReplica: whether a replica has the id.
unfoldable pub has_replica : ℕ → List ReplicaInfo → Bool
has_replica id [] = false
has_replica id (r ∷ rs) = if r.id == id then true else has_replica id rs

-- `ip().empty()`.
unfoldable pub is_empty : String → Bool
is_empty s = s == ""

-- AddReplica.
unfoldable pub add_replica : SystemInfo → ReplicaInfo → SystemInfo
unfolding has_replica is_empty
add_replica s r =
    if r.id == 0 || is_empty r.ip || r.port == 0 || has_replica r.id s.replicas
    then s
    else record s { replicas = s.replicas ++ r ∷ [] }

-- ProcessRequest of an ADD_REPLICA request; `none` is a request that is not parsed, or another type.
unfoldable pub process_request : SystemInfo → Option ReplicaInfo → SystemInfo
unfolding add_replica
process_request s none = s
process_request s (some r) = add_replica s r

-- No id twice.
abbrev pub DistinctIds : List ReplicaInfo → Type 0
DistinctIds [] = Unit {0}
DistinctIds (r ∷ rs) = (has_replica r.id rs ≡ false) × DistinctIds rs

has_replica-append :
    (id : ℕ) (rs : List ReplicaInfo) (r : ReplicaInfo)
    → has_replica id (rs ++ r ∷ []) ≡ (has_replica id rs || r.id == id)
unfolding has_replica
has_replica-append id [] r = ground arith
has_replica-append id (x ∷ rs) r = ground (arith, has_replica-append id rs r)

append-DistinctIds :
    (rs : List ReplicaInfo) (r : ReplicaInfo)
    → DistinctIds rs
    → has_replica r.id rs ≡ false
    → DistinctIds (rs ++ r ∷ [])
unfolding has_replica
append-DistinctIds [] r d h = (refl, tt)
append-DistinctIds (x ∷ rs) r d h =
    (ground (arith, has_replica-append x.id rs r, d.0), append-DistinctIds rs r d.1 (ground arith))

-- Whatever is asked for, no id of a replica comes to be there twice, no replica is lost, and the
-- view and its primary stay.
pub process_request-DistinctIds :
    (s : SystemInfo) (info : Option ReplicaInfo)
    → DistinctIds s.replicas
    → DistinctIds (process_request s info).replicas
      × ((id : ℕ)
          → (has_replica id s.replicas || has_replica id (process_request s info).replicas)
            ≡ has_replica id (process_request s info).replicas)
      × ((process_request s info).view ≡ s.view)
      × ((process_request s info).primary_id ≡ s.primary_id)
unfolding process_request
process_request-DistinctIds s none d = (d, λ id. ground arith, refl, refl)
process_request-DistinctIds s (some r) d = (
  ground (arith, append-DistinctIds s.replicas r d),
  λ id. ground (arith, has_replica-append id s.replicas r),
  ground arith,
  ground arith,
)
