-- ===== src/Pbft/ViewChange/Redo.antt =====
-- GetPrepareMsg of ViewChangeManager (platform/consensus/ordering/pbft/viewchange_manager.cpp): the
-- requests that a new view starts with. `none` is a read of the first proof of a prepared message
-- that has no proof.
pub mod Numbers
pub mod Faults
use mathlib.Core.Option
use Prim.Native.String.{◌++◌}
use resilientdb.Common.{
  number_keys, text_keys, if◌then◌else◌, ℕ, zero, suc, ◌+◌, ◌-◌, ◌%◌, ◌^◌, min, max, Bool, Option,
  none, some, List, [], ◌∷◌, String,
}
use resilientdb.Common.Decimal.{to_string}
use resilientdb.Common.Maps.{Map, lookup, insert}
use resilientdb.Messages.{RequestType, SignatureInfo, Request, default_request, new_request}
use resilientdb.Pbft.ViewChange.{PreparedMessage, ViewChangeMessage, NewViewMessage, current_view}

-- `msg.proof(0).request()`.
unfoldable pub first_request : PreparedMessage → Option Request
first_request p = elim p.proof [ [] ↦ none | x ∷ _ ↦ some x.request ]

-- The two nested loops that fill prepared_msg.
unfoldable pub collect_prepared : List PreparedMessage → Map ℕ Request → Option (Map ℕ Request)
unfolding first_request
collect_prepared [] m = some m
collect_prepared (p ∷ ps) m = elim (first_request p) [
  | none ↦ none
  | some r ↦ collect_prepared ps (insert p.seq r m)
]

unfoldable pub collect_all : List ViewChangeMessage → Map ℕ Request → Option (Map ℕ Request)
unfolding collect_prepared
collect_all [] m = some m
collect_all (v ∷ vs) m = elim (collect_prepared v.prepared_msg m) [
  | none ↦ none
  | some m' ↦ collect_all vs m'
]

-- The loop for min_s, from the value that it starts with.
unfoldable pub min_stable : ℕ → List ViewChangeMessage → ℕ
min_stable s [] = s
min_stable s (v ∷ vs) = min_stable (min s v.stable_ckpt.seq) vs

-- std::numeric_limits<uint64_t>::max().
abbrev pub max_uint64 : ℕ
max_uint64 = 2 ^ 64 - 1

-- The largest key of a map that is not empty.
unfoldable pub largest_key : Map ℕ Request → ℕ
largest_key [] = 0
largest_key ((k, r) ∷ m) = max k (largest_key m)

unfoldable pub max_prepared : Map ℕ Request → ℕ
unfolding largest_key
max_prepared [] = 1
max_prepared ((k, r) ∷ m) = largest_key ((k, r) ∷ m)

module _ (sign : String → Option SignatureInfo) (self : ℕ) (view : ℕ) (need_sign : Bool) where
  -- The request for a number that nobody has prepared, before it is signed.
  unfoldable pub null_request : ℕ → Request
  unfolding new_request to_string
  null_request i = record (new_request RequestType.pre_prepare default_request self) {
    seq = i;
    current_view = view;
    hash = "null" ++ to_string i;
  }

  -- Signed, if it has to be: the code signs the empty text. `none` is the `continue` where the
  -- signing fails.
  unfoldable pub sign_null : ℕ → Option Request
  unfolding null_request
  sign_null i =
      if need_sign
      then Option.map (λ s. record (null_request i) { data_signature = some s }) (sign "")
      else some (null_request i)

  -- The request that is pushed for a number.
  unfoldable pub redo_request : Map ℕ Request → ℕ → Option Request
  unfolding sign_null new_request
  redo_request prepared i = elim (lookup i prepared) [
    | none ↦ sign_null i
    | some r ↦
        some (record (new_request RequestType.commit r self) { seq = i; current_view = view })
  ]

  -- The loop, for the numbers from `i` on as many as the rounds.
  unfoldable pub redo_from : Map ℕ Request → ℕ → ℕ → List Request
  unfolding redo_request
  redo_from prepared zero i = []
  redo_from prepared (suc rounds) i = elim (redo_request prepared i) [
    | none ↦ redo_from prepared rounds (i + 1)
    | some r ↦ r ∷ redo_from prepared rounds (i + 1)
  ]

  -- The loop runs from min_s + 1, a uint64_t, to the largest number; for the largest uint64_t there
  -- the code's loop has no end.
  unfoldable pub redo_all : ℕ → Map ℕ Request → List Request
  unfolding redo_from max_prepared
  redo_all min_s prepared =
      let first = (min_s + 1) % 2 ^ 64 in
      redo_from prepared (max_prepared prepared + 1 - first) first

-- GetPrepareMsg.
unfoldable pub get_prepare_msg :
    (String → Option SignatureInfo) → ℕ → NewViewMessage → Bool → Option (List Request)
unfolding collect_all redo_all min_stable
get_prepare_msg sign self msg need_sign =
    Option.map
      (redo_all sign self msg.view_number need_sign (min_stable max_uint64 msg.viewchange_messages))
      (collect_all msg.viewchange_messages [])
