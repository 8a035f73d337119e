-- ===== src/Messages.antt =====
-- The messages of platform/proto/resdb.proto, with the fields that the modelled code reads or
-- writes, NewRequest of platform/consensus/ordering/pbft/transaction_utils.cpp, and the integers
-- that the handlers return. Machine numbers are ℕ; where the code's arithmetic on them can wrap,
-- the wrap-around is written out.
use resilientdb.Common.{ℕ, String, Bool, false, Option, none, List, [], ◌==◌, number_keys}
use resilientdb.Common.Int.{ℤ, pos, negsuc}

-- Request::Type (the field is an int32; these are its declared values).
pub data RequestType : Type 0 where
  none_type heart_beat client_request pre_prepare prepare commit client_cert response : RequestType
  recovery_data recovery_data_resp checkpoint query replica_state new_txns : RequestType
  geo_request viewchange newview custom_query custom_consensus : RequestType

-- The number of a type.
unfoldable pub type_value : RequestType → ℕ
type_value none_type = 0
type_value heart_beat = 1
type_value client_request = 2
type_value pre_prepare = 3
type_value prepare = 4
type_value commit = 5
type_value client_cert = 6
type_value response = 7
type_value recovery_data = 8
type_value recovery_data_resp = 9
type_value checkpoint = 10
type_value query = 11
type_value replica_state = 12
type_value new_txns = 14
type_value geo_request = 15
type_value viewchange = 16
type_value newview = 17
type_value custom_query = 18
type_value custom_consensus = 19

-- The comparison of two types.
unfoldable pub is_type : RequestType → RequestType → Bool
unfolding type_value
is_type a b = type_value a == type_value b

pub record SignatureInfo : Type 0 where
  pub node_id : ℕ
  pub signature : String

pub record Request : Type 0 where
  pub kind : RequestType
  pub payload : String
  pub current_view : ℕ
  pub seq : ℕ
  pub hash : String
  pub sender_id : ℕ
  pub proxy_id : ℕ
  pub ret : ℤ
  pub data_signature : Option SignatureInfo
  pub committed_certs : List SignatureInfo
  pub is_recovery : Bool
  pub primary_id : ℕ

-- Request(): every field at its default.
abbrev pub default_request : Request
default_request = record {
  kind = none_type;
  payload = "";
  current_view = 0;
  seq = 0;
  hash = "";
  sender_id = 0;
  proxy_id = 0;
  ret = pos 0;
  data_signature = none;
  committed_certs = [];
  is_recovery = false;
  primary_id = 0;
}

-- NewRequest.
unfoldable pub new_request : RequestType → Request → ℕ → Request
new_request kind request sender = record request { kind = kind; sender_id = sender }

-- The integers 0, 1, -2 and -3.
abbrev pub success : ℤ
success = pos 0

abbrev pub changed : ℤ
changed = pos 1

abbrev pub failure : ℤ
failure = negsuc 1

abbrev pub redirected : ℤ
redirected = negsuc 2
