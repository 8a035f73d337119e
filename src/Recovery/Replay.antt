-- ===== src/Recovery/Replay.antt =====
-- ParseRawData, ParseData and ReadLogsFromFiles of Recovery
-- (platform/consensus/recovery/recovery.cpp). A file is its bytes; ParseFromString is a parameter, for
-- each of the three messages. `none` is a read out of the data: of a length with fewer than 8 bytes
-- left, or of the signature of a last request. The code's positions are ints: a block is shorter
-- than 2^31 bytes.
use resilientdb.Common.{
  number_keys, if◌then◌else◌, length, take, drop, ltb, ◌==◌, ℕ, zero, suc, true, Option, none, some,
  List, [], ◌∷◌, ◌++◌,
}
use resilientdb.Messages.{SignatureInfo, Request}
use resilientdb.Recovery.{SystemInfoData}
use resilientdb.Recovery.Sizes.{Bytes, size_of}

pub record Parser : Type 0 where
  pub parse_info : Bytes → Option SystemInfoData
  pub parse_request : Bytes → Option Request
  pub parse_signature : Bytes → Option SignatureInfo

abbrev pub Logged : Type 0
Logged = SignatureInfo × Request

-- The loop of ParseRawData, and of ParseData. Every round takes 8 bytes, so as many rounds as there
-- are bytes are enough.
unfoldable pub parse_raw : ℕ → Bytes → Option (List Bytes)
parse_raw fuel [] = some []
parse_raw zero (b ∷ bs) = none
parse_raw (suc fuel) (b ∷ bs) =
    let rest = drop 8 (b ∷ bs) in
    let size = size_of (take 8 (b ∷ bs)) in
    let later = parse_raw fuel (drop size rest) in
    if ltb (length (b ∷ bs)) 8
    then none
    else (elim later [ none ↦ none | some items ↦ some (take size rest ∷ items) ])

unfoldable pub parse_raw_data : Bytes → Option (List Bytes)
unfolding parse_raw
parse_raw_data bytes = parse_raw (length bytes) bytes

-- Read of a number of bytes: what is read and what is left.
unfoldable pub read : ℕ → Bytes → Option (Bytes × Bytes)
read n file = if ltb (length file) n then none else some (take n file, drop n file)

-- A length and as many bytes.
unfoldable pub read_block : Bytes → Option (Bytes × Bytes)
unfolding read
read_block file = elim (read 8 file) [ none ↦ none | some (len, rest) ↦ read (size_of len) rest ]

module _ (parser : Parser) where
  -- The second loop of ParseData; a `break` gives what is there so far.
  unfoldable pub parse_pairs : List Bytes → Option (List Logged)
  parse_pairs [] = some []
  parse_pairs (x ∷ []) = elim (parser.parse_request x) [ none ↦ some [] | some r ↦ none ]
  parse_pairs (x ∷ y ∷ more) =
      let later = parse_pairs more in
      elim (parser.parse_request x) [
        | none ↦ some []
        | some r ↦ elim (parser.parse_signature y) [
          | none ↦ some []
          | some s ↦ elim later [ none ↦ none | some list ↦ some ((s, r) ∷ list) ]
        ]
      ]

  -- ParseData.
  unfoldable pub parse_data : Bytes → Option (List Logged)
  unfolding parse_raw_data parse_pairs
  parse_data bytes = elim (parse_raw_data bytes) [ none ↦ none | some items ↦ parse_pairs items ]

  -- The loop over the blocks, with request_list. A block without a request clears the list.
  unfoldable pub read_blocks : ℕ → List Logged → Bytes → Option (List Logged)
  unfolding read_block parse_data
  read_blocks zero list file = some list
  read_blocks (suc fuel) list file = elim (read_block file) [
    | none ↦ some list
    | some (bytes, rest) ↦ elim (parse_data bytes) [
      | none ↦ none
      | some [] ↦ some []
      | some (x ∷ xs) ↦ read_blocks fuel (list ++ x ∷ xs) rest
    ]
  ]

-- The last loop: the requests after the checkpoint are passed on, marked as recovered.
unfoldable pub pass_on : ℕ → List Logged → List Logged
pass_on ckpt [] = []
pass_on ckpt ((s, r) ∷ more) =
    let rest = pass_on ckpt more in
    if ltb ckpt r.seq then (s, record r { is_recovery = true }) ∷ rest else rest

-- What the two callbacks are given.
pub record Replayed : Type 0 where
  pub info : Option SystemInfoData
  pub requests : List Logged

abbrev pub nothing : Replayed
nothing = record { info = none; requests = [] }

-- Past the system info. Every block takes 8 bytes, so as many rounds as there are bytes are enough.
unfoldable pub read_requests : Parser → ℕ → ℕ → Bytes → Option SystemInfoData → Option Replayed
unfolding read_blocks pass_on
read_requests parser ckpt index rest none = some nothing
read_requests parser ckpt index rest (some info) = elim (read_blocks parser (length rest) [] rest) [
  | none ↦ none
  | some list ↦
      some (record { info = if index == 0 then some info else none; requests = pass_on ckpt list })
]

-- The first item of the first block.
unfoldable pub first_item : Parser → List Bytes → Option SystemInfoData
first_item parser [] = none
first_item parser (x ∷ items) = parser.parse_info x

-- ReadLogsFromFiles.
unfoldable pub read_logs : Parser → ℕ → ℕ → Bytes → Option Replayed
unfolding read_block parse_raw_data first_item read_requests
read_logs parser ckpt index file = elim (read_block file) [
  | none ↦ some nothing
  | some (bytes, rest) ↦ elim (parse_raw_data bytes) [
    | none ↦ none
    | some items ↦ read_requests parser ckpt index rest (first_item parser items)
  ]
]
