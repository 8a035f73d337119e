-- ===== src/Recovery.antt =====
-- Recovery (platform/consensus/recovery/recovery.cpp): the log that a replica writes. A file is the
-- list of its bytes; the system calls of write, fsync and rename succeed. SerializeToString is a
-- parameter, for each of the three messages. The numbers of requests are below 2^63, so that an
-- int64_t of them is the number, and a view and the id of a primary are below 2^31, so that an int of
-- them is. `none` is the -1 of min_seq_ and max_seq_. Recovery/Sizes has the lengths, Recovery/Replay
-- the reading.
pub mod Sizes
pub mod Replay
pub mod Frames
pub mod RoundTrip
pub mod Crash
use resilientdb.Common.{
  number_keys, if◌then◌else◌, length, ◌==◌, ℕ, min, max, Bool, true, false, not, Option, none, some,
  List, [], ◌∷◌, ◌++◌,
}
use resilientdb.Messages.{RequestType, SignatureInfo, Request}
use resilientdb.Execution.SystemInfo.{SystemInfo}
use resilientdb.Recovery.Sizes.{Bytes, size_bytes}

-- SystemInfoData.
pub record SystemInfoData : Type 0 where
  pub view : ℕ
  pub primary_id : ℕ

-- SerializeToString of the three messages that are logged.
pub record Printer : Type 0 where
  pub print_info : SystemInfoData → Bytes
  pub print_request : Request → Bytes
  pub print_signature : SignatureInfo → Bytes

pub record Recovery : Type 0 where
  pub recovery_enabled : Bool
  pub buffer : Bytes
  pub file : Bytes
  pub min_seq : Option ℕ
  pub max_seq : Option ℕ

-- AppendData.
unfoldable pub append_data : Bytes → Bytes → Bytes
append_data buffer item = buffer ++ (size_bytes (length item) ++ item)

-- Flush.
unfoldable pub flush : Recovery → Recovery
flush r =
    if length r.buffer == 0
    then r
    else record r { file = r.file ++ (size_bytes (length r.buffer) ++ r.buffer); buffer = [] }

-- std::min of min_seq_ and a number, or the number where there is none yet; and std::max.
unfoldable pub min_with : Option ℕ → ℕ → Option ℕ
min_with none seq = some seq
min_with (some old) seq = some (min old seq)

unfoldable pub max_with : Option ℕ → ℕ → Option ℕ
max_with none seq = some seq
max_with (some old) seq = some (max old seq)

-- The types that AddRequest logs.
unfoldable pub is_logged : RequestType → Bool
is_logged RequestType.pre_prepare = true
is_logged RequestType.prepare = true
is_logged RequestType.commit = true
is_logged RequestType.checkpoint = true
is_logged RequestType.newview = true
is_logged _ = false

module _ (printer : Printer) where
  -- WriteSystemInfo.
  unfoldable pub write_system_info : Recovery → SystemInfo → Recovery
  unfolding append_data flush
  write_system_info r s = flush (record r {
    buffer =
        append_data r.buffer
          (printer.print_info (record { view = s.view; primary_id = s.primary_id }));
  })

  -- OpenFile of a file with the given bytes.
  unfoldable pub open_file : Recovery → SystemInfo → Bytes → Recovery
  unfolding write_system_info
  open_file r s bytes =
      let opened = record r { file = bytes } in
      if length bytes == 0 then write_system_info opened s else opened

  -- The text of the signature in a context, which may be null.
  unfoldable pub print_context : Option SignatureInfo → Bytes
  print_context none = []
  print_context (some s) = printer.print_signature s

  -- WriteLog.
  unfoldable pub write_log : Recovery → Option SignatureInfo → Request → Recovery
  unfolding append_data flush min_with max_with print_context
  write_log r context request = flush (record r {
    min_seq = min_with r.min_seq request.seq;
    max_seq = max_with r.max_seq request.seq;
    buffer =
        append_data (append_data r.buffer (printer.print_request request)) (print_context context);
  })

  -- AddRequest.
  unfoldable pub add_request : Recovery → Option SignatureInfo → Request → Recovery
  unfolding write_log is_logged
  add_request r context request =
      if not r.recovery_enabled
      then r
      else if is_logged request.kind
      then write_log r context request
      else r

  -- The requests that come in, one after the other.
  unfoldable pub add_requests : Recovery → List (Option SignatureInfo × Request) → Recovery
  unfolding add_request
  add_requests r [] = r
  add_requests r ((context, request) ∷ more) = add_requests (add_request r context request) more
