-- ===== src/Tests/Logs.antt =====
-- A log of three requests, one of which is not logged (platform/consensus/recovery/recovery.cpp).
use resilientdb.Tests.Consensus.{signed}
use resilientdb.Recovery.Crash.{opened, log_of, cut_log-read, log-read}
use resilientdb.Messages.{RequestType, default_request, Request, SignatureInfo}
use resilientdb.Recovery.RoundTrip.{no_signature, logged, whole}
use resilientdb.Common.{
  length, some, take, ◌∷◌, none, Option, [], true, ℕ, List, ◌+◌, ◌≡◌, refl, arith,
}
use resilientdb.Execution.SystemInfo.{SystemInfo}
use resilientdb.Recovery.Replay.{read_logs, Parser, pass_on}
use resilientdb.Recovery.Sizes.{size_bytes, Bytes}
use resilientdb.Recovery.{SystemInfoData, append_data, Printer, Recovery, is_logged, print_context}

-- A small printer and parser: a request is its number, a signature its node.
abbrev printer : Printer
printer = record {
  print_info = λ i. i.view ∷ i.primary_id ∷ [];
  print_request = λ q. q.seq ∷ [];
  print_signature = λ s. s.node_id ∷ [];
}

abbrev commit_request : ℕ → Request
commit_request seq = record default_request { kind = RequestType.commit; seq = seq }

abbrev parse_one : Bytes → Option Request
parse_one [] = none
parse_one (seq ∷ bytes) = some (commit_request seq)

abbrev parse_two : Bytes → Option SystemInfoData
parse_two (view ∷ id ∷ bytes) = some (record { view = view; primary_id = id })
parse_two _ = none

abbrev parse_node : Bytes → Option SignatureInfo
parse_node [] = some no_signature
parse_node (id ∷ bytes) = some (signed id)

abbrev parser : Parser
parser = record { parse_info = parse_two; parse_request = parse_one; parse_signature = parse_node }

abbrev unwritten : Recovery
unwritten = record {
  recovery_enabled = true;
  buffer = [];
  file = [];
  min_seq = none;
  max_seq = none;
}

abbrev info : SystemInfo
info = record { primary_id = 1; view = 1; replicas = [] }

abbrev entries : List (Option SignatureInfo × Request)
entries = (some (signed 2), commit_request 7) ∷ (none, commit_request 8) ∷ []

cut_log-read_example :
    read_logs parser 7 0 (
      take
        (length (opened printer unwritten info).file + 37)
        (log_of printer unwritten info entries))
    ≡ some (record {
      info = some (record { view = 1; primary_id = 1 });
      requests = pass_on 7 (whole printer parser 37 entries);
    })
unfolding is_logged append_data print_context size_bytes
cut_log-read_example =
    cut_log-read printer parser unwritten info entries 7 0 37 refl refl (refl, omega arith)
      ((refl, refl, omega arith, omega arith), ((refl, refl, omega arith, omega arith), tt))
      (omega arith)

log-read_example :
    read_logs parser 7 0 (log_of printer unwritten info entries)
    ≡ some (record {
      info = some (record { view = 1; primary_id = 1 });
      requests = pass_on 7 (logged entries);
    })
unfolding print_context
log-read_example =
    log-read printer parser unwritten info entries 7 0 refl refl (refl, omega arith)
      ((refl, refl, omega arith, omega arith), ((refl, refl, omega arith, omega arith), tt))

-- Only number 8 is after the checkpoint.
recovers_8 :
    pass_on 7 (logged entries)
    ≡ (no_signature, record (commit_request 8) { is_recovery = true }) ∷ []
unfolding pass_on is_logged
recovers_8 = refl
