-- ===== src/Recovery/RoundTrip.antt =====
-- The log that Recovery writes (platform/consensus/recovery/recovery.cpp), read again.
use resilientdb.Execution.SystemInfo.{SystemInfo}
use resilientdb.Recovery.Frames.{all_framed, framed, length-framed, parse_raw_data-all_framed}
use mathlib.Core.List.{append_assoc, append-nil}
use resilientdb.Recovery.Sizes.{Bytes}
use resilientdb.Recovery.Replay.{parse_raw_data, parse_pairs, Logged, parse_data, Parser}
use resilientdb.Common.{
  Bool-cases, true, ℕ, [], length, List, Option, if◌then◌else◌, length-append, ◌^◌, ◌<◌, ◌≡◌, sym,
  ap, ◌∙◌, none, some, ◌∷◌, ◌++◌, arith, ltb, ◌-◌, inl, inr,
}
use resilientdb.Recovery.{
  Recovery, flush, write_log, add_request, add_requests, SystemInfoData, append_data, print_context,
  Printer, is_logged,
}
use resilientdb.Messages.{Request, SignatureInfo}

-- SignatureInfo().
abbrev pub no_signature : SignatureInfo
no_signature = record { node_id = 0; signature = "" }

-- The signature that is read back for a context.
abbrev pub signature_of : Option SignatureInfo → SignatureInfo
signature_of none = no_signature
signature_of (some s) = s

-- The requests of the logged types, with their signatures.
abbrev pub logged : List (Option SignatureInfo × Request) → List Logged
logged [] = []
logged ((context, q) ∷ more) =
    if is_logged q.kind then (signature_of context, q) ∷ logged more else logged more

module _ (printer : Printer) (parser : Parser) where
  -- What the generated code promises of a message with its signature: printed it is parsed again,
  -- the empty text is the default signature, and a message is shorter than 2^31 bytes.
  abbrev pub Parses : Option SignatureInfo → Request → Type 0
  Parses c q =
      (parser.parse_request (printer.print_request q) ≡ some q)
      × (parser.parse_signature (print_context printer c) ≡ some (signature_of c))
      × (length (printer.print_request q) < 2 ^ 31)
      × (length (print_context printer c) < 2 ^ 31)

  -- The same of all messages of a list, and of the system info.
  abbrev pub AllParse : List (Option SignatureInfo × Request) → Type 0
  AllParse [] = Unit {0}
  AllParse ((c, q) ∷ more) = Parses c q × AllParse more

  abbrev pub InfoParses : SystemInfo → Type 0
  InfoParses s =
      let i : SystemInfoData = record { view = s.view; primary_id = s.primary_id } in
      (parser.parse_info (printer.print_info i) ≡ some i) × (length (printer.print_info i) < 2 ^ 31)

  -- The block of a request.
  abbrev pub block : Option SignatureInfo → Request → Bytes
  block context q =
      append_data (append_data [] (printer.print_request q)) (print_context printer context)

  block-all_framed :
      (c : Option SignatureInfo) (q : Request)
      → block c q ≡ all_framed (printer.print_request q ∷ print_context printer c ∷ [])
  unfolding append_data
  block-all_framed c q =
      let p = printer.print_request q in
      let s = print_context printer c in
      append_assoc [] (framed p) (framed s) ∙ ap (λ l. framed p ++ l) (sym (append-nil (framed s)))

  pub block_small :
      (c : Option SignatureInfo) (q : Request) → Parses c q → length (block c q) < 2 ^ 64
  unfolding append_data
  block_small c q e = omega (
    arith,
    length-framed (printer.print_request q),
    length-framed (print_context printer c),
    length-append (framed (printer.print_request q)) (framed (print_context printer c)),
    e.2,
    e.3,
  )

  parse_data_items :
      (bytes : Bytes) (items : List Bytes)
      → parse_raw_data bytes ≡ some items
      → parse_data parser bytes ≡ parse_pairs parser items
  unfolding parse_data
  parse_data_items bytes items e = ground (arith, e)

  parse_pairs_law :
      (c : Option SignatureInfo) (q : Request)
      → Parses c q
      → parse_pairs parser (printer.print_request q ∷ print_context printer c ∷ [])
        ≡ some ((signature_of c, q) ∷ [])
  unfolding parse_pairs
  parse_pairs_law c q e = ground (arith, e.0, e.1)

  pub parse_data-block :
      (c : Option SignatureInfo) (q : Request)
      → Parses c q
      → parse_data parser (block c q) ≡ some ((signature_of c, q) ∷ [])
  parse_data-block c q e =
      let p = printer.print_request q in
      let s = print_context printer c in
      let items =
        parse_raw_data-all_framed (p ∷ s ∷ []) (ground (arith, e.2), (ground (arith, e.3), tt)) in
      ap (parse_data parser) (block-all_framed c q)
      ∙ parse_data_items (all_framed (p ∷ s ∷ [])) (p ∷ s ∷ []) items
      ∙ parse_pairs_law c q e

  -- The blocks of the requests.
  abbrev pub blocks : List (Option SignatureInfo × Request) → Bytes
  blocks [] = []
  blocks ((c, q) ∷ more) =
      if is_logged q.kind then framed (block c q) ++ blocks more else blocks more

  -- The requests of the whole blocks among the first `k` bytes.
  abbrev pub whole : ℕ → List (Option SignatureInfo × Request) → List Logged
  whole k [] = []
  whole k ((c, q) ∷ more) =
      let size = length (framed (block c q)) in
      let rest = whole (k - size) more in
      let skipped = whole k more in
      if is_logged q.kind then (if ltb k size then [] else (signature_of c, q) ∷ rest) else skipped

  write_log_file :
      (r : Recovery) (c : Option SignatureInfo) (q : Request)
      → r.buffer ≡ []
      → ((write_log printer r c q).file ≡ r.file ++ framed (block c q))
        × ((write_log printer r c q).buffer ≡ [])
        × ((write_log printer r c q).recovery_enabled ≡ r.recovery_enabled)
  unfolding write_log flush append_data
  write_log_file r c q empty =
      let p = printer.print_request q in
      rw empty (
        ground
          (arith, length-framed p, length-append (framed p) (framed (print_context printer c))))

  -- The file grows by the blocks, whatever the numbers are.
  pub add_requests_file :
      (r : Recovery) (es : List (Option SignatureInfo × Request))
      → r.recovery_enabled ≡ true
      → r.buffer ≡ []
      → (add_requests printer r es).file ≡ r.file ++ blocks es
  unfolding add_requests add_request
  add_requests_file r [] on empty = sym (append-nil r.file)
  add_requests_file r ((c, q) ∷ more) on empty = elim (Bool-cases (is_logged q.kind)) [
    | inr other ↦ ground (arith, add_requests_file r more on empty)
    | inl kept ↦
        let (file, buffer, enabled) = write_log_file r c q empty in
        ground (
          arith,
          add_requests_file (write_log printer r c q) more (enabled ∙ on) buffer,
          append_assoc r.file (framed (block c q)) (blocks more),
        )
  ]
