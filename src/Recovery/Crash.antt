-- ===== src/Recovery/Crash.antt =====
-- A log of Recovery (platform/consensus/recovery/recovery.cpp) that is cut at any byte, and the whole
-- log, read again.
use resilientdb.Execution.SystemInfo.{SystemInfo}
use resilientdb.Recovery.Frames.{
  framed, length-framed, read_block-framed, read_block_cut, parse_raw_data-all_framed,
}
use resilientdb.Recovery.Sizes.{Bytes}
use resilientdb.Messages.{Request, SignatureInfo}
use resilientdb.Common.{
  number_keys, true, length-append, take, suc, ℕ, Option, List, ltb, if◌then◌else◌, Bool-cases,
  length, take-append, take_all, zero, ◌-◌, ◌≤◌, ◌≡◌, refl, inl, inr, some, [], ◌∷◌, ◌++◌, arith,
  sym, ap, ◌∙◌, length-take, ◌==◌, ◌+◌, ◌^◌, ◌<◌, none,
}
use resilientdb.Recovery.RoundTrip.{
  logged, block, whole, signature_of, block_small, parse_data-block, blocks, add_requests_file,
  Parses, AllParse, InfoParses,
}
use resilientdb.Recovery.Replay.{
  first_item, read_requests, read_logs, read, read_block, Logged, read_blocks, Parser,
  parse_raw_data, pass_on,
}
use resilientdb.Recovery.{
  SystemInfoData, append_data, add_requests, flush, write_system_info, Recovery, open_file, Printer,
  is_logged,
}
use mathlib.Core.List.{append_assoc, append-nil}

module _ (printer : Printer) (parser : Parser) where
  whole_zero : (es : List (Option SignatureInfo × Request)) → whole printer parser 0 es ≡ []
  whole_zero [] = refl
  whole_zero ((c, q) ∷ more) =
      ground (arith, whole_zero more, length-framed (block printer parser c q))

  -- A whole block is taken off, and a cut one ends the loop.
  step :
      (c : Option SignatureInfo) (q : Request) (fuel k : ℕ) (list : List Logged) (rest : Bytes)
      → Parses printer parser c q
      → read_blocks parser (suc fuel) list (take k (framed (block printer parser c q) ++ rest)) ≡ (
          if ltb k (length (framed (block printer parser c q)))
          then some list
          else read_blocks parser fuel
              (list ++ (signature_of c, q) ∷ [])
              (take (k - length (framed (block printer parser c q))) rest))
  unfolding read_blocks
  step c q fuel k list rest e =
      let b = block printer parser c q in
      let small = block_small printer parser c q e in
      elim (Bool-cases (ltb k (length (framed b)))) [
        | inl cut ↦ ground (arith, cut, length-framed b, read_block_cut b rest k small)
        | inr there ↦
            let kept : take k (framed b ++ rest) ≡ framed b ++ take (k - length (framed b)) rest =
              ground (arith, take-append k (framed b) rest, take_all k (framed b)) in
            ground (
              arith,
              there,
              kept,
              read_block-framed b (take (k - length (framed b)) rest) small,
              parse_data-block printer parser c q e,
            )
      ]

  no_rounds : (list : List Logged) (x : Bytes) → read_blocks parser 0 list x ≡ some list
  unfolding read_blocks
  no_rounds list x = refl

  no_bytes : (fuel : ℕ) (list : List Logged) → read_blocks parser fuel list [] ≡ some list
  unfolding read_blocks read_block read
  no_bytes zero list = refl
  no_bytes (suc fuel) list = refl

  read_blocks-take :
      (es : List (Option SignatureInfo × Request)) (fuel k : ℕ) (list : List Logged)
      → k ≤ fuel
      → AllParse printer parser es
      → read_blocks parser fuel list (take k (blocks printer parser es))
        ≡ some (list ++ whole printer parser k es)
  read_blocks-take es zero k list h a =
      let none_left : k ≡ 0 = omega arith in
      rw none_left (
        ground (
          arith,
          no_rounds list (take 0 (blocks printer parser es)),
          whole_zero es,
          append-nil list,
        ))
  read_blocks-take [] (suc fuel) k list h a =
      rw (take_all {A = ℕ} k [] (omega arith))
        (no_bytes (suc fuel) list ∙ ap some (sym (append-nil list)))
  read_blocks-take ((c, q) ∷ more) (suc fuel) k list h a = elim (Bool-cases (is_logged q.kind)) [
    | inr other ↦ ground (arith, other, read_blocks-take more (suc fuel) k list h a.1)
    | inl kept ↦
        let size = length (framed (block printer parser c q)) in
        ground (
          arith,
          kept,
          length-framed (block printer parser c q),
          step c q fuel k list (blocks printer parser more) a.0,
          read_blocks-take more fuel (k - size) (list ++ (signature_of c, q) ∷ [])
              (omega (arith, length-framed (block printer parser c q))) a.1,
          append_assoc list ((signature_of c, q) ∷ []) (whole printer parser (k - size) more),
          append-nil list,
        )
  ]

  whole_all :
      (es : List (Option SignatureInfo × Request))
      → whole printer parser (length (blocks printer parser es)) es ≡ logged es
  whole_all [] = refl
  whole_all ((c, q) ∷ more) =
      let b = framed (block printer parser c q) in
      elim (Bool-cases (is_logged q.kind)) [
        | inr other ↦ ground (arith, other, whole_all more)
        | inl kept ↦
            let later : length (b ++ blocks printer parser more) - length b
                ≡ length (blocks printer parser more) =
              omega (arith, length-append b (blocks printer parser more)) in
            ground
              (arith, kept, length-append b (blocks printer parser more), later, whole_all more)
      ]

-- The file that a replica opens, and the file after requests have come in.
abbrev pub opened : Printer → Recovery → SystemInfo → Recovery
opened printer r s = open_file printer r s []

abbrev pub log_of : Printer → Recovery → SystemInfo → List (Option SignatureInfo × Request) → Bytes
log_of printer r s es = (add_requests printer (opened printer r s) es).file

opened_file :
    (printer : Printer) (r : Recovery) (s : SystemInfo)
    → r.buffer ≡ []
    → ((opened printer r s).file
        ≡ framed
            (framed (printer.print_info (record { view = s.view; primary_id = s.primary_id }))))
      × ((opened printer r s).buffer ≡ [])
      × ((opened printer r s).recovery_enabled ≡ r.recovery_enabled)
unfolding open_file write_system_info flush append_data
opened_file printer r s empty = rw empty (
    ground (
      arith,
      length-framed (printer.print_info (record { view = s.view; primary_id = s.primary_id })),
    ))

read_logs-take :
    (printer : Printer) (parser : Parser) (ckpt index k : ℕ) (s : SystemInfo)
    (es : List (Option SignatureInfo × Request))
    → InfoParses printer parser s
    → AllParse printer parser es
    → k ≤ length (blocks printer parser es)
    → read_logs parser ckpt index (
        framed (framed (printer.print_info (record { view = s.view; primary_id = s.primary_id })))
        ++ take k (blocks printer parser es))
      ≡ some (record {
        info =
            if index == 0 then some (record { view = s.view; primary_id = s.primary_id }) else none;
        requests = pass_on ckpt (whole printer parser k es);
      })
unfolding read_logs read_requests first_item
read_logs-take printer parser ckpt index k s es ip a h =
    let i : SystemInfoData = record { view = s.view; primary_id = s.primary_id } in
    let p = printer.print_info i in
    let bytes = take k (blocks printer parser es) in
    let size : length (framed p) < 2 ^ 64 = omega (arith, length-framed p, ip.1) in
    let items : parse_raw_data (framed p) ≡ some (p ∷ []) =
      ap parse_raw_data (sym (append-nil (framed p)))
      ∙ parse_raw_data-all_framed (p ∷ []) (ground (arith, ip.1), tt) in
    let count : length bytes ≡ k = omega (arith, length-take k (blocks printer parser es)) in
    ground (
      arith,
      read_block-framed (framed p) bytes size,
      items,
      ip.0,
      read_blocks-take printer parser es (length bytes) k [] (omega arith) a,
    )

-- A log that a replica opens new and writes, whatever requests come in, and that is cut at any byte
-- after the system info: what is read back is the system info, for the first file, and the requests
-- of the logged types whose blocks are whole, those after the checkpoint, in their order and marked
-- as recovered. What the generated code prints of them is parsed again, and shorter than 2^31
-- bytes.
pub cut_log-read :
    (printer : Printer) (parser : Parser) (r : Recovery) (s : SystemInfo)
    (es : List (Option SignatureInfo × Request)) (ckpt index k : ℕ)
    → r.recovery_enabled ≡ true
    → r.buffer ≡ []
    → InfoParses printer parser s
    → AllParse printer parser es
    → k ≤ length (blocks printer parser es)
    → read_logs parser ckpt index
        (take (length (opened printer r s).file + k) (log_of printer r s es))
      ≡ some (record {
        info =
            if index == 0 then some (record { view = s.view; primary_id = s.primary_id }) else none;
        requests = pass_on ckpt (whole printer parser k es);
      })
cut_log-read printer parser r s es ckpt index k on empty ip a h =
    let (file, buffer, enabled) = opened_file printer r s empty in
    let start = (opened printer r s).file in
    let i : SystemInfoData = record { view = s.view; primary_id = s.primary_id } in
    let bytes = blocks printer parser es in
    let grown = add_requests_file printer parser (opened printer r s) es (enabled ∙ on) buffer in
    let cut : take (length start + k) (start ++ bytes) ≡ start ++ take k bytes =
      ground
        (arith, take-append (length start + k) start bytes, take_all (length start + k) start) in
    ap (λ x. read_logs parser ckpt index (take (length start + k) x)) grown
    ∙ ap (read_logs parser ckpt index) (cut ∙ ap (λ x. x ++ take k bytes) file)
    ∙ read_logs-take printer parser ckpt index k s es ip a h

-- The whole log gives back all requests of the logged types after the checkpoint, if what the
-- generated code prints of them is parsed again and shorter than 2^31 bytes.
pub log-read :
    (printer : Printer) (parser : Parser) (r : Recovery) (s : SystemInfo)
    (es : List (Option SignatureInfo × Request)) (ckpt index : ℕ)
    → r.recovery_enabled ≡ true
    → r.buffer ≡ []
    → InfoParses printer parser s
    → AllParse printer parser es
    → read_logs parser ckpt index (log_of printer r s es)
      ≡ some (record {
        info =
            if index == 0 then some (record { view = s.view; primary_id = s.primary_id }) else none;
        requests = pass_on ckpt (logged es);
      })
log-read printer parser r s es ckpt index on empty ip a =
    let (file, buffer, enabled) = opened_file printer r s empty in
    let bytes = blocks printer parser es in
    let i : SystemInfoData = record { view = s.view; primary_id = s.primary_id } in
    let grown = add_requests_file printer parser (opened printer r s) es (enabled ∙ on) buffer in
    let all : take (length bytes) bytes ≡ bytes = take_all (length bytes) bytes (omega arith) in
    ap (read_logs parser ckpt index) (
      grown
      ∙ ap (λ x. x ++ bytes) file
      ∙ ap (λ x. framed (framed (printer.print_info i)) ++ x) (sym all))
    ∙ read_logs-take printer parser ckpt index (length bytes) s es ip a (omega arith)
    ∙ ap
        (λ l.
          some (record { info = if index == 0 then some i else none; requests = pass_on ckpt l }))
        (whole_all printer parser es)
