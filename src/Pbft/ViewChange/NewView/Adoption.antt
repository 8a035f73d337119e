-- ===== src/Pbft/ViewChange/NewView/Adoption.antt =====
-- What ProcessNewView (platform/consensus/ordering/pbft/viewchange_manager.cpp) leaves, by what it
-- returns.
use resilientdb.Pbft.Collector.{get_all_stored_hash, Collector}
use resilientdb.Pbft.Pool.{get_collector, CollectorPool}
use resilientdb.Pbft.ViewChange.Keeps.{redo_requests-Keeps}
use resilientdb.Pbft.MessageManager.{set_next_seq}
use resilientdb.Common.{
  ◌+◌, ◌%◌, ◌^◌, number_keys, text_keys, ℕ, String, ◌≡◌, Option, none, some, List, arith,
  Option-cases, inl, inr, ◌+◌, ◌^◌, length, ◌≢◌, false, Bool-cases, ◌==◌, ◌-◌, refl, ◌⊎◌, Bool, ltb,
  sym, subst, [], ◌∷◌, ap, ◌∙◌,
}
use resilientdb.Messages.{SignatureInfo, Request, failure, RequestType, is_type}
use resilientdb.Pbft.ViewChange.{
  ViewChangeStatus, ViewChangeManager, change_statue, NewViewMessage, current_view, replicas_of,
  primary_of, set_view_and_primary, send,
}
use resilientdb.Pbft.ViewChange.NewView.{
  max_uint64, all_valid, min_stable, get_prepare_msg, ℤ, enter_view, adopt, redo_requests,
  max_stable, seqs, last_seq, same_data, all_there, check_redo, process_new_view, forget_stored,
  redo_one,
}

-- What ProcessNewView leaves when it has passed the checks.
pub adopt_view :
    (m : ViewChangeManager) (msg : NewViewMessage) (last id : ℕ) {m' : ViewChangeManager} {code : ℤ}
    → adopt m msg last (some id) ≡ some (m', code)
    → (m'.shared.message_manager.system_info.view ≡ msg.view_number)
      × (m'.shared.message_manager.system_info.primary_id ≡ id)
      × (m'.shared.message_manager.config ≡ m.shared.message_manager.config)
      × (m'.view_change_counter ≡ m.view_change_counter)
      × (m'.shared.message_manager.next_seq ≡ (last + 1) % 2 ^ 64)
      × (m'.status ≡ ViewChangeStatus.idle)
      × (code ≢ failure)
unfolding adopt enter_view change_statue set_next_seq set_view_and_primary
adopt_view m msg last id {m' = m'} h =
    let m1 = set_view_and_primary m msg.view_number id in
    let m2 = record m1 {
      shared = record m1.shared {
        message_manager = set_next_seq m1.shared.message_manager ((last + 1) % 2 ^ 64);
      };
    } in
    elim (Option-cases (redo_requests m2 msg.request)) [
      | inl fault ↦ ground arith
      | inr (m3, e) ↦ ground (arith, redo_requests-Keeps m2 msg.request e)
    ]

-- Every number has a collector, and none of its proposals' requests is moved away.
abbrev pub Readable : CollectorPool → Type 0
Readable p =
    (seq : ℕ)
    → (c : Collector) × (hashes : List String) × (get_collector p seq ≡ some c)
      × (get_all_stored_hash c ≡ some hashes)

redo_one-some :
    (m : ViewChangeManager) (r : Request)
    → Readable m.shared.message_manager.collector_pool
    → (m' : ViewChangeManager) × (redo_one m r ≡ some m')
      × (m'.shared.message_manager.collector_pool ≡ m.shared.message_manager.collector_pool)
unfolding redo_one forget_stored send
redo_one-some m r readable =
    let (c, hashes, at, stored) = readable r.seq in
    elim (Bool-cases (is_type r.kind RequestType.pre_prepare)) [
      | inl q ↦ rw (q, at, stored) (_, refl, refl)
      | inr q ↦ elim (Bool-cases (ltb m.shared.highest_prepared_seq r.seq)) [
        | inl k ↦ rw (q, k) (_, refl, refl)
        | inr k ↦ rw (q, k) (_, refl, refl)
      ]
    ]

redo_requests-some :
    (m : ViewChangeManager) (rs : List Request)
    → Readable m.shared.message_manager.collector_pool
    → (m' : ViewChangeManager) × (redo_requests m rs ≡ some m')
unfolding redo_requests
redo_requests-some m [] readable = (m, refl)
redo_requests-some m (r ∷ rs) readable =
    let (m1, e, same) = redo_one-some m r readable in
    let (m', e') = redo_requests-some m1 rs (subst Readable (sym same) readable) in
    (m', ground (arith, e, e'))

enter_view-some :
    (m : ViewChangeManager)
    → (m' : ViewChangeManager) × (code : ℤ) × (enter_view (some m) ≡ some (m', code))
unfolding enter_view
enter_view-some m = (_, _, refl)

-- Where nothing is read that is not there, a new view with a primary is entered.
pub adopt-some :
    (m : ViewChangeManager) (msg : NewViewMessage) (last id : ℕ)
    → Readable m.shared.message_manager.collector_pool
    → (m' : ViewChangeManager) × (code : ℤ) × (adopt m msg last (some id) ≡ some (m', code))
unfolding adopt set_view_and_primary set_next_seq
adopt-some m msg last id readable =
    let m1 = set_view_and_primary m msg.view_number id in
    let m2 = record m1 {
      shared = record m1.shared {
        message_manager = set_next_seq m1.shared.message_manager ((last + 1) % 2 ^ 64);
      };
    } in
    let (m3, e) = redo_requests-some m2 msg.request readable in
    let (m', code, e') = enter_view-some m3 in (m', code, ap enter_view e ∙ e')

-- The state after a new view that was taken.
abbrev pub Adopted :
    (String → Option SignatureInfo)
    → ViewChangeManager
    → NewViewMessage
    → ViewChangeManager
    → ℤ
    → Type 0
Adopted sign m msg m' code =
    (msg.view_number ≡ (current_view m + m.view_change_counter) % 2 ^ 64)
    × (current_view m' ≡ msg.view_number)
    × (primary_of (replicas_of m) msg.view_number
        ≡ some m'.shared.message_manager.system_info.primary_id)
    × (m'.shared.message_manager.config ≡ m.shared.message_manager.config)
    × (m'.view_change_counter ≡ m.view_change_counter)
    × (m'.status ≡ ViewChangeStatus.idle)
    × (code ≢ failure)
    × ((requests : List Request) × (get_prepare_msg sign m.shared.self_id msg false ≡ some requests)
        × (length requests ≡ length msg.request)
        × (m'.shared.message_manager.next_seq
            ≡ (last_seq (max_stable 0 msg.viewchange_messages) (seqs requests) + 1) % 2 ^ 64))

adopt_none :
    (m : ViewChangeManager) (msg : NewViewMessage) (last : ℕ) {m' : ViewChangeManager} {code : ℤ}
    → ¬ (adopt m msg last none ≡ some (m', code))
unfolding adopt
adopt_none m msg last h = cc

adopt_lem :
    (m : ViewChangeManager) (msg : NewViewMessage) (last : ℕ) (id : Option ℕ)
    {m' : ViewChangeManager} {code : ℤ}
    → adopt m msg last id ≡ some (m', code)
    → (m'.shared.message_manager.system_info.view ≡ msg.view_number)
      × (id ≡ some m'.shared.message_manager.system_info.primary_id)
      × (m'.shared.message_manager.config ≡ m.shared.message_manager.config)
      × (m'.view_change_counter ≡ m.view_change_counter)
      × (m'.shared.message_manager.next_seq ≡ (last + 1) % 2 ^ 64)
      × (m'.status ≡ ViewChangeStatus.idle)
      × (code ≢ failure)
adopt_lem m msg last none h = absurd (adopt_none m msg last h)
adopt_lem m msg last (some id) {m' = m'} {code = code} h =
    ground (arith, adopt_view m msg last id {m' = m'} {code = code})

check_redo_lem :
    (sign : String → Option SignatureInfo) (m : ViewChangeManager) (msg : NewViewMessage)
    (found : Option (List Request)) {m' : ViewChangeManager} {code : ℤ}
    → get_prepare_msg sign m.shared.self_id msg false ≡ found
    → msg.view_number ≡ (current_view m + m.view_change_counter) % 2 ^ 64
    → check_redo m msg found ≡ some (m', code)
    → ((m' ≡ m) × (code ≡ failure)) ⊎ Adopted sign m msg m' code
unfolding check_redo
check_redo_lem sign m msg none e v h = inl (ground arith)
check_redo_lem sign m msg (some requests) {m' = m'} {code = code} e v h =
    let last = last_seq (max_stable 0 msg.viewchange_messages) (seqs requests) in
    let first = (min_stable max_uint64 msg.viewchange_messages + 1) % 2 ^ 64 in
    let id = primary_of (replicas_of m) msg.view_number in
    let most = max_stable 0 msg.viewchange_messages in
    elim (Bool-cases (length requests == length msg.request)) [
      | inr longer ↦ inl (ground arith)
      | inl same ↦ elim (Bool-cases (same_data requests msg.request)) [
        | inr other ↦ inl (ground arith)
        | inl equal ↦ elim (Bool-cases (all_there (seqs requests) (most + 1 - first) first)) [
          | inr hole ↦ inl (ground arith)
          | inl full ↦
              let (a, b, c, d, f, g, k) =
                adopt_lem m msg last id {m' = m'} {code = code} (ground arith) in
              inr (v, a, b, c, d, g, k, (requests, e, ground arith, f))
        ]
      ]
    ]

-- A new view message is refused with -2 and nothing changes; or it is for the view that is expected,
-- and then the replica is in that view, with the primary of that view, not in a view change any
-- more, with as many requests in the message as it has computed itself, and the next number is the
-- one after them; the code returned is not -2 then.
pub process_new_view_lem :
    (vh : String → SignatureInfo → Bool) (vr : Request → SignatureInfo → Bool)
    (sign : String → Option SignatureInfo) (m : ViewChangeManager) (msg : NewViewMessage)
    {m' : ViewChangeManager} {code : ℤ}
    → process_new_view vh vr sign m (some msg) ≡ some (m', code)
    → ((m' ≡ m) × (code ≡ failure)) ⊎ Adopted sign m msg m' code
unfolding process_new_view
process_new_view_lem vh vr sign m msg {m' = m'} {code = code} h =
    elim (Bool-cases (msg.view_number == (current_view m + m.view_change_counter) % 2 ^ 64)) [
      | inr other ↦ inl (ground arith)
      | inl expected ↦ elim (Bool-cases (all_valid vh vr m msg.viewchange_messages)) [
        | inr invalid ↦ inl (ground arith)
        | inl valid ↦
            check_redo_lem sign m msg (get_prepare_msg sign m.shared.self_id msg false) refl
              (ground arith) (ground (arith, expected, valid))
      ]
    ]
