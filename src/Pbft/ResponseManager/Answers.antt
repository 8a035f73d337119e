-- ===== src/Pbft/ResponseManager/Answers.antt =====
-- What SendResponseToClient sends to the clients of a batch
-- (platform/consensus/ordering/pbft/response_manager.cpp).
use resilientdb.Common.Int.{pos, ◌-ℤ◌}
use resilientdb.Config.{performance_running}
use resilientdb.Pbft.Pool.{get_collector}
use resilientdb.Execution.Executor.Rounds.{BatchResponse}
use resilientdb.Pbft.ResponseManager.{
  answer_clients, answers, fetch_contexts, remove_waiting_response_request, send_response_to_client,
  ResponseManager, take_response,
}
use mathlib.Core.Option
use resilientdb.Messages.{SignatureInfo, Request}
use resilientdb.Common.{
  ◌++◌, ◌∷◌, ◌≤◌, List, ℕ, String, ◌≡◌, refl, false, Option, some, arith, ap, number_keys, length,
  [],
}
use resilientdb.Pbft.Collector.{Context, fetch_context_list, Collector, Outcome}

-- Contexts whose channels are the numbers.
abbrev pub connected : List (ℕ × SignatureInfo) → List Context
connected [] = []
connected ((client, signature) ∷ ks) =
    record { client = some client; signature = signature } ∷ connected ks

-- Every channel with the response in its place.
abbrev pub addressed : List (ℕ × SignatureInfo) → List String → List (ℕ × String)
addressed [] xs = []
addressed (k ∷ ks) [] = []
addressed ((client, _) ∷ ks) (x ∷ xs) = (client, x) ∷ addressed ks xs

answers-connected :
    (ks : List (ℕ × SignatureInfo)) (xs : List String)
    → length ks ≤ length xs
    → answers (connected ks) xs ≡ some (addressed ks xs)
unfolding answers
answers-connected [] xs h = refl
answers-connected (k ∷ ks) [] h = absurd (omega arith)
answers-connected ((client, _) ∷ ks) (x ∷ xs) h =
    ap (Option.map (λ more. (client, x) ∷ more)) (answers-connected ks xs (omega arith))

fetch_contexts_lem :
    (m : ResponseManager) (id : ℕ) (kept : Collector) (contexts : List Context)
    → get_collector m.context_pool id ≡ some kept
    → kept.seq ≡ id
    → kept.context_list ≡ contexts
    → ((fetch_contexts m id).1 ≡ contexts) × ((fetch_contexts m id).0.to_clients ≡ m.to_clients)
unfolding fetch_contexts fetch_context_list
fetch_contexts_lem m id kept contexts at own same = ground (arith, at, own, same)

answer_clients_lem :
    (t : ResponseManager × List Context) (batch : BatchResponse) (ks : List (ℕ × SignatureInfo))
    → t.1 ≡ connected ks
    → length ks ≤ length batch.responses
    → answer_clients t batch
      ≡ some (record t.0 { to_clients = t.0.to_clients ++ addressed ks batch.responses })
unfolding answer_clients
answer_clients_lem (m, contexts) batch ks e enough =
    ground (arith, e, answers-connected ks batch.responses enough)

pub send_response_to_client-some :
    (m : ResponseManager) (batch : BatchResponse) (kept : Collector) (ks : List (ℕ × SignatureInfo))
    → performance_running m.config ≡ false
    → get_collector m.context_pool batch.local_id ≡ some kept
    → kept.seq ≡ batch.local_id
    → kept.context_list ≡ connected ks
    → length ks ≤ length batch.responses
    → (m' : ResponseManager) × (send_response_to_client m batch ≡ some m')
      × (m'.to_clients ≡ m.to_clients ++ addressed ks batch.responses)
unfolding send_response_to_client
send_response_to_client-some m batch kept ks quiet at own contexts enough =
    let m1 = record m { send_num = m.send_num -ℤ pos 1 } in
    let t = fetch_contexts m1 batch.local_id in
    let (fetched, same) =
      fetch_contexts_lem m1 batch.local_id kept (connected ks) at own contexts in
    (
      record t.0 { to_clients = t.0.to_clients ++ addressed ks batch.responses },
      rw quiet (answer_clients_lem t batch ks fetched enough),
      ap (λ sent. sent ++ addressed ks batch.responses) same,
    )

-- AddResponseMsg leaves what the answers to the clients go by.
pub take_response-keeps :
    (m : ResponseManager) (hash : String) (seq : ℕ) (o : Outcome (Option Request))
    → let m' = (take_response m hash seq o).0 in
      (m'.config ≡ m.config) × (m'.context_pool ≡ m.context_pool) × (m'.to_clients ≡ m.to_clients)
unfolding take_response remove_waiting_response_request
take_response-keeps m hash seq o = ground arith
