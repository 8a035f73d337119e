-- ===== src/Execution/Executor/Agreement.antt =====
-- Two replicas that receive the same requests
-- (platform/consensus/execution/transaction_executor.cpp).
use resilientdb.Common.{
  number_keys, text_keys, inl, inr, zero, suc, ltb, Bool-cases, length, ℕ, ◌+◌, ◌≤◌, String, ◌≡◌,
  refl, ◌∙◌, true, false, List, [], ◌∷◌, arith, sym, ap, subst, not, ◌&&◌, Option, none, some, Bool,
}
use resilientdb.Messages.{Request}
use resilientdb.Execution.Executor.{
  TransactionExecutor, add_new_data, drain_all, order_message, order_messages, new_executor,
}
use resilientdb.Execution.Executor.Spec.{first, in_order}
use resilientdb.Execution.Executor.Refinement.{order_messages-in_order}
use resilientdb.Execution.DuplicateManager.{DuplicateManager}
use resilientdb.Execution.Executor.Rounds.{
  Batch, Machine, batch_of, run_if, execute, execute_first, execute_message, execute_rounds,
}

abbrev row : Option Request → List Request → List Request
row o rest = elim o [ none ↦ [] | some m ↦ m ∷ rest ]

length-row : (o : Option Request) (rest : List Request) → length (row o rest) ≤ suc (length rest)
length-row none rest = omega arith
length-row (some m) rest = omega arith

in_order-length : (n s : ℕ) (ms : List Request) → length (in_order n s ms) ≤ n
in_order-length zero s ms = omega arith
in_order-length (suc n) s ms =
    omega (arith, length-row (first s ms) (in_order n (s + 1) ms), in_order-length n (s + 1) ms)

in_order-same :
    (n s : ℕ) (ms ms' : List Request)
    → ((i : ℕ) → first i ms ≡ first i ms')
    → in_order n s ms ≡ in_order n s ms'
in_order-same zero s ms ms' h = refl
in_order-same (suc n) s ms ms' h =
    ap (row (first s ms)) (in_order-same n (s + 1) ms ms' h)
    ∙ ap (λ o. row o (in_order n (s + 1) ms')) (h s)

order_message-manager :
    (e : TransactionExecutor) (m : Request)
    → ((order_message e m).has_manager ≡ e.has_manager)
      × ((order_message e m).is_out_of_order ≡ e.is_out_of_order)
unfolding order_message drain_all add_new_data
order_message-manager e m = elim (Bool-cases (ltb m.seq e.next_execute_seq)) [
  | inl q ↦ rw q (refl, refl)
  | inr q ↦ rw q (refl, refl)
]

order_messages-manager :
    (e : TransactionExecutor) (ms : List Request)
    → ((order_messages e ms).has_manager ≡ e.has_manager)
      × ((order_messages e ms).is_out_of_order ≡ e.is_out_of_order)
unfolding order_messages
order_messages-manager e [] = (refl, refl)
order_messages-manager e (m ∷ ms) =
    let (a, b) = order_messages-manager (order_message e m) ms in
    let (c, d) = order_message-manager e m in (a ∙ c, b ∙ d)

module _ {ℓ} {S : Type ℓ} (parse : String → Batch) (run_batch : S → Batch → S × List String) where
  -- The state after the requests, run one after another.
  abbrev pub replay : S → List Request → S
  replay s [] = s
  replay s (r ∷ rs) = replay (run_batch s (batch_of r (parse r.payload))).0 rs

  run_in_order :
      (x y : Bool) (s : S) (batch : Batch)
      → x ≡ true
      → y ≡ false
      → (run_if parse run_batch (x && not (x && y)) s batch).0 ≡ (run_batch s batch).0
  unfolding run_if
  run_in_order x y s batch e f = rw (e, f) refl

  execute_rounds-replay :
      (m : Machine S) (queue : List Request) (times : List ℕ)
      → m.executor.execute_queue ≡ queue
      → m.executor.has_manager ≡ true
      → m.executor.is_out_of_order ≡ false
      → length queue ≤ length times
      → (execute_rounds parse run_batch m times).state ≡ replay m.state queue
  unfolding execute_rounds execute_message execute_first execute run_if
  execute_rounds-replay m [] [] e a b h = refl
  execute_rounds-replay m (r ∷ rs) [] e a b h = absurd (omega arith)
  execute_rounds-replay m [] (now ∷ times) e a b h =
      subst
        (λ q.
          (execute_rounds parse run_batch (execute_first parse run_batch m q now) times).state
          ≡ replay m.state [])
        (sym e) (execute_rounds-replay m [] times e a b (omega arith))
  execute_rounds-replay m (r ∷ rs) (now ∷ times) e a b h =
      subst
        (λ q.
          (execute_rounds parse run_batch (execute_first parse run_batch m q now) times).state
          ≡ replay m.state (r ∷ rs))
        (sym e)
        (let next =
            execute parse run_batch
              (record m { executor = record m.executor { execute_queue = rs } }) r
              (not (m.executor.has_manager && m.executor.is_out_of_order)) now in
          execute_rounds-replay next rs times refl a b (omega arith)
          ∙ ap (λ s. replay s rs) (run_in_order _ _ m.state (batch_of r (parse r.payload)) a b))

  -- An executor whose thread has ordered the messages, with the state of the store.
  abbrev pub ordered : Bool → S → Option DuplicateManager → List Request → Machine S
  ordered responds s d ms = record {
    executor = order_messages (new_executor true false responds) ms;
    state = s;
    duplicate_manager = d;
    posted = [];
  }

  ordered-replay :
      (responds : Bool) (s : S) (d : Option DuplicateManager) (ms : List Request) (times : List ℕ)
      → length ms ≤ length times
      → (execute_rounds parse run_batch (ordered responds s d ms) times).state
        ≡ replay s (in_order (length ms) 1 ms)
  unfolding new_executor
  ordered-replay responds s d ms times enough =
      let e = order_messages (new_executor true false responds) ms in
      let (queue, _, _) = order_messages-in_order ms true false responds in
      let (a, b) = order_messages-manager (new_executor true false responds) ms in
      execute_rounds-replay (ordered responds s d ms) (in_order (length ms) 1 ms) times queue a b
        (omega (arith, in_order-length (length ms) 1 ms, enough))

  -- Two replicas that have one transaction manager, which is not out of order, and one state of the
  -- store, and that receive equally many messages, the first message for each number being the same
  -- for both, in whatever orders and with whatever repetitions, come to the same state of the store
  -- when they have ordered the messages and run what they have ordered, in at least as many rounds
  -- as messages, whatever the manager does with a batch.
  pub replicas_agree :
      (responds responds' : Bool) (s : S) (d d' : Option DuplicateManager) (ms ms' : List Request)
      (times times' : List ℕ)
      → ((i : ℕ) → first i ms ≡ first i ms')
      → length ms ≡ length ms'
      → length ms ≤ length times
      → length ms' ≤ length times'
      → (execute_rounds parse run_batch (ordered responds s d ms) times).state
        ≡ (execute_rounds parse run_batch (ordered responds' s d' ms') times').state
  replicas_agree responds responds' s d d' ms ms' times times' same size enough enough' =
      ordered-replay responds s d ms times enough
      ∙ ap (replay s) (in_order-same (length ms) 1 ms ms' same ∙ ap (λ n. in_order n 1 ms') size)
      ∙ sym (ordered-replay responds' s d' ms' times' enough')
