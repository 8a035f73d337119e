-- ===== src/Execution/Executor/Refinement.antt =====
-- TransactionExecutor::OrderMessage against the specification of the order of execution.
use mathlib.Core.List.{append-nil, append_assoc}
use resilientdb.Common.Maps.{lookup, Map}
use resilientdb.Common.{
  number_keys, length, ℕ, zero, suc, ◌+◌, ◌≤◌, ◌≡◌, refl, Bool, List, [], ◌∷◌, ◌++◌, map, arith,
}
use resilientdb.Messages.{Request}
use resilientdb.Execution.Executor.{
  TransactionExecutor, new_executor, order_message, order_messages,
}
use resilientdb.Execution.Executor.Spec.{first, in_order}
use resilientdb.Execution.Executor.Ordering.{
  Inv, Ordered, Row, known, order_message-Inv, Ordered-mono, lookup-Ordered,
}

new_executor-Inv : (a b c : Bool) → Inv [] (new_executor a b c)
unfolding new_executor known lookup
new_executor-Inv a b c = record {
  good = record { row = tt; count = refl; ordered = tt; told = refl };
  gap = tt;
  knows = λ s h. refl;
  room = omega arith;
}

order_messages-Inv :
    (ms later : List Request) (e : TransactionExecutor)
    → Inv ms e
    → Inv (ms ++ later) (order_messages e later)
unfolding order_messages
order_messages-Inv ms [] e v = rw append-nil v
order_messages-Inv ms (m ∷ later) e v =
    rw append_assoc at
      (order_messages-Inv (ms ++ m ∷ []) later (order_message e m) (order_message-Inv ms e m v))

-- A row whose members are the first of their numbers, up to a number that is missing.
in_order-Row :
    (n s : ℕ) (done ms : List Request) (c : Map ℕ Request)
    → Row s done
    → Ordered (s + length done + 1) c
    → length done ≤ n
    → ((i : ℕ) → s ≤ i → known i done c ≡ first i ms)
    → done ≡ in_order n s ms
unfolding known
in_order-Row zero s [] ms c r o h k = refl
in_order-Row zero s (m ∷ done) ms c r o h k = absurd (omega arith)
in_order-Row (suc n) s [] ms c r o h k =
    ground
      (arith, k s, lookup-Ordered s (s + 1) c (Ordered-mono (s + 1) (s + 0 + 1) c (omega arith) o))
in_order-Row (suc n) s (m ∷ done) ms c r o h k =
    let rest =
      in_order-Row n (s + 1) done ms c r.1
        (Ordered-mono (s + 1 + length done + 1) (s + suc (length done) + 1) c (omega arith) o)
        (omega arith) (λ i lo. rest_known i lo (k i (omega arith))) in
    ground (arith, k s, r.0, rest)
  where
    rest_known :
        (i : ℕ) → s + 1 ≤ i → known i (m ∷ done) c ≡ first i ms → known i done c ≡ first i ms
    rest_known i lo e = ground (arith, r.0)

-- Whatever the messages and their order, the requests handed to execution are the longest row of
-- numbers 1, 2, … that has come in, with the first message of each number, and each step was
-- announced by the number that comes next.
pub order_messages-in_order :
    (ms : List Request) (a b c : Bool)
    → let e = order_messages (new_executor a b c) ms in
      (e.execute_queue ≡ in_order (length ms) 1 ms)
      × (e.next_execute_seq ≡ suc (length e.execute_queue))
      × (e.notified ≡ map (λ m. m.seq + 1) e.execute_queue)
order_messages-in_order ms a b c =
    let e = order_messages (new_executor a b c) ms in
    let v = order_messages-Inv [] ms (new_executor a b c) (new_executor-Inv a b c) in
    (
      in_order-Row (length ms) 1 e.execute_queue ms e.candidates v.good.row
          (Ordered-mono (1 + length e.execute_queue + 1) (e.next_execute_seq + 1) e.candidates
            (omega (arith, v.good.count)) v.gap)
          (omega (arith, v.room)) v.knows,
      v.good.count,
      v.good.told,
    )
