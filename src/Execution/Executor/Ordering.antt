-- ===== src/Execution/Executor/Ordering.antt =====
-- The order in which TransactionExecutor::OrderMessage hands requests to execution.
use mathlib.Core.List.{map-append}
use resilientdb.Common.{
  number_keys, if◌then◌else◌, length, ◌==◌, ℕ, ◌+◌, ◌≤◌, ◌<◌, ◌≡◌, refl, Option, none, some, List,
  [], ◌∷◌, ◌++◌, arith, Bool-cases, length-append, suc, inl, inr, map, ltb, ltb→lt, ap, ◌∙◌, sym,
}
use resilientdb.Common.Maps.{Map, lookup}
use resilientdb.Messages.{Request}
use resilientdb.Execution.Executor.{
  insert_candidate, drain, TransactionExecutor, add_new_data, drain_all, order_message,
}
use resilientdb.Execution.Executor.Spec.{first}

-- Candidates, in the strict order of their keys from a bound on; each under its own number.
abbrev pub Ordered : ℕ → Map ℕ Request → Type 0
Ordered b [] = Unit {0}
Ordered b ((k, m) ∷ c) = (b ≤ k) × (m.seq ≡ k) × Ordered (k + 1) c

pub Ordered-mono : (a b : ℕ) (c : Map ℕ Request) → a ≤ b → Ordered b c → Ordered a c
Ordered-mono a b [] h o = tt
Ordered-mono a b ((k, m) ∷ c) h o = (omega arith, o.1, o.2)

insert-Ordered :
    (b : ℕ) (m : Request) (c : Map ℕ Request)
    → b ≤ m.seq
    → Ordered b c
    → Ordered b (insert_candidate m.seq m c)
unfolding insert_candidate
insert-Ordered b m [] h o = (h, refl, tt)
insert-Ordered b m ((k, x) ∷ c) h o = ground (arith, insert-Ordered (k + 1) m c)

-- Requests with numbers s, s + 1, …
abbrev pub Row : ℕ → List Request → Type 0
Row s [] = Unit {0}
Row s (m ∷ ms) = (m.seq ≡ s) × Row (s + 1) ms

Row-append :
    (s : ℕ) (ms : List Request) (m : Request)
    → Row s ms
    → m.seq ≡ s + length ms
    → Row s (ms ++ m ∷ [])
Row-append s [] m r e = (omega arith, tt)
Row-append s (x ∷ ms) m r e = (r.0, Row-append (s + 1) ms m r.1 (omega arith))

-- What a request's number finds among the executed requests and the candidates.
unfoldable pub known : ℕ → List Request → Map ℕ Request → Option Request
known s [] c = lookup s c
known s (m ∷ ms) c = if m.seq == s then some m else known s ms c

known-append :
    (s : ℕ) (ms : List Request) (m : Request) (c : Map ℕ Request)
    → known s (ms ++ m ∷ []) c ≡ known s ms ((m.seq, m) ∷ c)
unfolding known lookup
known-append s [] m c = refl
known-append s (x ∷ ms) m c = ground (arith, known-append s ms m c)

pub lookup-Ordered : (s b : ℕ) (c : Map ℕ Request) → Ordered b c → s < b → lookup s c ≡ none
unfolding lookup
lookup-Ordered s b [] o h = refl
lookup-Ordered s b ((k, m) ∷ c) o h = ground (arith, lookup-Ordered s (k + 1) c)

or_else : Option Request → Option Request → Option Request
or_else none b = b
or_else (some a) b = some a

lookup-insert_candidate :
    (s b : ℕ) (m : Request) (c : Map ℕ Request)
    → Ordered b c
    → lookup s (insert_candidate m.seq m c) ≡ or_else (lookup s c) (first s (m ∷ []))
unfolding lookup insert_candidate or_else
lookup-insert_candidate s b m [] o = ground arith
lookup-insert_candidate s b m ((k, x) ∷ c) o =
    ground (arith, lookup-insert_candidate s (k + 1) m c, lookup-Ordered s (k + 1) c)

-- The executor's state, with `done` the requests handed over so far.
pub record Good (c : Map ℕ Request) (next : ℕ) (done : List Request) (notes : List ℕ) : Type 0 where
  pub row : Row 1 done
  pub count : next ≡ suc (length done)
  pub ordered : Ordered next c
  pub told : notes ≡ map (λ m. m.seq + 1) done

Good-take :
    (k : ℕ) (m : Request) (c : Map ℕ Request) (next : ℕ) (done : List Request) (notes : List ℕ)
    → k ≡ next
    → Good ((k, m) ∷ c) next done notes
    → Good c (next + 1) (done ++ m ∷ []) (notes ++ (next + 1) ∷ [])
Good-take k m c next done notes e g = record {
  row = Row-append 1 done m g.row (omega (arith, g.ordered.1, g.count, e));
  count = omega (arith, length-append done (m ∷ []), g.count);
  ordered = Ordered-mono (next + 1) (k + 1) c (omega arith) g.ordered.2;
  told = rw (g.told, g.count, g.ordered, map-append) (ground arith);
}

drain-Good :
    (c : Map ℕ Request) (next : ℕ) (done : List Request) (notes : List ℕ)
    → Good c next done notes
    → let r = drain c next done notes in Good r.0 r.1 r.2 r.3 × Ordered (r.1 + 1) r.0
unfolding drain
drain-Good [] next done notes g = (g, tt)
drain-Good ((k, m) ∷ c) next done notes g = elim (Bool-cases (k == next)) [
  | inl e ↦ rw e (
      drain-Good c (next + 1) (done ++ m ∷ []) (notes ++ (next + 1) ∷ [])
        (Good-take k m c next done notes (ground arith) g))
  | inr e ↦ rw e (g, ground (arith, g.ordered))
]

drain-known :
    (s : ℕ) (c : Map ℕ Request) (next : ℕ) (done : List Request) (notes : List ℕ)
    → Ordered next c
    → let r = drain c next done notes in
      (known s r.2 r.0 ≡ known s done c) × (length r.2 + length r.0 ≡ length done + length c)
unfolding drain
drain-known s [] next done notes o = (refl, refl)
drain-known s ((k, m) ∷ c) next done notes o = elim (Bool-cases (k == next)) [
  | inl e ↦
      let queue = done ++ m ∷ [] in
      let ih =
        drain-known s c (next + 1) queue (notes ++ (next + 1) ∷ [])
          (Ordered-mono (next + 1) (k + 1) c (ground arith) o.2) in
      rw e (
        ih.0 ∙ known-append s done m c ∙ ap (λ j. known s done ((j, m) ∷ c)) o.1,
        omega (arith, ih.1, length-append done (m ∷ [])),
      )
  | inr e ↦ rw e (refl, refl)
]

-- The same with the messages `ms` that were ordered so far.
pub record Inv (ms : List Request) (e : TransactionExecutor) : Type 0 where
  pub good : Good e.candidates e.next_execute_seq e.execute_queue e.notified
  pub gap : Ordered (e.next_execute_seq + 1) e.candidates
  pub knows : (s : ℕ) → 0 < s → known s e.execute_queue e.candidates ≡ first s ms
  pub room : length e.execute_queue + length e.candidates ≤ length ms

first-append :
    (s : ℕ) (ms : List Request) (m : Request)
    → first s (ms ++ m ∷ []) ≡ or_else (first s ms) (first s (m ∷ []))
unfolding or_else
first-append s [] m = refl
first-append s (x ∷ ms) m = ground (arith, first-append s ms m)

known-Row :
    (s b : ℕ) (done : List Request) (c : Map ℕ Request)
    → Row b done
    → b ≤ s
    → s < b + length done
    → (m : Request) × (known s done c ≡ some m)
unfolding known
known-Row s b [] c r lo hi = absurd (omega arith)
known-Row s b (m ∷ done) c r lo hi = elim (Bool-cases (m.seq == s)) [
  | inl e ↦ (m, rw e)
  | inr e ↦ rw e (known-Row s (b + 1) done c r.1 (ground (arith, r.0)) (omega arith))
]

known-insert :
    (s b : ℕ) (done : List Request) (m : Request) (c : Map ℕ Request)
    → Ordered b c
    → known s done (insert_candidate m.seq m c) ≡ or_else (known s done c) (first s (m ∷ []))
unfolding known or_else
known-insert s b [] m c o = lookup-insert_candidate s b m c o
known-insert s b (x ∷ done) m c o = ground (arith, known-insert s b done m c o)

length-insert_candidate :
    (m : Request) (c : Map ℕ Request) → length (insert_candidate m.seq m c) ≤ length c + 1
unfolding insert_candidate
length-insert_candidate m [] = omega arith
length-insert_candidate m ((k, x) ∷ c) = ground (arith, length-insert_candidate m c)

old_message :
    (ms : List Request) (e : TransactionExecutor) (m : Request)
    → m.seq < e.next_execute_seq
    → Inv ms e
    → Inv (ms ++ m ∷ []) e
unfolding or_else
old_message ms e m old v = record {
  good = v.good;
  gap = v.gap;
  knows = λ s h. rw first-append (
      grind
        (arith, v.knows s h, v.good.count, v.good.row, known-Row s 1 e.execute_queue e.candidates));
  room = omega (arith, length-append ms (m ∷ []), v.room);
}

new_message :
    (ms : List Request) (e : TransactionExecutor) (m : Request)
    → e.next_execute_seq ≤ m.seq
    → Inv ms e
    → Inv (ms ++ m ∷ []) (drain_all (add_new_data e m))
unfolding drain_all add_new_data
new_message ms e m new v =
    let next = e.next_execute_seq in
    let queue = e.execute_queue in
    let c = insert_candidate m.seq m e.candidates in
    let o = insert-Ordered next m e.candidates new v.good.ordered in
    let start : Good c next queue e.notified = record {
      row = v.good.row;
      count = v.good.count;
      ordered = o;
      told = v.good.told;
    } in
    let (good, gap) = drain-Good c next queue e.notified start in
    record {
      good = good;
      gap = gap;
      knows = λ s h.
          (drain-known s c next queue e.notified o).0
          ∙ known-insert s next queue m e.candidates v.good.ordered
          ∙ ap (λ a. or_else a (first s (m ∷ []))) (v.knows s h)
          ∙ sym (first-append s ms m);
      room = omega (
        arith,
        (drain-known 0 c next queue e.notified o).1,
        length-append ms (m ∷ []),
        v.room,
        length-insert_candidate m e.candidates,
      );
    }

pub order_message-Inv :
    (ms : List Request) (e : TransactionExecutor) (m : Request)
    → Inv ms e
    → Inv (ms ++ m ∷ []) (order_message e m)
unfolding order_message
order_message-Inv ms e m v = elim (Bool-cases (ltb m.seq e.next_execute_seq)) [
  | inl old ↦ rw old (old_message ms e m (ltb→lt _ _ old) v)
  | inr new ↦ rw new (new_message ms e m (ground arith) v)
]
