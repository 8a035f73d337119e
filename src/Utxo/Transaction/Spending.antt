-- ===== src/Utxo/Transaction/Spending.antt =====
-- What AddCoin takes from the mempool (executor/utxo/manager/transaction.cpp).
use resilientdb.Common.Int64.{Same, int64-Same}
use resilientdb.Common.{
  number_keys, text_keys, inl, inr, if◌then◌else◌, Bool-cases, some_inj, ◌==◌, ℕ, ◌≤◌, String, ◌≡◌,
  refl, sym, ◌∙◌, Bool, true, false, ◌&&◌, Option, none, some, List, [], ◌∷◌, arith, ap, subst,
  eq_iff, Option-cases, get_elem?, set, ◌+◌, not,
}
use resilientdb.Common.Int.{pos, ℤ, ◌+ℤ◌, eq_of_parts, parts_eq, int_laws, ltb_ℤ}
use resilientdb.Common.Maps.{lookup, lookup-insert}
use resilientdb.Utxo.Mempool.{
  TxIn, TxOut, TxMempool, fetch, usable, usable_in, get_utxo, mark_spend, Utxo, spend, mark_out,
  mark_in,
}
use resilientdb.Utxo.Mempool.Holdings.{mark_spend-fetch, share, held, mark_spend-held}
use resilientdb.Utxo.Transaction.{with_output, fetch_inputs, spend_inputs, assert_values}

-- No output is named twice.
abbrev pub Other : TxIn → List TxIn → Type 0
Other i [] = Unit {0}
Other i (j ∷ js) = ((i.prev_id == j.prev_id && i.out_idx == j.out_idx) ≡ false) × Other i js

abbrev pub DistinctIns : List TxIn → Type 0
DistinctIns [] = Unit {0}
DistinctIns (i ∷ is) = Other i is × DistinctIns is

-- No id from the next one on is taken.
abbrev pub NextFree : TxMempool → Type 0
NextFree m = (k : ℕ) → m.id ≤ k → lookup k m.txs ≡ none

usable-some :
    (address : String) (found : Option TxOut) (o : TxOut)
    → usable_in address found ≡ some o
    → (found ≡ some o) × (o.spent ≡ false) × ((o.address == address) ≡ true)
unfolding usable_in
usable-some address none o e = absurd (ground arith)
usable-some address (some x) o e = elim (Bool-cases x.spent) [
  | inl q ↦ let bad : usable address x ≡ none = rw (usable, q) refl in absurd (ground arith)
  | inr q ↦ elim (Bool-cases (x.address == address)) [
    | inl r ↦
        let good : usable address x ≡ some x = rw (usable, q, r) refl in
        let same : x ≡ o = some_inj (sym good ∙ e) in
        (
          ap some same,
          subst (λ y. y.spent ≡ false) same q,
          subst (λ y. (y.address == address) ≡ true) same r,
        )
    | inr r ↦ let bad : usable address x ≡ none = rw (usable, q, r) refl in absurd (ground arith)
  ]
]

get_utxo-same :
    (m m' : TxMempool) (address : String) (j k : ℕ)
    → fetch m'.txs j k ≡ fetch m.txs j k
    → get_utxo m' j k address ≡ get_utxo m j k address
unfolding get_utxo
get_utxo-same m m' address j k e = rw e refl

fetch_inputs-mark_spend :
    (m : TxMempool) (address : String) (i : TxIn) (is : List TxIn)
    → Other i is
    → fetch_inputs (mark_spend m i.prev_id i.out_idx).0 address is ≡ fetch_inputs m address is
unfolding fetch_inputs
fetch_inputs-mark_spend m address i [] o = refl
fetch_inputs-mark_spend m address i (j ∷ is) (o, os) =
    let m' = (mark_spend m i.prev_id i.out_idx).0 in
    rw
      (
        get_utxo-same m m' address j.prev_id j.out_idx
            (mark_spend-fetch m i.prev_id i.out_idx j.prev_id j.out_idx o),
        fetch_inputs-mark_spend m address i is os,
      )
      refl

with_output-some :
    (o : Option TxOut) (rest : Option (List TxOut)) (os : List TxOut)
    → with_output o rest ≡ some os
    → (x : TxOut) × (xs : List TxOut) × (o ≡ some x) × (rest ≡ some xs) × (os ≡ x ∷ xs)
unfolding with_output
with_output-some none rest os e = absurd (ground arith)
with_output-some (some o) none os e = absurd (ground arith)
with_output-some (some o) (some xs) os e = (o, xs, refl, refl, sym (some_inj e))

-- The sum of the values, as integers.
unfoldable pub sum_values : List TxOut → ℤ
sum_values [] = pos 0
sum_values (o ∷ os) = o.value +ℤ sum_values os

-- No value is below 0.
unfoldable pub nonnegative : List TxOut → Bool
nonnegative [] = true
nonnegative (o ∷ os) = not (ltb_ℤ o.value (pos 0)) && nonnegative os

-- What the inputs were worth to the addresses of a test, all of them being of one address.
abbrev pub gain : (String → Bool) → String → List TxOut → ℤ
gain p address os = if p address then sum_values os else pos 0

share-own :
    (p : String → Bool) (o : TxOut) (address : String)
    → o.spent ≡ false
    → (o.address == address) ≡ true
    → share p o ≡ (if p address then o.value else pos 0)
unfolding share
share-own p o address q r =
    let same : o.address ≡ address = (eq_iff o.address address).0 r in rw (q, same) refl

gain-cons :
    (p : String → Bool) (address : String) (o : TxOut) (os : List TxOut)
    → gain p address (o ∷ os) ≡ (if p address then o.value else pos 0) +ℤ gain p address os
unfolding sum_values
gain-cons p address o os = elim (Bool-cases (p address)) [
  | inl e ↦ rw e refl
  | inr e ↦ rw e (omega int_laws)
]

-- What spending outputs does.
pub record Spent (p : String → Bool) (m : TxMempool) (address : String) (os : List TxOut)
    (result : TxMempool × ℤ) : Type 0 where
  pub total : Same result.1 (sum_values os)
  pub id_kept : result.0.id ≡ m.id
  pub held_less : held p result.0.txs +ℤ gain p address os ≡ held p m.txs

held_none :
    (p : String → Bool) (m : TxMempool) (address : String)
    → held p m.txs +ℤ gain p address [] ≡ held p m.txs
unfolding sum_values
held_none p m address = elim (Bool-cases (p address)) [
  | inl e ↦ rw e (eq_of_parts _ _ (omega int_laws))
  | inr e ↦ rw e (eq_of_parts _ _ (omega int_laws))
]

pub spend_inputs-Spent :
    (p : String → Bool) (m : TxMempool) (address : String) (ins : List TxIn) (os : List TxOut)
    → fetch_inputs m address ins ≡ some os
    → DistinctIns ins
    → Spent p m address os (spend_inputs m ins)
unfolding fetch_inputs spend_inputs sum_values get_utxo
spend_inputs-Spent p m address [] os e d =
    let q : [] ≡ os = some_inj e in
    rw (sym q)
      (record { total = (0, 0, omega arith); id_kept = refl; held_less = held_none p m address })
spend_inputs-Spent p m address (i ∷ is) os e (o, d) =
    let (x, xs, e1, e2, e3) =
      with_output-some (get_utxo m i.prev_id i.out_idx address) (fetch_inputs m address is) os e in
    let (at, unspent, own) = usable-some address (fetch m.txs i.prev_id i.out_idx) x e1 in
    let (v, k, h) = mark_spend-held p m i.prev_id i.out_idx x at in
    let m' = (mark_spend m i.prev_id i.out_idx).0 in
    let rest =
      spend_inputs-Spent p m' address is xs (fetch_inputs-mark_spend m address i is o ∙ e2) d in
    let less = rest.held_less in
    let mine = share-own p x address unspent own in
    let all = gain-cons p address x xs in
    let total = (spend_inputs m' is).1 in
    let (a, b, sum) = rest.total in
    let (c, d, wraps) = int64-Same (x.value +ℤ total) in
    rw e3 (record {
      total = rw v (a + c, b + d, omega (int_laws, sum, wraps));
      id_kept = rest.id_kept ∙ k;
      held_less =
          eq_of_parts _ _
            (omega (int_laws, parts_eq h, parts_eq less, parts_eq mine, parts_eq all));
    })

-- The asserts hold exactly where no input has a value below 0.
pub assert_values-nonnegative :
    (m : TxMempool) (address : String) (ins : List TxIn) (os : List TxOut)
    → fetch_inputs m address ins ≡ some os
    → DistinctIns ins
    → assert_values m ins ≡ nonnegative os
unfolding fetch_inputs assert_values nonnegative get_utxo
assert_values-nonnegative m address [] os e d = let q : [] ≡ os = some_inj e in rw (sym q) refl
assert_values-nonnegative m address (i ∷ is) os e (o, d) =
    let (x, xs, e1, e2, e3) =
      with_output-some (get_utxo m i.prev_id i.out_idx address) (fetch_inputs m address is) os e in
    let (at, _, _) = usable-some address (fetch m.txs i.prev_id i.out_idx) x e1 in
    let (v, _, _) = mark_spend-held (λ s. true) m i.prev_id i.out_idx x at in
    let m' = (mark_spend m i.prev_id i.out_idx).0 in
    let rest =
      assert_values-nonnegative m' address is xs (fetch_inputs-mark_spend m address i is o ∙ e2)
        d in
    rw (e3, v, rest) refl

mark_in-NextFree :
    (m : TxMempool) (id idx : ℕ) (found : Option Utxo)
    → lookup id m.txs ≡ found
    → NextFree m
    → NextFree (mark_in m id idx found).0
unfolding mark_in mark_out
mark_in-NextFree m id idx none q f = f
mark_in-NextFree m id idx (some u) q f = elim (Option-cases (get_elem? u.outs idx)) [
  | inl e ↦ rw e f
  | inr (o, e) ↦ rw e (λ k big.
      let v = record u { outs = set u.outs idx (spend o) } in
      lookup-insert id k v m.txs ∙ ground (arith, f id, f k big))
]

pub spend_inputs-NextFree :
    (m : TxMempool) (ins : List TxIn) → NextFree m → NextFree (spend_inputs m ins).0
unfolding spend_inputs mark_spend
spend_inputs-NextFree m [] f = f
spend_inputs-NextFree m (i ∷ is) f =
    spend_inputs-NextFree (mark_spend m i.prev_id i.out_idx).0 is
      (mark_in-NextFree m i.prev_id i.out_idx (lookup i.prev_id m.txs) refl f)
