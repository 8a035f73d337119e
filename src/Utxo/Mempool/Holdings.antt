-- ===== src/Utxo/Mempool/Holdings.antt =====
-- What the unspent outputs of the mempool are worth (executor/utxo/manager/tx_mempool.cpp).
use resilientdb.Common.{
  number_keys, text_keys, inl, inr, if◌then◌else◌, Bool-cases, some_inj, get_elem?, set, ◌==◌, ℕ,
  zero, suc, String, ◌≡◌, refl, Bool, not, ◌&&◌, none, some, List, [], ◌∷◌, arith, sym, ◌∙◌, ◌≢◌,
  Option, false, Option-cases, get_elem?-set_ne, subst,
}
use resilientdb.Common.Int.{pos, pos, pos, ℤ, ◌+ℤ◌, int_laws, parts_eq, eq_of_parts}
use resilientdb.Common.Maps.{
  Map, lookup, insert, lookup_here, lookup_there, insert_here, insert_there, lookup-insert,
}
use resilientdb.Utxo.Mempool.{
  TxOut, Utxo, spend, TxMempool, fetch, mark_spend, out_of, mark_in, mark_out,
}

-- What an unspent output is worth to the addresses of a test, and what outputs and mempools are.
unfoldable pub share : (String → Bool) → TxOut → ℤ
share p o = if not o.spent && p o.address then o.value else pos 0

unfoldable pub worth : (String → Bool) → List TxOut → ℤ
unfolding share
worth p [] = pos 0
worth p (o ∷ os) = share p o +ℤ worth p os

unfoldable pub held : (String → Bool) → Map ℕ Utxo → ℤ
unfolding worth
held p [] = pos 0
held p ((k, u) ∷ m) = worth p u.outs +ℤ held p m

share-spend : (p : String → Bool) (o : TxOut) → share p (spend o) ≡ pos 0
unfolding share spend
share-spend p o = refl

worth-set :
    (p : String → Bool) (outs : List TxOut) (idx : ℕ) (o : TxOut)
    → get_elem? outs idx ≡ some o
    → worth p (set outs idx (spend o)) +ℤ share p o ≡ worth p outs
unfolding worth
worth-set p [] idx o e = absurd (ground arith)
worth-set p (x ∷ xs) zero o e =
    let same : x ≡ o = some_inj e in rw (same, share-spend p o) (omega int_laws)
worth-set p (x ∷ xs) (suc idx) o e = omega (int_laws, parts_eq (worth-set p xs idx o e))

no_key : (k : ℕ) (u : Utxo) → lookup k [] ≢ some u
unfolding lookup
no_key k u e = ground arith

new_only :
    (p : String → Bool) (k : ℕ) (u : Utxo) → held p (insert k u []) ≡ held p [] +ℤ worth p u.outs
unfolding held insert
new_only p k u = omega int_laws

held-insert_old :
    (p : String → Bool) (k : ℕ) (u v : Utxo) (m : Map ℕ Utxo)
    → lookup k m ≡ some u
    → held p (insert k v m) +ℤ worth p u.outs ≡ held p m +ℤ worth p v.outs
unfolding held
held-insert_old p k u v [] e = absurd (no_key k u e)
held-insert_old p k u v ((j, w) ∷ m) e = elim (Bool-cases (j == k)) [
  | inl q ↦
      let same : w ≡ u = some_inj (sym (lookup_here k j w m q) ∙ e) in
      rw (insert_here k j v w m q, same) (omega int_laws)
  | inr q ↦
      let rest = held-insert_old p k u v m (sym (lookup_there k j w m q) ∙ e) in
      rw (insert_there k j v w m q) (omega (int_laws, parts_eq rest))
]

pub held-insert_new :
    (p : String → Bool) (k : ℕ) (u : Utxo) (m : Map ℕ Utxo)
    → lookup k m ≡ none
    → held p (insert k u m) ≡ held p m +ℤ worth p u.outs
unfolding held
held-insert_new p k u [] e = new_only p k u
held-insert_new p k u ((j, w) ∷ m) e = elim (Bool-cases (j == k)) [
  | inl q ↦ absurd (ground (arith, lookup_here k j w m q))
  | inr q ↦
      let rest = held-insert_new p k u m (sym (lookup_there k j w m q) ∙ e) in
      rw (insert_there k j u w m q) (omega (int_laws, parts_eq rest))
]

mark_in-held :
    (p : String → Bool) (m : TxMempool) (id idx : ℕ) (o : TxOut) (found : Option Utxo)
    → lookup id m.txs ≡ found
    → out_of found idx ≡ some o
    → let (m', value) = mark_in m id idx found in
      (value ≡ o.value) × (m'.id ≡ m.id) × (held p m'.txs +ℤ share p o ≡ held p m.txs)
unfolding mark_in out_of
mark_in-held p m id idx o none q e = absurd (ground arith)
mark_in-held p m id idx o (some u) q e =
    let v = record u { outs = set u.outs idx (spend o) } in
    let sum = held-insert_old p id u v m.txs q in
    let part = worth-set p u.outs idx o e in
    rw e (refl, refl, (eq_of_parts _ _ (omega (int_laws, parts_eq sum, parts_eq part))))

-- MarkSpend of an output that is there: its value is returned, every holding loses its share, and
-- the next id stays.
pub mark_spend-held :
    (p : String → Bool) (m : TxMempool) (id idx : ℕ) (o : TxOut)
    → fetch m.txs id idx ≡ some o
    → let (m', value) = mark_spend m id idx in
      (value ≡ o.value) × (m'.id ≡ m.id) × (held p m'.txs +ℤ share p o ≡ held p m.txs)
unfolding mark_spend fetch
mark_spend-held p m id idx o e = mark_in-held p m id idx o (lookup id m.txs) refl e

insert-fetch :
    (txs : Map ℕ Utxo) (id idx j k : ℕ) (u : Utxo) (o : TxOut)
    → lookup id txs ≡ some u
    → (id == j && idx == k) ≡ false
    → fetch (insert id (record u { outs = set u.outs idx o }) txs) j k ≡ fetch txs j k
unfolding fetch out_of
insert-fetch txs id idx j k u o q n =
    let v = record u { outs = set u.outs idx o } in
    let at = lookup-insert id j v txs in
    elim (Bool-cases (id == j)) [
      | inl e ↦
          let same : id ≡ j = ground arith in
          let there : lookup j txs ≡ some u = subst (λ i. lookup i txs ≡ some u) same q in
          let other : idx ≢ k = λ r. absurd (ground arith) in
          rw (at, e, there) (get_elem?-set_ne u.outs o other)
      | inr e ↦ rw (at, e) refl
    ]

mark_in-fetch :
    (m : TxMempool) (id idx j k : ℕ) (found : Option Utxo)
    → lookup id m.txs ≡ found
    → (id == j && idx == k) ≡ false
    → fetch (mark_in m id idx found).0.txs j k ≡ fetch m.txs j k
unfolding mark_in mark_out
mark_in-fetch m id idx j k none q n = refl
mark_in-fetch m id idx j k (some u) q n = elim (Option-cases (get_elem? u.outs idx)) [
  | inl e ↦ rw e refl
  | inr (o, e) ↦ rw e (insert-fetch m.txs id idx j k u (spend o) q n)
]

pub mark_spend-fetch :
    (m : TxMempool) (id idx j k : ℕ)
    → (id == j && idx == k) ≡ false
    → fetch (mark_spend m id idx).0.txs j k ≡ fetch m.txs j k
unfolding mark_spend
mark_spend-fetch m id idx j k = mark_in-fetch m id idx j k (lookup id m.txs) refl
