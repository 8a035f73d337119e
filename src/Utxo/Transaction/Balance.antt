-- ===== src/Utxo/Transaction/Balance.antt =====
-- The wallet and the supply over transactions (executor/utxo/manager/transaction.cpp).
use resilientdb.Utxo.Transaction.Inputs.{get_input-found}
use resilientdb.Utxo.Transaction.Spending.{sum_values, assert_values-nonnegative, nonnegative}
use resilientdb.Common.Int64.{Same-int64, Fits, int64-Same, int64}
use resilientdb.Utxo.Transaction.Accepting.{
  Unspent, WellFormed, Balanced, add_outs-worth, Ledger, insert-NextFree, add_utxo-held,
  accepted-Ledger, accepted-less, add_outs-WalletFits, Balanced-WalletFits,
}
use resilientdb.Utxo.Transaction.{
  Transaction, add_outs, genesis, new_transaction, verify_utxo, get_input, accept, accept_found,
  add_transaction, assert_values, add_coins,
}
use resilientdb.Utxo.Wallet.{get_coin}
use resilientdb.Utxo.Mempool.Holdings.{held}
use resilientdb.Utxo.Mempool.{TxOut, Utxo, new_mempool, add_utxo}
use resilientdb.Common.Maps.{lookup}
use resilientdb.Common.Int.{pos, ◌+ℤ◌, ◌≤ℤ◌, parts_eq, int_laws, ◌-ℤ◌}
use resilientdb.Common.{
  number_keys, text_keys, inl, inr, Bool-cases, Option-cases, ◌==◌, ℕ, String, ◌≡◌, refl, ◌⊎◌, Bool,
  true, none, some, List, [], ◌∷◌, arith, some_inj, ◌+◌, sym, ap, ◌∙◌, subst, false, Option,
}

module _ (verify : String → ℕ → String → String → Bool) (t : Transaction) (u : Utxo)
    (ledger : Ledger t) (w : WellFormed u) where
  -- The total of the inputs less that of the outputs is an int64_t.
  abbrev pub TotalFits : Type 0
  TotalFits =
      (inputs : List TxOut)
      → get_input verify t.mempool u ≡ some inputs
      → Fits (sum_values inputs -ℤ sum_values u.outs)

  -- What AddTransaction may lead to: an assert stops the program as an input has a value below 0; or
  -- the ledger is sound, and the transaction was refused, or VerifyUTXO let it pass.
  abbrev Led : Option (Transaction × Option ℕ) → Type 0
  Led result =
      ((result ≡ none)
        × ((inputs : List TxOut) × (get_input verify t.mempool u ≡ some inputs)
            × (nonnegative inputs ≡ false)))
      ⊎ ((t' : Transaction) × (id : Option ℕ) × (result ≡ some (t', id))
          × Ledger t'
          × (((id ≡ none) × (t' ≡ t))
              ⊎ (TotalFits
                  → held (λ s. true) t'.mempool.txs +ℤ pos 1 ≤ℤ held (λ s. true) t.mempool.txs)))

  accept-Led :
      (inputs : List TxOut)
      → get_input verify t.mempool u ≡ some inputs
      → Led (accept verify t u inputs)
  unfolding accept
  accept-Led inputs e =
      let found = get_input-found verify t.mempool u inputs e in
      let asserts = assert_values-nonnegative t.mempool u.address u.ins inputs found w.0 in
      elim (Bool-cases (verify_utxo u inputs)) [
        | inr q ↦ rw q (inr (t, none, refl, ledger, inl (refl, refl)))
        | inl q ↦ elim (Bool-cases (assert_values t.mempool u.ins)) [
          | inr r ↦ rw (q, r) (inl (refl, (inputs, e, sym asserts ∙ r)))
          | inl r ↦
              rw (q, r)
                (inr (
                  record (add_coins t u) { mempool = (add_utxo (add_coins t u).mempool u).0 },
                  some (add_utxo (add_coins t u).mempool u).1,
                  refl,
                  accepted-Ledger t u inputs ledger w found,
                  inr (λ fits. accepted-less t u inputs ledger w found q (fits inputs e)),
                ))
        ]
      ]

  add_transaction-Led : Led (add_transaction verify t u)
  unfolding add_transaction accept_found
  add_transaction-Led = elim (Option-cases (get_input verify t.mempool u)) [
    | inl e ↦
        subst (λ found. Led (accept_found verify t u found)) (sym e)
          (inr (t, none, refl, ledger, inl (refl, refl)))
    | inr (inputs, e) ↦
        subst (λ found. Led (accept_found verify t u found)) (sym e) (accept-Led inputs e)
  ]

add_transaction-kept :
    (verify : String → ℕ → String → String → Bool) (t : Transaction) (u : Utxo) {t' : Transaction}
    {id : Option ℕ}
    → Ledger t
    → WellFormed u
    → add_transaction verify t u ≡ some (t', id)
    → Ledger t'
add_transaction-kept verify t u {t' = t'} l w e = elim (add_transaction-Led verify t u l w) [
  | inl (stops, _) ↦ absurd (ground (arith, stops, e))
  | inr (t1, id, same, kept, _) ↦
      subst Ledger (ap (λ (p : Transaction × Option ℕ). p.0) (some_inj (sym same ∙ e))) kept
]

-- The genesis transactions do not mark their outputs as spent.
abbrev pub AllUnspent : List Utxo → Type 0
AllUnspent [] = Unit {0}
AllUnspent (u ∷ us) = Unspent u.outs × AllUnspent us

genesis-Ledger :
    (t : Transaction) (us : List Utxo) → AllUnspent us → Ledger t → Ledger (genesis t us)
unfolding genesis
genesis-Ledger t [] w l = l
genesis-Ledger t (u ∷ us) (x, w) l =
    genesis-Ledger
      (record { mempool = (add_utxo t.mempool u).0; wallet = add_outs t.wallet u.outs }) us w
      (record {
        next_free = insert-NextFree t.mempool u l.next_free;
        balanced = λ a.
            let (k, j, outs) = add_outs-worth t.wallet u.outs a x in
            let (k', j', was) = int64-Same (held (λ s. s == a) t.mempool.txs) in
            let more =
              add_utxo-held (λ s. s == a) t.mempool u (l.next_free t.mempool.id (omega arith)) in
            Same-int64 _ _
              (k + k', j + j', omega (int_laws, outs, was, parts_eq more, parts_eq (l.balanced a)))
              (add_outs-WalletFits t.wallet u.outs (Balanced-WalletFits t l.balanced) a);
      })

-- The requests of a ledger, one after another; `none` is an assert that stops the program.
unfoldable pub add_all :
    (String → ℕ → String → String → Bool) → Transaction → List Utxo → Option Transaction
add_all verify t [] = some t
add_all verify t (u ∷ us) = elim (add_transaction verify t u) [
  | none ↦ none
  | some (t', id) ↦ add_all verify t' us
]

abbrev pub AllFormed : List Utxo → Type 0
AllFormed [] = Unit {0}
AllFormed (u ∷ us) = WellFormed u × AllFormed us

add_all-Ledger :
    (verify : String → ℕ → String → String → Bool) (t : Transaction) (us : List Utxo)
    {t' : Transaction}
    → AllFormed us
    → Ledger t
    → add_all verify t us ≡ some t'
    → Ledger t'
unfolding add_all
add_all-Ledger verify t [] w l e = subst Ledger (some_inj e) l
add_all-Ledger verify t (u ∷ us) {t' = t'} (x, w) l e =
    elim (Option-cases (add_transaction verify t u)) [
      | inl stops ↦ absurd (ground arith)
      | inr ((t1, id), taken) ↦
          add_all-Ledger verify t1 us {t' = t'} w
            (add_transaction-kept verify t u {t' = t1} {id = id} l x taken) (ground arith)
    ]

empty-Ledger : Ledger (record { mempool = new_mempool; wallet = [] })
unfolding new_mempool held get_coin lookup int64
empty-Ledger = record { next_free = λ k big. refl; balanced = λ a. refl }

pub new_transaction-Ledger : (us : List Utxo) → AllUnspent us → Ledger (new_transaction us)
unfolding new_transaction
new_transaction-Ledger us x =
    genesis-Ledger (record { mempool = new_mempool; wallet = [] }) us x empty-Ledger

-- From genesis transactions that do not mark their outputs as spent, after any transactions that
-- name no output twice and do not mark theirs, accepted or refused, the wallet holds for every
-- address what the unspent outputs of the address are worth, as an int64_t, unless an assert has
-- stopped the program.
pub add_all-Balanced :
    (verify : String → ℕ → String → String → Bool) (first us : List Utxo) {t : Transaction}
    → AllUnspent first
    → AllFormed us
    → add_all verify (new_transaction first) us ≡ some t
    → Balanced t
add_all-Balanced verify first us {t = t} x w e =
    (add_all-Ledger verify (new_transaction first) us {t' = t} w (new_transaction-Ledger first x)
      e).balanced
