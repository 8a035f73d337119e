-- ===== src/Utxo/Transaction/Accepting.antt =====
-- What an accepted transaction does to the wallet and to the worth of the outputs
-- (executor/utxo/manager/transaction.cpp).
use resilientdb.Utxo.Transaction.Inputs.{total-values}
use resilientdb.Common.Int64.{Same-int64, int64-Fits, Fits, Same, int64, int64-Same}
use resilientdb.Common.{
  sym, subst, number_keys, text_keys, inl, inr, Bool-cases, ◌==◌, String, ◌≡◌, refl, ◌∙◌, Bool,
  true, false, some, List, [], ◌∷◌, arith, none, ltb→lt, ◌+◌, ◌<◌,
}
use resilientdb.Common.Maps.{lookup, lookup-insert}
use resilientdb.Common.Int.{
  ltb_ℤ, ℤ, pos, ◌+ℤ◌, eq_of_parts, int_laws, parts_eq, ◌-ℤ◌, pos_part, neg_part, ◌≤ℤ◌,
}
use resilientdb.Utxo.Mempool.{TxOut, Utxo, TxMempool, add_utxo}
use resilientdb.Utxo.Mempool.Holdings.{share, worth, held, held-insert_new}
use resilientdb.Utxo.Wallet.{Wallet, get_coin, add_coin, get_coin-add_coin}
use resilientdb.Utxo.Transaction.{
  Transaction, add_outs, fetch_inputs, spend_inputs, verify_utxo, add_coins,
}
use resilientdb.Utxo.Transaction.Spending.{
  sum_values, DistinctIns, NextFree, gain, Spent, spend_inputs-Spent, spend_inputs-NextFree,
}

-- No output of the list is marked as spent.
abbrev pub Unspent : List TxOut → Type 0
Unspent [] = Unit {0}
Unspent (o ∷ os) = (o.spent ≡ false) × Unspent os

-- A transaction that names no output twice and does not mark its own outputs.
abbrev pub WellFormed : Utxo → Type 0
WellFormed u = DistinctIns u.ins × Unspent u.outs

-- The wallet holds for every address what its unspent outputs are worth, as an int64_t.
abbrev pub Balanced : Transaction → Type 0
Balanced t = (a : String) → get_coin t.wallet a ≡ int64 (held (λ s. s == a) t.mempool.txs)

-- What a wallet holds is an int64_t.
abbrev pub WalletFits : Wallet → Type 0
WalletFits w = (a : String) → Fits (get_coin w a)

add_coin-WalletFits :
    (w : Wallet) (address : String) (value : ℤ)
    → WalletFits w
    → WalletFits (add_coin w address value)
add_coin-WalletFits w address value f a = elim (Bool-cases (address == a)) [
  | inl e ↦
      subst Fits (sym (get_coin-add_coin w address a value ∙ rw e refl))
        (int64-Fits (get_coin w a +ℤ value))
  | inr e ↦ subst Fits (sym (get_coin-add_coin w address a value ∙ rw e refl)) (f a)
]

pub add_outs-WalletFits : (w : Wallet) (os : List TxOut) → WalletFits w → WalletFits (add_outs w os)
unfolding add_outs
add_outs-WalletFits w [] f = f
add_outs-WalletFits w (o ∷ os) f =
    add_outs-WalletFits (add_coin w o.address o.value) os
      (add_coin-WalletFits w o.address o.value f)

pub Balanced-WalletFits : (t : Transaction) → Balanced t → WalletFits t.wallet
Balanced-WalletFits t b a = subst Fits (sym (b a)) (int64-Fits _)

pub add_outs-worth :
    (w : Wallet) (os : List TxOut) (a : String)
    → Unspent os
    → Same (get_coin (add_outs w os) a) (get_coin w a +ℤ worth (λ s. s == a) os)
unfolding add_outs worth share
add_outs-worth w [] a u = (0, 0, omega int_laws)
add_outs-worth w (o ∷ os) a (q, u) =
    let first = get_coin-add_coin w o.address a o.value in
    let rest = add_outs-worth (add_coin w o.address o.value) os a u in
    let now = get_coin (add_coin w o.address o.value) a in
    let (k, j, paid) = rest in
    elim (Bool-cases (o.address == a)) [
      | inl e ↦
          let (k', j', wraps) = int64-Same (get_coin w a +ℤ o.value) in
          let here : now ≡ int64 (get_coin w a +ℤ o.value) = first ∙ rw e refl in
          rw (q, e) (k + k', j + j', omega (int_laws, paid, wraps, parts_eq here))
      | inr e ↦
          let here : now ≡ get_coin w a = first ∙ rw e refl in
          rw (q, e) (k, j, omega (int_laws, paid, parts_eq here))
    ]

-- What verify_utxo lets through leaves less than it takes.
worth-sum_values : (os : List TxOut) → Unspent os → worth (λ s. true) os ≡ sum_values os
unfolding worth share sum_values
worth-sum_values [] u = refl
worth-sum_values (o ∷ os) (q, u) = rw (q, worth-sum_values os u) refl

-- The state of a ledger: no id from the next one on is taken, and the wallet is balanced.
pub record Ledger (t : Transaction) : Type 0 where
  pub next_free : NextFree t.mempool
  pub balanced : Balanced t

pub insert-NextFree : (m : TxMempool) (u : Utxo) → NextFree m → NextFree (add_utxo m u).0
unfolding add_utxo
insert-NextFree m u f k big = lookup-insert m.id k u m.txs ∙ ground (arith, f k)

pub add_utxo-held :
    (p : String → Bool) (m : TxMempool) (u : Utxo)
    → lookup m.id m.txs ≡ none
    → held p (add_utxo m u).0.txs ≡ held p m.txs +ℤ worth p u.outs
unfolding add_utxo
add_utxo-held p m u free = held-insert_new p m.id u m.txs free

module _ (t : Transaction) (u : Utxo) (inputs : List TxOut) (ledger : Ledger t) (w : WellFormed u)
    (found : fetch_inputs t.mempool u.address u.ins ≡ some inputs) where
  pub spent :
      (p : String → Bool) → Spent p t.mempool u.address inputs (spend_inputs t.mempool u.ins)
  spent p = spend_inputs-Spent p t.mempool u.address u.ins inputs found w.0

  -- What every holding is after the transaction.
  accepted-held :
      (p : String → Bool)
      → let m = (spend_inputs t.mempool u.ins).0 in
        held p (add_utxo m u).0.txs +ℤ gain p u.address inputs
        ≡ held p t.mempool.txs +ℤ worth p u.outs
  unfolding add_utxo
  accepted-held p =
      let m = (spend_inputs t.mempool u.ins).0 in
      let less = (spent p).held_less in
      let free : lookup m.id m.txs ≡ none =
        spend_inputs-NextFree t.mempool u.ins ledger.next_free m.id (omega arith) in
      let more = held-insert_new p m.id u m.txs free in
      eq_of_parts _ _ (omega (int_laws, parts_eq less, parts_eq more))

  accepted-coins :
      (a : String)
      → let (m, total) = spend_inputs t.mempool u.ins in
        Same
          (get_coin (add_outs (add_coin t.wallet u.address (int64 (pos 0 -ℤ total))) u.outs) a
            +ℤ gain (λ s. s == a) u.address inputs)
          (get_coin t.wallet a +ℤ worth (λ s. s == a) u.outs)
  accepted-coins a =
      let total = (spend_inputs t.mempool u.ins).1 in
      let debt = int64 (pos 0 -ℤ total) in
      let (k, j, same) = (spent (λ s. s == a)).total in
      let (k', j', paid) = add_outs-worth (add_coin t.wallet u.address debt) u.outs a w.1 in
      let debit = get_coin-add_coin t.wallet u.address a debt in
      let now = get_coin (add_coin t.wallet u.address debt) a in
      elim (Bool-cases (u.address == a)) [
        | inl e ↦
            let d : now ≡ int64 (get_coin t.wallet a +ℤ debt) = debit ∙ rw e refl in
            let (p, q, wraps) = int64-Same (pos 0 -ℤ total) in
            let (p', q', wraps') = int64-Same (get_coin t.wallet a +ℤ debt) in
            rw e (
              j + k' + p + p',
              k + j' + q + q',
              omega (int_laws, same, paid, wraps, wraps', parts_eq d),
            )
        | inr e ↦
            let d : now ≡ get_coin t.wallet a = debit ∙ rw e refl in
            rw e (k', j', omega (int_laws, paid, parts_eq d))
      ]

  pub accepted-Ledger :
      Ledger (record (add_coins t u) { mempool = (add_utxo (add_coins t u).mempool u).0 })
  unfolding add_coins
  accepted-Ledger = record {
    next_free =
        insert-NextFree (spend_inputs t.mempool u.ins).0 u
          (spend_inputs-NextFree t.mempool u.ins ledger.next_free);
    balanced = λ a.
        let (k, j, coins) = accepted-coins a in
        let (k', j', was) = int64-Same (held (λ s. s == a) t.mempool.txs) in
        let total = (spend_inputs t.mempool u.ins).1 in
        let more = accepted-held (λ s. s == a) in
        Same-int64 _ _
          (
            k + k',
            j + j',
            omega (int_laws, coins, was, parts_eq more, parts_eq (ledger.balanced a)),
          )
          (add_outs-WalletFits (add_coin t.wallet u.address (int64 (pos 0 -ℤ total))) u.outs
            (add_coin-WalletFits t.wallet u.address (int64 (pos 0 -ℤ total))
              (Balanced-WalletFits t ledger.balanced))
            a);
  }

  pub accepted-less :
      verify_utxo u inputs ≡ true
      → Fits (sum_values inputs -ℤ sum_values u.outs)
      → held (λ s. true) (add_utxo (add_coins t u).mempool u).0.txs +ℤ pos 1
        ≤ℤ held (λ s. true) t.mempool.txs
  unfolding add_coins verify_utxo
  accepted-less ok fits =
      let all = accepted-held (λ s. true) in
      let outs = worth-sum_values u.outs w.1 in
      let more : pos_part (pos 0) + neg_part (sum_values inputs -ℤ sum_values u.outs)
          < pos_part (sum_values inputs -ℤ sum_values u.outs) + neg_part (pos 0) =
        ltb→lt _ _ (subst (λ z. ltb_ℤ (pos 0) z ≡ true) (total-values inputs u.outs fits) ok) in
      omega (int_laws, parts_eq all, parts_eq outs, more)
