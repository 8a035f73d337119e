-- ===== src/Utxo/Transaction/Inputs.antt =====
-- What GetInput returns, and the total that VerifyUTXO makes of it
-- (executor/utxo/manager/transaction.cpp).
use resilientdb.Common.Int64.{Same-eq, int64-Fits, Fits, Same, int64, int64-Same}
use resilientdb.Common.{
  number_keys, text_keys, inl, inr, some_inj, ◌==◌, ℕ, String, ◌≡◌, refl, ◌∙◌, Bool, true, false,
  some, List, [], ◌∷◌, arith, if◌then◌else◌, length, ap, not, ◌&&◌, Option, none, ◌⊎◌, ◌+◌,
}
use resilientdb.Common.Int.{ℤ, pos, ◌+ℤ◌, int_laws, ◌-ℤ◌}
use resilientdb.Utxo.Mempool.{TxOut, Utxo, TxIn, TxMempool}
use resilientdb.Utxo.Transaction.{
  add_values, take_values, check_inputs, fetch_inputs, public_key, nonce, same_key, check_found,
  get_input,
}
use resilientdb.Utxo.Transaction.Spending.{sum_values}

add_values-Same :
    (total : ℤ) (os : List TxOut)
    → Fits total
    → Same (add_values total os) (total +ℤ sum_values os) × Fits (add_values total os)
unfolding add_values sum_values
add_values-Same total [] f = ((0, 0, omega int_laws), f)
add_values-Same total (o ∷ os) f =
    let (k, j, wraps) = int64-Same (total +ℤ o.value) in
    let ((k', j', sum), g) =
      add_values-Same (int64 (total +ℤ o.value)) os (int64-Fits (total +ℤ o.value)) in
    ((k + k', j + j', omega (int_laws, wraps, sum)), g)

take_values-Same :
    (total : ℤ) (os : List TxOut)
    → Fits total
    → Same (take_values total os) (total -ℤ sum_values os) × Fits (take_values total os)
unfolding take_values sum_values
take_values-Same total [] f = ((0, 0, omega int_laws), f)
take_values-Same total (o ∷ os) f =
    let (k, j, wraps) = int64-Same (total -ℤ o.value) in
    let ((k', j', sum), g) =
      take_values-Same (int64 (total -ℤ o.value)) os (int64-Fits (total -ℤ o.value)) in
    ((k + k', j + j', omega (int_laws, wraps, sum)), g)

-- The total that VerifyUTXO looks at, where it does not wrap around.
pub total-values :
    (inputs outs : List TxOut)
    → Fits (sum_values inputs -ℤ sum_values outs)
    → take_values (add_values (pos 0) inputs) outs ≡ sum_values inputs -ℤ sum_values outs
total-values inputs outs fits =
    let ((k, j, ins), f) = add_values-Same (pos 0) inputs (omega arith, omega arith) in
    let ((k', j', all), g) = take_values-Same (add_values (pos 0) inputs) outs f in
    Same-eq _ _ (k + k', j + j', omega (int_laws, ins, all)) g fits

if_none {ℓ} :
    {A : Type ℓ} (b : Bool) (o : Option A) (x : A) → (if b then none else o) ≡ some x → o ≡ some x
if_none true o x e = absurd (ground arith)
if_none false o x e = e

if_some {ℓ} : {A : Type ℓ} (b : Bool) (y x : A) → (if b then some y else none) ≡ some x → y ≡ x
if_some true y x e = some_inj e
if_some false y x e = absurd (ground arith)

either_if {ℓ} :
    {A : Type ℓ} (b : Bool) (o p : Option A) (x : A)
    → (if b then o else p) ≡ some x
    → ((b ≡ true) × (o ≡ some x)) ⊎ ((b ≡ false) × (p ≡ some x))
either_if true o p x e = inl (refl, e)
either_if false o p x e = inr (refl, e)

and_left : (a b : Bool) → (a && b) ≡ true → a ≡ true
and_left true b e = refl
and_left false b e = e

module _ (verify : String → ℕ → String → String → Bool) where
  check_inputs-same :
      (u : Utxo) (os ins : List TxOut) → check_inputs verify u os ≡ some ins → os ≡ ins
  unfolding check_inputs
  check_inputs-same u [] ins e = absurd (ground arith)
  check_inputs-same u (o ∷ os) ins e =
      let key = public_key (o ∷ os) in
      if_some (same_key key (o ∷ os)) _ _ (
        if_none (not (verify u.address (nonce u.ins) key u.sig)) _ ins
          (if_none (u.sig == "") _ ins e))

  check_found-same :
      (u : Utxo) (found : Option (List TxOut)) (ins : List TxOut)
      → check_found verify u found ≡ some ins
      → found ≡ some ins
  unfolding check_found
  check_found-same u none ins e = absurd (ground arith)
  check_found-same u (some os) ins e = ap some (check_inputs-same u os ins e)

  no_inputs :
      (m : TxMempool) (address : String) (is : List TxIn)
      → (length is == 0) ≡ true
      → fetch_inputs m address is ≡ some []
  unfolding fetch_inputs
  no_inputs m address [] e = refl
  no_inputs m address (i ∷ is) e = absurd (ground arith)

  -- The inputs that GetInput returns are the outputs that the transaction names.
  pub get_input-found :
      (m : TxMempool) (u : Utxo) (ins : List TxOut)
      → get_input verify m u ≡ some ins
      → fetch_inputs m u.address u.ins ≡ some ins
  unfolding get_input
  get_input-found m u ins e =
      elim (either_if (length u.ins == 0 && u.address == "0000") (some [])
        (check_found verify u (fetch_inputs m u.address u.ins)) ins e) [
          | inl (q, r) ↦ no_inputs m u.address u.ins (and_left _ _ q) ∙ r
          | inr (q, r) ↦ check_found-same u (fetch_inputs m u.address u.ins) ins r
        ]
