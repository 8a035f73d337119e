-- ===== src/Utxo/Wallet.antt =====
-- Wallet (executor/utxo/manager/wallet.cpp). A sum of
-- int64_t values wraps around.
use resilientdb.Common.{
  number_keys, text_keys, if◌then◌else◌, ◌==◌, String, ◌≡◌, none, some, arith, eq_iff,
}
use resilientdb.Common.Int.{ℤ, pos, ◌+ℤ◌}
use resilientdb.Common.Int64.{int64}
use resilientdb.Common.Maps.{Map, lookup, insert, lookup-insert}

abbrev pub Wallet : Type 0
Wallet = Map String ℤ

-- GetCoin: a missing address reads 0 (the code also stores that 0, which no read tells apart).
unfoldable pub get_coin : Wallet → String → ℤ
get_coin w address = elim (lookup address w) [ none ↦ pos 0 | some v ↦ v ]

-- AddCoin.
unfoldable pub add_coin : Wallet → String → ℤ → Wallet
add_coin w address value = insert address (int64 (get_coin w address +ℤ value)) w

pub get_coin-add_coin :
    (w : Wallet) (address a : String) (value : ℤ)
    → get_coin (add_coin w address value) a
      ≡ (if address == a then int64 (get_coin w a +ℤ value) else get_coin w a)
unfolding get_coin add_coin
get_coin-add_coin w address a value =
    ground
      (arith, eq_iff address a, lookup-insert address a (int64 (get_coin w address +ℤ value)) w)
