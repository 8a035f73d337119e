-- ===== src/Utxo.antt =====
-- The unspent transaction outputs, executor/utxo: TxMempool (manager/tx_mempool.cpp), Wallet
-- (manager/wallet.cpp), Transaction (manager/transaction.cpp) and UTXOExecutor
-- (executor/utxo_executor.cpp).
pub mod Mempool
pub mod Wallet
pub mod Transaction
pub mod Executor
