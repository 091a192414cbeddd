-- ===== src/Evm/Executor.antt =====
-- src/node/evm/executor.rs and receipt_builder.rs: the executor of one block. Its state is
-- `HlBlockExecutor`; installing the precompiles is in `Precompiles`.
use nanoreth.Prelude.{
  ℕ, ◌≡◌, List, [], ◌∷◌, ◌++◌, Result, ok, err, ltb, if◌then◌else◌, length, sub_u64, add_u64,
}
use nanoreth.Primitives.{Alloy, EthereumReceipt, TransactionSigned, is_system_transaction}
use nanoreth.Evm.{BlockEnv, Machine}
use nanoreth.Evm.Patch.{patch_mainnet_after_tx}

module _ {a : Alloy} (m : Machine a) where
  pub record HlBlockExecutor : Type 0 where
    pub db : m.Db
    pub block : BlockEnv
    pub gas_used : ℕ
    pub receipts : List EthereumReceipt

  pub data BlockExecutionError : Type 0 where
    more_than_available : ℕ → ℕ → BlockExecutionError
    evm : m.Error → BlockExecutionError

  pub record BlockExecutionResult : Type 0 where
    pub receipts : List EthereumReceipt
    pub gas_used : ℕ

  -- The precompiles that are installed here are those of `Precompiles`.
  unfoldable pub new : BlockEnv → m.Db → HlBlockExecutor
  new block db = record { db = db; block = block; gas_used = 0; receipts = [] }

  abbrev map_err : {A : Type 0} → Result m.Error A → Result BlockExecutionError A
  map_err (ok x) = ok x
  map_err (err e) = err (evm e)

  unfoldable pub execute_transaction_without_commit :
      HlBlockExecutor
      → TransactionSigned a.kinds
      → Result BlockExecutionError (m.ExecutionResult × List (ℕ × m.Account))
  execute_transaction_without_commit s t =
      let available = sub_u64 s.block.gas_limit s.gas_used in
      if ltb available (m.gas_limit t)
      then err (more_than_available (m.gas_limit t) available)
      else map_err (m.transact s.db t)

  unfoldable pub build_receipt : TransactionSigned a.kinds → m.ExecutionResult → ℕ → EthereumReceipt
  build_receipt t result cumulative_gas_used = record {
    tx_type = m.tx_type t;
    success = m.is_success result;
    cumulative_gas_used = cumulative_gas_used;
    logs = m.into_logs result;
  }

  unfoldable pub commit_transaction :
      HlBlockExecutor
      → m.ExecutionResult × List (ℕ × m.Account)
      → TransactionSigned a.kinds
      → HlBlockExecutor × ℕ
  unfolding build_receipt
  commit_transaction s (result, state) t =
      let spent =
        if is_system_transaction t then s.gas_used else add_u64 s.gas_used (m.gas_used result) in
      let changes =
        patch_mainnet_after_tx s.block.number (length s.receipts) (is_system_transaction t) state in
      (
        record {
          db = m.commit s.db changes;
          block = s.block;
          gas_used = spent;
          receipts = s.receipts ++ build_receipt t result spent ∷ [];
        },
        m.gas_used result,
      )

  unfoldable pub finish : HlBlockExecutor → BlockExecutionResult
  finish s = record { receipts = s.receipts; gas_used = s.gas_used }

  -- Transactions that are executed and committed one after the other.
  pub data Executed
      : HlBlockExecutor → List (TransactionSigned a.kinds) → HlBlockExecutor → Type 0 where
    done : (s : HlBlockExecutor) → Executed s [] s
    step :
        (s s' : HlBlockExecutor) (t : TransactionSigned a.kinds)
        (ts : List (TransactionSigned a.kinds)) (output : m.ExecutionResult × List (ℕ × m.Account))
        → execute_transaction_without_commit s t ≡ ok output
        → Executed (commit_transaction s output t).0 ts s'
        → Executed s (t ∷ ts) s'
