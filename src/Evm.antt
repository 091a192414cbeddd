-- ===== src/Evm.antt =====
-- src/node/evm: what the node adds around revm. The interpreter and the
-- database are the fields of `Machine`.
pub mod Patch
pub mod PatchLaws
pub mod Executor
pub mod Assembler
pub mod AssemblerLaws
pub mod Accounting
pub mod Precompiles
pub mod Installed
pub mod Forwarder
pub mod ForwarderLaws
use nanoreth.Prelude.{ℕ, List, Option, Bool, Result, ok, ◌≡◌, ◌≤◌, ◌<◌, false}
use nanoreth.Primitives.{Alloy, Log, TransactionSigned, TxType, is_system_transaction}

-- What the executor asks of the EVM that runs one block. `transact-gas_limit` and
-- `transact-intrinsic` are Ethereum's gas rules: a transaction uses at most its gas limit, and an
-- ordinary one pays at least the intrinsic gas.
pub record Machine (a : Alloy) : Type 1 where
  pub Db : Type 0
  pub Account : Type 0
  pub ExecutionResult : Type 0
  pub Error : Type 0
  pub transact :
      Db → TransactionSigned a.kinds → Result Error (ExecutionResult × List (ℕ × Account))
  pub commit : Db → List (ℕ × Account) → Db
  pub gas_used : ExecutionResult → ℕ
  pub is_success : ExecutionResult → Bool
  pub into_logs : ExecutionResult → List Log
  pub tx_type : TransactionSigned a.kinds → TxType
  pub gas_limit : TransactionSigned a.kinds → ℕ
  pub transact-gas_limit :
      (db : Db) (t : TransactionSigned a.kinds) (r : ExecutionResult) (c : List (ℕ × Account))
      → transact db t ≡ ok (r, c)
      → gas_used r ≤ gas_limit t
  pub transact-intrinsic :
      (db : Db) (t : TransactionSigned a.kinds) (r : ExecutionResult) (c : List (ℕ × Account))
      → transact db t ≡ ok (r, c)
      → is_system_transaction t ≡ false
      → 0 < gas_used r

-- The block that the EVM is set up for.
pub record BlockEnv : Type 0 where
  pub number : ℕ
  pub gas_limit : ℕ
