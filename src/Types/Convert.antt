-- ===== src/Types/Convert.antt =====
-- src/node/types/reth_compat.rs: from a delivered block to a block of the node. The caches of spot
-- metadata are a state; each answer of the API is an event of the state's list `fetches`, which the
-- loop takes one by one. The locks, which keep two threads from fetching at once, are not modelled.
use nanoreth.Prelude.{
  ℕ, Bool, true, false, ◌&&◌, List, [], ◌∷◌, ◌++◌, map, Option, none, some, if◌then◌else◌, length,
  lookup, keep,
}
use nanoreth.Primitives.{
  Alloy, HlBlock, Kinds, Signature, TransactionSigned as TxSigned, TxKind, TxLegacy,
  from_ethereum_header,
}
use nanoreth.Primitives.Sender.{address_to_s, spot_to_s}
use nanoreth.SpotMeta.{SpotMap, SpotMeta, erc20_contract_to_spot_token}
use nanoreth.Types.Receipts.{LegacyReceipt, to_receipt}
use nanoreth.Types.Compat.{BlockAndReceipts, SystemTx, Transaction, to_reth_transaction, number}
use nanoreth.Types.Patch.{recover_testnet_system_tx_sender}

-- An answer of the API (`none`: the request failed), and whether the database takes the write.
pub record Fetch : Type 0 where
  pub meta : Option SpotMeta
  pub write_ok : Bool

-- `SPOT_EVM_MAP`, whether `DB_HANDLE` is set, the table behind it, and the answers to come.
pub record SpotState : Type 0 where
  pub spot_evm_map : SpotMap
  pub db_open : Bool
  pub stored : List (ℕ × ℕ)
  pub manual : List (ℕ × ℕ)
  pub env : List (Option (ℕ × ℕ))
  pub fetches : List Fetch

-- `waiting`: the loop wants another answer of the API.
pub data Outcome {ℓ} (A : Type ℓ) : Type ℓ where
  done : A → Outcome A
  waiting unexpected_type unexpected_creation fetch_failed unwrap_none : Outcome A

abbrev pub M : Type 0 → Type 0
M A = SpotState → Outcome (A × SpotState)

abbrev pub pure : {A : Type 0} → A → M A
pure x st = done (x, st)

infixl 5 ◌>>=◌
abbrev pub then_run : {A B : Type 0} → Outcome (A × SpotState) → (A → M B) → Outcome (B × SpotState)
then_run (done (x, st)) f = f x st
then_run waiting f = waiting
then_run unexpected_type f = unexpected_type
then_run unexpected_creation f = unexpected_creation
then_run fetch_failed f = fetch_failed
then_run unwrap_none f = unwrap_none

abbrev pub ◌>>=◌ : {A B : Type 0} → M A → (A → M B) → M B
◌>>=◌ m f st = then_run (m st) f

-- `store_spot_metadata`: the map as it is serialized.
unfoldable pub to_stored : SpotMap → List (ℕ × ℕ)
to_stored = map λ e. (e.0, e.1.index)

unfoldable pub persist_spot_metadata_to_db : Bool → SpotMap → SpotState → SpotState
persist_spot_metadata_to_db write_ok m st =
    if st.db_open && write_ok then record st { stored = to_stored m } else st

-- One turn of the loop on a cache miss; `none` is the panic of `unwrap`.
unfoldable pub fetch_spot_map : ℕ → Fetch → SpotState → Option SpotState
unfolding persist_spot_metadata_to_db
fetch_spot_map chain_id f st =
    elim (erc20_contract_to_spot_token chain_id f.meta st.manual st.env) [
      | none ↦ none
      | some m ↦ some (persist_spot_metadata_to_db f.write_ok m (record st { spot_evm_map = m }))
    ]

-- The loop: it ends with a hit in the map.
unfoldable pub spot_loop : ℕ → ℕ → List Fetch → SpotState → Outcome (ℕ × SpotState)
spot_loop chain_id to [] st = elim (lookup to st.spot_evm_map) [
  | some spot ↦ done (spot_to_s spot.index, record st { fetches = [] })
  | none ↦ waiting
]
spot_loop chain_id to (f ∷ fs) st = elim (lookup to st.spot_evm_map) [
  | some spot ↦ done (spot_to_s spot.index, record st { fetches = f ∷ fs })
  | none ↦ elim (fetch_spot_map chain_id f st) [
    | none ↦ fetch_failed
    | some st' ↦ spot_loop chain_id to fs st'
  ]
]

abbrev pub is_empty : List ℕ → Bool
is_empty [] = true
is_empty (x ∷ xs) = false

-- The fallbacks when upstream gives no `from`: the testnet log, the HYPE sender, the spot map.
unfoldable pub fallback_s : {k : Kinds} → SystemTx k → TxLegacy → ℕ → ℕ → ℕ → M ℕ
unfolding spot_loop
fallback_s t tx to chain_id block_number st =
    elim (recover_testnet_system_tx_sender chain_id block_number to t.receipt) [
      | some sender ↦ done (address_to_s sender, st)
      | none ↦ if is_empty tx.input then done (1, st) else spot_loop chain_id to st.fetches st
    ]

unfoldable pub synthetic_s : {k : Kinds} → SystemTx k → TxLegacy → ℕ → ℕ → ℕ → M ℕ
unfolding fallback_s
synthetic_s t tx to chain_id block_number st = elim t.from [
  | some sender ↦ done (address_to_s sender, st)
  | none ↦ fallback_s t tx to chain_id block_number st
]

abbrev pub synthetic_signature : ℕ → Signature
synthetic_signature s = record { r = 1; s = s; y_parity = true }

unfoldable pub sign_system_tx :
    {k : Kinds} → SystemTx k → TxLegacy → TxKind → ℕ → ℕ → M (TxSigned k)
unfolding synthetic_s
sign_system_tx t tx TxKind.create chain_id block_number st = unexpected_creation
sign_system_tx t tx (TxKind.call to) chain_id block_number st =
    then_run (synthetic_s t tx to chain_id block_number st)
      λ s. pure (TxSigned.legacy (record { tx = tx; signature = synthetic_signature s }))

unfoldable pub convert_system_tx : {k : Kinds} → SystemTx k → Transaction k → ℕ → ℕ → M (TxSigned k)
unfolding sign_system_tx
convert_system_tx t (Transaction.legacy tx) chain_id block_number =
    sign_system_tx t tx tx.to chain_id block_number
convert_system_tx t _ chain_id block_number = λ st. unexpected_type

unfoldable pub system_tx_to_reth_transaction : {k : Kinds} → SystemTx k → ℕ → ℕ → M (TxSigned k)
unfolding convert_system_tx
system_tx_to_reth_transaction t = convert_system_tx t t.tx

unfoldable pub convert_system_txs : {k : Kinds} → List (SystemTx k) → ℕ → ℕ → M (List (TxSigned k))
convert_system_txs [] chain_id block_number = pure []
convert_system_txs (t ∷ ts) chain_id block_number = do
  x ← system_tx_to_reth_transaction t chain_id block_number
  xs ← convert_system_txs ts chain_id block_number
  pure (x ∷ xs)

abbrev pub has_receipt : {k : Kinds} → SystemTx k → Bool
has_receipt t = elim t.receipt [ none ↦ false | some r ↦ true ]

abbrev pub unwrap : {A : Type 0} → Option A → M A
unwrap none st = unwrap_none
unwrap (some x) st = done (x, st)

unfoldable pub unwrap_receipts : {k : Kinds} → List (SystemTx k) → M (List LegacyReceipt)
unwrap_receipts [] = pure []
unwrap_receipts (t ∷ ts) = do r ← unwrap t.receipt; rs ← unwrap_receipts ts; pure (r ∷ rs)

-- `SealedBlock::to_reth_block`, by way of `BlockAndReceipts::to_reth_block`.
unfoldable pub to_reth_block : {a : Alloy} → BlockAndReceipts a → ℕ → M (HlBlock a)
to_reth_block {a} b chain_id = do
  let system_txs = keep has_receipt b.system_txs
  merged_system ← convert_system_txs system_txs chain_id (number b)
  system_receipts ← unwrap_receipts system_txs
  let merged_receipts = map to_receipt system_receipts ++ map to_receipt b.receipts
  pure (record {
    header = from_ethereum_header b.block.header.header merged_receipts (length system_txs);
    body = record {
      inner = record {
        transactions = merged_system ++ map to_reth_transaction b.block.body.transactions;
        ommers = [];
        withdrawals = b.block.body.withdrawals;
      };
      sidecars = none;
      read_precompile_calls = some b.read_precompile_calls;
      highest_precompile_address = b.highest_precompile_address;
    };
  })
