-- ===== src/Compliance/Blocks.antt =====
-- src/addons/hl_node_compliance/rpc.rs: the handlers that serve blocks, the number of their
-- transactions, and the lists of system transactions. `Stock` is what reth answers itself.
use nanoreth.Prelude.{
  Result, ok, err, ℕ, ◌+◌, ◌-◌, ◌%◌, ◌^◌, Bool, List, [], ◌∷◌, map, Option, none, some, ltb,
  if◌then◌else◌, length, drop, sub_u64,
}
use nanoreth.Primitives.{TransactionSigned, is_system_transaction}
use nanoreth.Compliance.{BlockInfo, Eth, RecoveredTx}
use nanoreth.Compliance.Receipts.{
  ◌>>=◌, BlockReceiptsWithSystemTx, adjust_block_receipts, block_receipts_with_system_txs,
  adjust_transaction_receipt, get_system_txs_receipts_by_block_id, or_none,
  system_tx_count_for_block,
}
use nanoreth.Compliance.Query.{is_hl_compliant}

-- alloy's `Transaction` of an answer: its index in the block, and the rest.
pub record RpcTransaction (B : Type 0) : Type 0 where
  pub transaction_index : Option ℕ
  pub body : B

-- alloy's `BlockTransactions`.
pub data BlockTransactions (B : Type 0) : Type 0 where
  full : List (RpcTransaction B) → BlockTransactions B
  hashes : List ℕ → BlockTransactions B
  uncle : BlockTransactions B

pub record RpcBlock (H B : Type 0) : Type 0 where
  pub number : ℕ
  pub header : H
  pub transactions : BlockTransactions B

-- A request fails with an error of reth, with one of its own, or by a panic.
pub data Failure (E : Type 0) : Type 0 where
  eth_error : E → Failure E
  invalid_block_height panicked : Failure E

abbrev pub lift {ℓ} : {E : Type 0} {A : Type ℓ} → Result E A → Result (Failure E) A
lift (ok a) = ok a
lift (err e) = err (eth_error e)

-- `drain(..count)`, which panics when the list is shorter.
unfoldable pub drain {ℓ} : {E : Type 0} {A : Type ℓ} → ℕ → List A → Result (Failure E) (List A)
drain count xs = if ltb (length xs) count then err panicked else ok (drop count xs)

-- `*idx -= system_tx_count as u64`.
abbrev pub lower : ℕ → Option ℕ → Option ℕ
lower count none = none
lower count (some idx) = some (sub_u64 idx count)

abbrev pub lower_index : {B : Type 0} → ℕ → RpcTransaction B → RpcTransaction B
lower_index count tx = record tx { transaction_index = lower count tx.transaction_index }

unfoldable pub adjust_transactions :
    {E B : Type 0} → ℕ → BlockTransactions B → Result (Failure E) (BlockTransactions B)
unfolding drain
adjust_transactions count (full txs) = do
  rest ← drain count txs
  ok (full (map (lower_index count) rest))
adjust_transactions count (hashes hs) = do rest ← drain count hs; ok (hashes rest)
adjust_transactions count uncle = ok uncle

-- The difference of two U256.
abbrev pub sub_u256 : ℕ → ℕ → ℕ
sub_u256 a b = (a + 2 ^ 256 - b) % 2 ^ 256

-- alloy's `TransactionInfo`.
pub record TransactionInfo : Type 0 where
  pub hash : ℕ
  pub block_hash : ℕ
  pub block_number : ℕ
  pub base_fee : Option ℕ
  pub index : ℕ

module _ (eth : Eth) where
  open eth use {alloy, Error, RpcReceipt}

  pub record Stock : Type 1 where
    pub Body : Type 0
    pub Head : Type 0
    pub block_by_id : ℕ → Bool → Result Error (Option (RpcBlock Head Body))
    pub transaction_count : ℕ → Result Error (Option ℕ)
    pub has_block : ℕ → Result Error Bool
    pub block_receipts : ℕ → Result Error (Option (List RpcReceipt))
    pub transaction_receipt : ℕ → Result Error (Option RpcReceipt)
    pub recovered_block :
        ℕ → Result Error (Option (BlockInfo × List (RecoveredTx (TransactionSigned alloy.kinds))))
    pub fill :
        RecoveredTx (TransactionSigned alloy.kinds)
        → TransactionInfo
        → Result Error (RpcTransaction Body)

  module _ (stock : Stock) where
    abbrev pub Block : Type 0
    Block = RpcBlock stock.Head stock.Body

    unfoldable pub adjust_block : Block → Result (Failure Error) (Option Block)
    unfolding system_tx_count_for_block adjust_transactions
    adjust_block block = do
      found ← lift (system_tx_count_for_block eth block.number)
      or_none found λ count. do
        transactions ← adjust_transactions count block.transactions
        ok (some (record block { transactions = transactions }))

    -- The handlers, of a request with or without its own compliance mode, on a server with a default.
    module _ (ext : Option Bool) (default_compliant : Bool) where
      abbrev pub compliant_or {ℓ} : {A : Type ℓ} → A → A → A
      compliant_or adjusted plain =
          if is_hl_compliant ext default_compliant then adjusted else plain

      -- `block_by_hash` and `block_by_number`.
      unfoldable pub block_by_id : ℕ → Bool → Result (Failure Error) (Option Block)
      unfolding adjust_block
      block_by_id block_id is_full = do
        res ← lift (stock.block_by_id block_id is_full)
        compliant_or (or_none res adjust_block) (ok res)

      -- `block_transaction_count_by_hash` and `block_transaction_count_by_number`.
      unfoldable pub block_transaction_count : ℕ → Result Error (Option ℕ)
      unfolding system_tx_count_for_block
      block_transaction_count block_id = do
        res ← stock.transaction_count block_id
        compliant_or
            (or_none res λ count. do
              found ← system_tx_count_for_block eth block_id
              or_none found λ sys_tx_count. ok (some (sub_u256 count sys_tx_count)))
            (ok res)

      -- The early return of the receipt handlers for a block that the provider does not have.
      abbrev pub when_known : {A : Type 0} → ℕ → Result Error (Option A) → Result Error (Option A)
      when_known block_id answer = do
        present ← stock.has_block block_id
        if present then answer else ok none

      abbrev pub served_receipts : Option (ℕ × List RpcReceipt) → Option (List RpcReceipt)
      served_receipts none = none
      served_receipts (some (count, receipts)) = some receipts

      unfoldable pub block_receipts : ℕ → Result Error (Option (List RpcReceipt))
      unfolding adjust_block_receipts
      block_receipts block_id = when_known block_id (
          compliant_or
            (do adjusted ← adjust_block_receipts eth block_id; ok (served_receipts adjusted))
            (stock.block_receipts block_id))

      unfoldable pub block_receipts_with_system_tx :
          ℕ → Result Error (Option (BlockReceiptsWithSystemTx RpcReceipt))
      unfolding block_receipts_with_system_txs
      block_receipts_with_system_tx block_id =
          when_known block_id (block_receipts_with_system_txs eth block_id)

      unfoldable pub transaction_receipt : ℕ → Result Error (Option RpcReceipt)
      unfolding adjust_transaction_receipt
      transaction_receipt hash =
          compliant_or (adjust_transaction_receipt eth hash) (stock.transaction_receipt hash)

    abbrev pub info_at :
        BlockInfo → ℕ → RecoveredTx (TransactionSigned alloy.kinds) → TransactionInfo
    info_at info index tx = record {
      hash = tx.tx_hash;
      block_hash = info.block_hash;
      block_number = info.block_number;
      base_fee = info.base_fee;
      index = index;
    }

    -- `.ok()` inside the `filter_map`.
    abbrev pub push_ok {ℓ} : {A : Type ℓ} → Result Error A → List A → List A
    push_ok (ok a) xs = a ∷ xs
    push_ok (err e) xs = xs

    unfoldable pub system_txs :
        BlockInfo
        → ℕ
        → List (RecoveredTx (TransactionSigned alloy.kinds))
        → List (RpcTransaction stock.Body)
    unfolding is_system_transaction
    system_txs info index [] = []
    system_txs info index (tx ∷ txs) =
        let rest = system_txs info (index + 1) txs in
        if is_system_transaction tx.tx
        then push_ok (stock.fill tx (info_at info index tx)) rest
        else rest

    abbrev pub system_txs_of :
        Option (BlockInfo × List (RecoveredTx (TransactionSigned alloy.kinds)))
        → Option (List (RpcTransaction stock.Body))
    system_txs_of none = none
    system_txs_of (some (info, txs)) = some (system_txs info 0 txs)

    unfoldable pub get_system_txs_by_block_id :
        ℕ → Result Error (Option (List (RpcTransaction stock.Body)))
    unfolding system_txs
    get_system_txs_by_block_id block_id = do
      block ← stock.recovered_block block_id
      ok (system_txs_of block)

  -- A block id that is left out stands for the latest block.
  abbrev pub or_latest : ℕ → Option ℕ → ℕ
  or_latest latest none = latest
  or_latest latest (some block_id) = block_id

  -- By hash, an error is answered as an unknown block; by number, an unknown block is an error.
  abbrev pub or_unknown {ℓ} :
      {A : Type ℓ} → Result Error (Option A) → Result (Failure Error) (Option A)
  or_unknown (ok found) = ok found
  or_unknown (err e) = ok none

  abbrev pub known {ℓ} : {A : Type ℓ} → Result Error (Option A) → Result (Failure Error) (Option A)
  known (ok (some found)) = ok (some found)
  known (ok none) = err invalid_block_height
  known (err e) = err (eth_error e)

  unfoldable pub get_evm_system_txs_by_block_hash :
      (stock : Stock) → ℕ → Result (Failure Error) (Option (List (RpcTransaction stock.Body)))
  unfolding get_system_txs_by_block_id
  get_evm_system_txs_by_block_hash stock hash = or_unknown (get_system_txs_by_block_id stock hash)

  unfoldable pub get_evm_system_txs_by_block_number :
      (stock : Stock)
      → ℕ
      → Option ℕ
      → Result (Failure Error) (Option (List (RpcTransaction stock.Body)))
  unfolding get_system_txs_by_block_id
  get_evm_system_txs_by_block_number stock latest block_id =
      known (get_system_txs_by_block_id stock (or_latest latest block_id))

  unfoldable pub get_evm_system_txs_receipts_by_block_hash :
      ℕ → Result (Failure Error) (Option (List RpcReceipt))
  unfolding get_system_txs_receipts_by_block_id
  get_evm_system_txs_receipts_by_block_hash hash =
      or_unknown (get_system_txs_receipts_by_block_id eth hash)

  unfoldable pub get_evm_system_txs_receipts_by_block_number :
      ℕ → Option ℕ → Result (Failure Error) (Option (List RpcReceipt))
  unfolding get_system_txs_receipts_by_block_id
  get_evm_system_txs_receipts_by_block_number latest block_id =
      known (get_system_txs_receipts_by_block_id eth (or_latest latest block_id))
