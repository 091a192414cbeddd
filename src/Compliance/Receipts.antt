-- ===== src/Compliance/Receipts.antt =====
-- src/addons/hl_node_compliance/rpc.rs: the handlers that serve receipts.
use nanoreth.Prelude.{
  Result, ok, err, ℕ, ◌-◌, List, Option, none, some, ltb, if◌then◌else◌, get_elem?,
}
use nanoreth.Primitives.{HlHeader}
use nanoreth.Compliance.{Eth}
use nanoreth.Compliance.Inputs.{adjust_inputs, partition_inputs, system_inputs, zip_receipts}

infixl 5 ◌>>=◌
abbrev pub ◌>>=◌ {ℓ κ ι} :
    {E : Type ℓ} {A : Type κ} {B : Type ι} → Result E A → (A → Result E B) → Result E B
ok a >>= f = f a
err e >>= f = err e

-- `let Some(x) = … else { return Ok(None) }`.
abbrev pub or_none {ℓ κ ι} :
    {E : Type ℓ} {A : Type κ} {B : Type ι}
    → Option A
    → (A → Result E (Option B))
    → Result E (Option B)
or_none none f = ok none
or_none (some a) f = f a

pub record BlockReceiptsWithSystemTx (R : Type 0) : Type 0 where
  pub receipts : List R
  pub system_tx_receipts : List R

module _ (eth : Eth) where
  open eth use {RpcReceipt, Tx, Error}

  abbrev pub count_of : Option (HlHeader eth.alloy) → Option ℕ
  count_of none = none
  count_of (some h) = some h.extras.system_tx_count

  unfoldable pub system_tx_count_for_block : ℕ → Result Error (Option ℕ)
  system_tx_count_for_block block_id = do header ← eth.header_by_id block_id; ok (count_of header)

  unfoldable pub adjust_block_receipts : ℕ → Result Error (Option (ℕ × List RpcReceipt))
  unfolding system_tx_count_for_block
  adjust_block_receipts block_id = do
    found ← system_tx_count_for_block block_id
    or_none found λ system_tx_count. do
      loaded ← eth.load_block_and_receipts block_id
      or_none loaded λ (block, receipts). do
        converted ← eth.convert_receipts (
            adjust_inputs block.info system_tx_count 0 0 0
              (zip_receipts block.transactions receipts))
        ok (some (system_tx_count, converted))

  unfoldable pub block_receipts_with_system_txs :
      ℕ → Result Error (Option (BlockReceiptsWithSystemTx RpcReceipt))
  unfolding system_tx_count_for_block
  block_receipts_with_system_txs block_id = do
    found ← system_tx_count_for_block block_id
    or_none found λ system_tx_count. do
      loaded ← eth.load_block_and_receipts block_id
      or_none loaded λ (block, receipts). do
        let inputs =
            partition_inputs block.info system_tx_count 0 0 0 0 0
              (zip_receipts block.transactions receipts)
        receipts ← eth.convert_receipts inputs.0
        system_tx_receipts ← eth.convert_receipts inputs.1
        ok (some (record { receipts = receipts; system_tx_receipts = system_tx_receipts }))

  unfoldable pub get_system_txs_receipts_by_block_id : ℕ → Result Error (Option (List RpcReceipt))
  get_system_txs_receipts_by_block_id block_id = do
    loaded ← eth.load_block_and_receipts block_id
    or_none loaded λ (block, receipts). do
      converted ←
          eth.convert_receipts
            (system_inputs block.info 0 0 0 (zip_receipts block.transactions receipts))
      ok (some converted)

  -- `checked_sub`.
  abbrev pub checked_sub : ℕ → ℕ → Option ℕ
  checked_sub a b = if ltb a b then none else some (a - b)

  unfoldable pub adjust_transaction_receipt : ℕ → Result Error (Option RpcReceipt)
  unfolding adjust_block_receipts
  adjust_transaction_receipt tx_hash = do
    located ← eth.load_transaction tx_hash
    or_none located λ meta. do
      adjusted ← adjust_block_receipts meta.block_hash
      or_none adjusted λ (system_tx_count, block_receipts).
          or_none (checked_sub meta.index system_tx_count)
            λ index. ok (get_elem? block_receipts index)
