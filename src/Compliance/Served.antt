-- ===== src/Compliance/Served.antt =====
-- What the receipt handlers serve, of a block whose system transactions stand first.
use nanoreth.Prelude.{
  ok, ℕ, ◌+◌, ◌-◌, ◌<◌, ◌≡◌, ap, ◌∙◌, List, ◌++◌, map, none, some, arith, length, ltb, false,
  get_elem?-map, All, get_elem?, take,
}
use nanoreth.Primitives.{EthereumReceipt, HlHeader}
use nanoreth.Compliance.{ConvertReceiptInput, Entry, Eth, LoadedBlock, Located}
use nanoreth.Compliance.Inputs.{
  adjust_inputs, make_input, number_from, partition_inputs, zip_receipts,
}
use nanoreth.Compliance.Numbering.{
  IsFree, IsPaid, adjust_inputs-append, gas_before, get_elem?-number_all, log_count,
  partition_inputs-ordinary, partition_inputs-system, system_inputs-append,
}
use nanoreth.Compliance.Receipts.{
  ◌>>=◌, adjust_block_receipts, adjust_transaction_receipt, block_receipts_with_system_txs,
  get_system_txs_receipts_by_block_id,
}

-- The node has the block: its header counts the system transactions `sys`, whose receipts come
-- first and count no gas, and `reg` are the others.
pub record IsStored (eth : Eth) (block_id : ℕ) (block : LoadedBlock eth.Tx)
    (sys reg : List (Entry eth.Tx)) : Type 0 where
  pub header : HlHeader eth.alloy
  pub receipts : List EthereumReceipt
  pub header_found : eth.header_by_id block_id ≡ ok (some header)
  pub counted : header.extras.system_tx_count ≡ length sys
  pub loaded : eth.load_block_and_receipts block_id ≡ ok (some (block, receipts))
  pub entries : zip_receipts block.transactions receipts ≡ sys ++ reg
  pub free : All IsFree sys
  pub paid : All IsPaid reg

module _ (eth : Eth) (block_id : ℕ) (block : LoadedBlock eth.Tx) (sys reg : List (Entry eth.Tx))
    (st : IsStored eth block_id block sys reg) where
  abbrev ordinary_inputs : List (ConvertReceiptInput eth.Tx)
  ordinary_inputs = number_from block.info 0 0 0 reg

  abbrev hidden_inputs : List (ConvertReceiptInput eth.Tx)
  hidden_inputs = number_from block.info 0 0 0 sys

  adjusted_entries :
      adjust_inputs block.info st.header.extras.system_tx_count 0 0 0
        (zip_receipts block.transactions st.receipts)
      ≡ ordinary_inputs
  adjusted_entries =
      rw (st.entries, st.counted, ← adjust_inputs-append block.info 0 0 0 sys reg)
        (ap (λ n. adjust_inputs block.info n 0 0 0 (sys ++ reg)) (omega arith))

  pub adjust_block_receipts_lem :
      adjust_block_receipts eth block_id
      ≡ (eth.convert_receipts ordinary_inputs >>= λ served. ok (some (length sys, served)))
  unfolding adjust_block_receipts
  adjust_block_receipts_lem = rw (st.header_found, st.loaded, adjusted_entries, st.counted)

  abbrev parted : List (ConvertReceiptInput eth.Tx) × List (ConvertReceiptInput eth.Tx)
  parted =
      partition_inputs block.info st.header.extras.system_tx_count 0 0 0 0 0
        (zip_receipts block.transactions st.receipts)

  parted_ordinary : parted.0 ≡ ordinary_inputs
  parted_ordinary =
      partition_inputs-ordinary block.info st.header.extras.system_tx_count 0 0 0 0 0
        (zip_receipts block.transactions st.receipts)
      ∙ adjusted_entries

  parted_hidden : parted.1 ≡ hidden_inputs
  parted_hidden =
      rw (st.entries, st.counted, ← partition_inputs-system block.info 0 0 0 0 0 sys reg)
        (ap (λ n. (partition_inputs block.info n 0 0 0 0 0 (sys ++ reg)).1) (omega arith))

  -- `eth_getBlockReceiptsWithSystemTx` serves the ordinary receipts numbered as if they were the
  -- whole block and the system receipts numbered among themselves; the compliant
  -- `eth_getBlockReceipts` serves the first of these, and `eth_getEvmSystemTxsReceiptsByBlockNumber`
  -- the second. The block is stored, its system transactions first and free of gas, and the two
  -- lists convert.
  pub receipt_handlers_agree :
      (served hidden : List eth.RpcReceipt)
      → eth.convert_receipts ordinary_inputs ≡ ok served
      → eth.convert_receipts hidden_inputs ≡ ok hidden
      → (block_receipts_with_system_txs eth block_id
          ≡ ok (some (record { receipts = served; system_tx_receipts = hidden })))
        × (adjust_block_receipts eth block_id ≡ ok (some (length sys, served)))
        × (get_system_txs_receipts_by_block_id eth block_id ≡ ok (some hidden))
  unfolding block_receipts_with_system_txs get_system_txs_receipts_by_block_id
  receipt_handlers_agree served hidden e f = (
    rw (st.header_found, st.loaded, parted_ordinary, parted_hidden, e, f),
    rw (adjust_block_receipts_lem, e),
    rw (st.loaded, st.entries, system_inputs-append block.info 0 0 0 sys reg st.free st.paid, f),
  )

  module _ (convert : ConvertReceiptInput eth.Tx → eth.RpcReceipt)
      (pointwise : (xs : List (ConvertReceiptInput eth.Tx))
        → eth.convert_receipts xs ≡ ok (map convert xs))
      (tx_hash : ℕ) (located : Located) (here : located.block_hash ≡ block_id)
      (found : eth.load_transaction tx_hash ≡ ok (some located)) where
    -- The receipt of a system transaction is not served. The block is stored, its system
    -- transactions first and free of gas, and the conversion of receipts takes each input for itself.
    pub adjust_transaction_receipt-hidden :
        located.index < length sys → adjust_transaction_receipt eth tx_hash ≡ ok none
    unfolding adjust_transaction_receipt
    adjust_transaction_receipt-hidden h =
        rw (found, here, adjust_block_receipts_lem, pointwise ordinary_inputs) (ground arith)

    -- The receipt that is served for an ordinary transaction is its own, under the index that it has
    -- among the ordinary transactions and with the log entries of those before it counted. The
    -- block is stored, its system transactions first and free of gas, and the conversion of
    -- receipts takes each input for itself.
    pub adjust_transaction_receipt-own :
        (j : ℕ) (e : Entry eth.Tx)
        → located.index ≡ length sys + j
        → get_elem? reg j ≡ some e
        → adjust_transaction_receipt eth tx_hash
          ≡ ok (
              some
                (convert (make_input block.info j (gas_before 0 j reg) (log_count (take j reg)) e)))
    unfolding adjust_transaction_receipt
    adjust_transaction_receipt-own j e place at =
        let late : ltb (length sys + j) (length sys) ≡ false = ground arith in
        let rest : length sys + j - length sys ≡ j = omega arith in
        rw (found, here, adjust_block_receipts_lem, pointwise ordinary_inputs, place, late, rest)
          (ap ok (
            get_elem?-map convert ordinary_inputs j _ (get_elem?-number_all block.info j reg e at)))
