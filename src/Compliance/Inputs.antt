-- ===== src/Compliance/Inputs.antt =====
-- src/addons/hl_node_compliance/rpc.rs: the loops that number the receipts of a block.
use nanoreth.Prelude.{sub_u64, ℕ, ◌+◌, ◌-◌, List, [], ◌∷◌, ltb, ◌==◌, if◌then◌else◌, length}
use nanoreth.Primitives.{EthereumReceipt}
use nanoreth.Compliance.{BlockInfo, ConvertReceiptInput, Entry, RecoveredTx}

abbrev pub Inputs : Type 0 → Type 0
Inputs T = List (ConvertReceiptInput T) × List (ConvertReceiptInput T)

module _ {T : Type 0} where
  -- `zip`: the longer list is cut.
  unfoldable pub zip_receipts : List (RecoveredTx T) → List EthereumReceipt → List (Entry T)
  zip_receipts (t ∷ ts) (r ∷ rs) = (t, r) ∷ zip_receipts ts rs
  zip_receipts _ _ = []

  abbrev pub make_input : BlockInfo → ℕ → ℕ → ℕ → Entry T → ConvertReceiptInput T
  make_input info index gas_used next_log_index (t, r) = record {
    receipt = r;
    tx = t;
    gas_used = sub_u64 r.cumulative_gas_used gas_used;
    next_log_index = next_log_index;
    meta = record { tx_hash = t.tx_hash; index = index; info = info };
  }

  -- The `filter_map` of `adjust_block_receipts`.
  unfoldable pub adjust_inputs :
      BlockInfo → ℕ → ℕ → ℕ → ℕ → List (Entry T) → List (ConvertReceiptInput T)
  adjust_inputs info count idx gas next [] = []
  adjust_inputs info count idx gas next ((t, r) ∷ es) =
      let skipped = adjust_inputs info count (idx + 1) gas next es in
      let taken =
        make_input info (idx - count) gas next (t, r)
        ∷ adjust_inputs info count (idx + 1) r.cumulative_gas_used (next + length r.logs) es in
      if ltb idx count then skipped else taken

  -- `regular_inputs.push` and `system_inputs.push`.
  abbrev pub push_regular : ConvertReceiptInput T → Inputs T → Inputs T
  push_regular x (regular, system) = (x ∷ regular, system)

  abbrev pub push_system : ConvertReceiptInput T → Inputs T → Inputs T
  push_system x (regular, system) = (regular, x ∷ system)

  -- The loop of `block_receipts_with_system_txs`: the ordinary inputs and the system inputs.
  unfoldable pub partition_inputs : BlockInfo → ℕ → ℕ → ℕ → ℕ → ℕ → ℕ → List (Entry T) → Inputs T
  partition_inputs info count idx gas next sys_gas sys_next [] = ([], [])
  partition_inputs info count idx gas next sys_gas sys_next ((t, r) ∷ es) =
      let system = push_system (make_input info idx sys_gas sys_next (t, r)) (
        partition_inputs info count (idx + 1) gas next r.cumulative_gas_used
          (sys_next + length r.logs) es) in
      let regular = push_regular (make_input info (idx - count) gas next (t, r)) (
        partition_inputs info count (idx + 1) r.cumulative_gas_used (next + length r.logs) sys_gas
          sys_next es) in
      if ltb idx count then system else regular

  -- The loop of `get_system_txs_receipts_by_block_id`, which breaks at the first ordinary receipt.
  unfoldable pub system_inputs :
      BlockInfo → ℕ → ℕ → ℕ → List (Entry T) → List (ConvertReceiptInput T)
  system_inputs info idx gas next [] = []
  system_inputs info idx gas next ((t, r) ∷ es) =
      let rest = system_inputs info (idx + 1) r.cumulative_gas_used (next + length r.logs) es in
      if r.cumulative_gas_used == 0 then make_input info idx gas next (t, r) ∷ rest else []

  -- The specification: every receipt of a list, numbered from `idx`.
  unfoldable pub number_from : BlockInfo → ℕ → ℕ → ℕ → List (Entry T) → List (ConvertReceiptInput T)
  number_from info idx gas next [] = []
  number_from info idx gas next ((t, r) ∷ es) =
      make_input info idx gas next (t, r)
      ∷ number_from info (idx + 1) r.cumulative_gas_used (next + length r.logs) es
