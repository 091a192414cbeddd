-- ===== src/Compliance/Logs.antt =====
-- `adjust_log` of src/addons/hl_node_compliance/rpc.rs.
use nanoreth.Prelude.{
  sub_u64, ℕ, ◌+◌, ◌-◌, ◌<◌, ◌^◌, ◌≡◌, refl, ◌∙◌, List, [], ◌∷◌, ◌++◌, Option, none, some, arith,
  ltb, ◌==◌, if◌then◌else◌, length, All, get_elem?, take, map, ap,
}
use nanoreth.Primitives.{EthereumReceipt}
use nanoreth.Compliance.{BlockInfo, Entry}
use nanoreth.Compliance.Inputs.{adjust_inputs, make_input}
use nanoreth.Compliance.Numbering.{
  IsFree, IsPaid, adjust_inputs-append, gas_before, get_elem?-number_all, log_count,
}

-- The fields of alloy's RPC log that the filter reads and writes, and the rest.
pub record RpcLog : Type 0 where
  pub block_number : Option ℕ
  pub transaction_index : Option ℕ
  pub log_index : Option ℕ
  pub body : List ℕ

-- The two counters of the loop: receipts without gas, and their log entries.
unfoldable pub count_system : List EthereumReceipt → ℕ × ℕ
count_system [] = (0, 0)
count_system (r ∷ rs) =
    let (txs, logs) = count_system rs in
    if r.cumulative_gas_used == 0 then (txs + 1, logs + length r.logs) else (txs, logs)

abbrev pub bind {ℓ κ} : {A : Type ℓ} {B : Type κ} → Option A → (A → Option B) → Option B
bind none f = none
bind (some a) f = f a

unfoldable pub shift_log : RpcLog → ℕ → ℕ → ℕ × ℕ → Option RpcLog
shift_log log tx_idx log_idx (sys_tx_count, sys_log_count) =
    if ltb tx_idx sys_tx_count
    then none
    else some (record log {
      transaction_index = some (tx_idx - sys_tx_count);
      log_index = some (sub_u64 log_idx sys_log_count);
    })

-- `receipts_by_block` gives `none` for an error too.
unfoldable pub adjust_log : (ℕ → Option (List EthereumReceipt)) → RpcLog → Option RpcLog
unfolding count_system shift_log
adjust_log receipts_by_block log = bind log.transaction_index λ tx_idx.
    bind log.log_index λ log_idx. bind log.block_number λ number.
      bind (receipts_by_block number)
        λ receipts. shift_log log tx_idx log_idx (count_system receipts)

module _ {T : Type 0} where
  abbrev pub receipts_of : List (Entry T) → List EthereumReceipt
  receipts_of = map (λ e. e.1)

  count_system-paid :
      (reg : List (Entry T)) → All IsPaid reg → count_system (receipts_of reg) ≡ (0, 0)
  unfolding count_system
  count_system-paid [] paid = refl
  count_system-paid ((t, r) ∷ reg) paid = ground (arith, count_system-paid reg paid.1)

  pub count_system-append :
      (sys reg : List (Entry T))
      → All IsFree sys
      → All IsPaid reg
      → count_system (receipts_of (sys ++ reg)) ≡ (length sys, log_count sys)
  unfolding count_system
  count_system-append [] reg free paid = count_system-paid reg paid
  count_system-append ((t, r) ∷ sys) reg free paid =
      ground (arith, count_system-append sys reg free.1 paid)

  module _ (receipts_by_block : ℕ → Option (List EthereumReceipt)) (info : BlockInfo) (log : RpcLog)
      (number : ℕ) (sys reg : List (Entry T)) (free : All IsFree sys) (paid : All IsPaid reg)
      (found : receipts_by_block number ≡ some (receipts_of (sys ++ reg)))
      (in_block : log.block_number ≡ some number) where
    -- A log of a system transaction is dropped. The receipts of its block are known, those of the
    -- system transactions first and alone without gas.
    pub adjust_log-hidden :
        (tx_idx log_idx : ℕ)
        → log.transaction_index ≡ some tx_idx
        → log.log_index ≡ some log_idx
        → tx_idx < length sys
        → adjust_log receipts_by_block log ≡ none
    unfolding adjust_log
    adjust_log-hidden tx_idx log_idx ti li h =
        rw (ti, li, in_block, found, count_system-append sys reg free paid) (ground arith)

    -- The `k`-th log of the `j`-th ordinary transaction is served with the transaction index and the
    -- log index that the compliant receipts give it: the index of the transaction's receipt, and
    -- `k` past that receipt's first log index. The receipts of its block are known, those of the
    -- system transactions first and alone without gas, and the log's number fits 64 bits.
    pub adjust_log-aligned :
        (j k : ℕ) (e : Entry T)
        → get_elem? reg j ≡ some e
        → log.transaction_index ≡ some (length sys + j)
        → log.log_index ≡ some (log_count sys + (log_count (take j reg) + k))
        → log_count (take j reg) + k < 2 ^ 64
        → (get_elem? (adjust_inputs info (length sys) 0 0 0 (sys ++ reg)) j
            ≡ some (make_input info j (gas_before 0 j reg) (log_count (take j reg)) e))
          × (adjust_log receipts_by_block log
              ≡ some (record log {
                transaction_index = some j;
                log_index = some (log_count (take j reg) + k);
              }))
    unfolding adjust_log
    adjust_log-aligned j k e at ti li small =
        let start : 0 + length sys ≡ length sys = omega arith in
        let inputs = rw start at (adjust_inputs-append info 0 0 0 sys reg) in
        (
          ap (λ xs. get_elem? xs j) inputs ∙ get_elem?-number_all info j reg e at,
          rw (ti, li, in_block, found, count_system-append sys reg free paid) (ground arith),
        )
