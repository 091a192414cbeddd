-- ===== src/Consensus/Executed.antt =====
-- The validator against the executor: what src/node/consensus/reth_copy.rs accepts of the blocks
-- that src/node/evm/executor.rs executes.
use nanoreth.Prelude.{
  ◌+◌, ◌^◌, ◌≤◌, ◌<◌, ◌≡◌, refl, subst, sym, ap, ◌∙◌, true, List, ◌++◌, ok, arith, length, drop,
  drop-append, length-append, All, keep,
}
use nanoreth.Primitives.{Alloy, TransactionSigned}
use nanoreth.Evm.{BlockEnv, Machine}
use nanoreth.Evm.Executor.{Executed, HlBlockExecutor, new}
use nanoreth.Evm.Accounting.{
  IsOrdinary, IsSystem, Executed-last, Executed-ordinary, Executed-system, keep-append,
}
use nanoreth.Consensus.PostExecution.{
  PostHeader, PostRules, accepted-roots, fold_bloom, last_gas, shows_gas,
  validate_block_post_execution,
}

module _ {a : Alloy} (m : Machine a) (block : BlockEnv) (db : m.Db) where
  -- When a block's system transactions are executed before its ordinary ones, as `to_reth_block`
  -- lists them, and its gas limit is a `u64`, then each transaction has its receipt, the receipts
  -- that show gas are exactly those of the ordinary transactions, the last receipt shows the gas
  -- of the block, and that is within the limit.
  pub Executed-receipts :
      (systems ordinaries : List (TransactionSigned a.kinds)) (s1 s2 : HlBlockExecutor m)
      → block.gas_limit < 2 ^ 64
      → All (IsSystem m) systems
      → All (IsOrdinary m) ordinaries
      → Executed m (new m block db) systems s1
      → Executed m s1 ordinaries s2
      → (length s2.receipts ≡ length systems + length ordinaries)
        × (keep shows_gas s2.receipts ≡ drop (length systems) s2.receipts)
        × (last_gas 0 s2.receipts ≡ s2.gas_used)
        × (s2.gas_used ≤ block.gas_limit)
  unfolding new
  Executed-receipts systems ordinaries s1 s2 h sys ord r1 r2 =
      let s0 = new m block db in
      let (zero_gas, same_block, (new1, grown1, count1, kept1)) =
        Executed-system m systems s0 s1 sys refl r1 in
      let limit64 = subst (λ b. b.gas_limit < 2 ^ 64) (sym same_block) h in
      let ((limit, _), same, (new2, grown2, count2, kept2)) =
        Executed-ordinary m ordinaries s1 s2 ord (omega (arith, zero_gas), limit64) r2 in
      let whole = grown2 ∙ ap (λ l. l ++ new2) grown1 in
      (
        rw (whole, length-append new1 new2) (omega (arith, count1, count2)),
        rw (whole, keep-append m new1 new2, kept1, kept2, sym count1) (sym (drop-append new1 new2)),
        Executed-last m ordinaries s1 s2 (Executed-last m systems s0 s1 refl r1) r2,
        subst (λ b. s2.gas_used ≤ b.gas_limit) (same ∙ same_block) limit,
      )

  -- From Byzantium on, when a block is accepted whose system transactions were executed before its
  -- ordinary ones, under a gas limit that is a `u64`, its header shows the gas that the executor
  -- counted, and the root and the bloom of the receipts past those of the system transactions.
  pub accepted-ordinary :
      (rules : PostRules) (header : PostHeader) (requests : rules.Requests)
      (systems ordinaries : List (TransactionSigned a.kinds)) (s1 s2 : HlBlockExecutor m)
      → block.gas_limit < 2 ^ 64
      → All (IsSystem m) systems
      → All (IsOrdinary m) ordinaries
      → Executed m (new m block db) systems s1
      → Executed m s1 ordinaries s2
      → rules.is_byzantium_active_at_block header.number ≡ true
      → validate_block_post_execution rules header s2.receipts requests ≡ ok tt
      → (header.gas_used ≡ s2.gas_used)
        × (header.receipts_root ≡ rules.calculate_receipt_root (drop (length systems) s2.receipts))
        × (header.logs_bloom ≡ fold_bloom rules 0 (drop (length systems) s2.receipts))
  accepted-ordinary rules header requests systems ordinaries s1 s2 h sys ord r1 r2 active v =
      let (_, kept, last, _) = Executed-receipts systems ordinaries s1 s2 h sys ord r1 r2 in
      let (gas, root, bloom) = accepted-roots rules header s2.receipts requests active v in
      (
        gas ∙ last,
        root ∙ ap rules.calculate_receipt_root kept,
        bloom ∙ ap (fold_bloom rules 0) kept,
      )
