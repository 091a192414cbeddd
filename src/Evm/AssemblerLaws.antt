-- ===== src/Evm/AssemblerLaws.antt =====
-- A block that is put together can be taken apart.
use nanoreth.Prelude.{
  ℕ, ◌≡◌, refl, ap, true, false, not, List, [], ◌∷◌, ◌++◌, Option, none, keep, All,
}
use nanoreth.Primitives.{
  Alloy, EthereumReceipt, Kinds, TransactionSigned, from_ethereum_header, is_system_transaction,
}
use nanoreth.Types.FromDb.{split_system, split_system-append}
use nanoreth.Evm.Assembler.{BlockEnv, ExecutionCtx, Rules, assemble_block, context_for_block}

keep-system :
    {k : Kinds} (sys ord : List (TransactionSigned k))
    → All (λ t. is_system_transaction t ≡ true) sys
    → All (λ t. is_system_transaction t ≡ false) ord
    → keep is_system_transaction (sys ++ ord) ≡ sys
keep-system [] [] h k = refl
keep-system [] (t ∷ ord) h k = rw (k.0) (keep-system [] ord h k.1)
keep-system (t ∷ sys) ord h k = rw (h.0) (ap (◌∷◌ t) (keep-system sys ord h.1 k))

keep-ordinary :
    {k : Kinds} (sys ord : List (TransactionSigned k))
    → All (λ t. is_system_transaction t ≡ true) sys
    → All (λ t. is_system_transaction t ≡ false) ord
    → keep (λ t. not (is_system_transaction t)) (sys ++ ord) ≡ ord
keep-ordinary [] [] h k = refl
keep-ordinary [] (t ∷ ord) h k = rw (k.0) (ap (◌∷◌ t) (keep-ordinary [] ord h k.1))
keep-ordinary (t ∷ sys) ord h k = rw (h.0) (keep-ordinary sys ord h.1 k)

module _ {a : Alloy} (rules : Rules a) {F : Type 0} (env : BlockEnv) (ctx : ExecutionCtx a F)
    (parent : a.Header) (receipts : List EthereumReceipt) (requests : rules.Requests)
    (gas_used state_root : ℕ) where
  -- In a block that the assembler puts together with its system transactions first, the count in
  -- the header is theirs, so that splitting there, as reading a block from the database does, gives
  -- the system transactions and the others; and the block executes again under the recorded
  -- precompile calls and the address range under which it was built, without a forwarder.
  pub assemble_block-split :
      (sys ord : List (TransactionSigned a.kinds)) (beacon_root : a.Header → Option ℕ)
      → All (λ t. is_system_transaction t ≡ true) sys
      → All (λ t. is_system_transaction t ≡ false) ord
      → let block =
          assemble_block rules env ctx parent (sys ++ ord) receipts requests gas_used state_root in
        let again = context_for_block rules {F = F} beacon_root block in
        (split_system block.header.extras.system_tx_count block.body.inner.transactions
          ≡ (sys, ord))
        × (again.read_precompile_calls ≡ ctx.read_precompile_calls)
        × (again.highest_precompile_address ≡ ctx.highest_precompile_address)
        × (again.read_precompile_forwarder ≡ none)
  unfolding assemble_block context_for_block from_ethereum_header
  assemble_block-split sys ord beacon_root h k =
      (rw (keep-system sys ord h k) (split_system-append sys ord), refl, refl, refl)
