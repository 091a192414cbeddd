-- ===== src/Compliance/BlockLaws.antt =====
-- What the compliant answers about one block have to do with each other.
use nanoreth.Prelude.{
  ok, ℕ, ◌+◌, ◌≤◌, ◌≡◌, ◌^◌, ◌%◌, ◌-◌, refl, ap, ◌∙◌, Bool, true, false, List, [], ◌∷◌, ◌++◌, map,
  Option, some, arith, length, length-append, length-map, drop, All, ltb,
}
use nanoreth.Primitives.{Kinds, TransactionSigned, is_system_transaction}
use nanoreth.Compliance.{BlockInfo, Entry, Eth, LoadedBlock, RecoveredTx}
use nanoreth.Compliance.Inputs.{number_from}
use nanoreth.Compliance.Query.{is_hl_compliant}
use nanoreth.Compliance.Served.{IsStored, adjust_block_receipts_lem}
use nanoreth.Compliance.Receipts.{system_tx_count_for_block}
use nanoreth.Compliance.Blocks.{
  Block, RpcTransaction, Stock, TransactionInfo, adjust_block, adjust_transactions, block_by_id,
  block_receipts, block_transaction_count, drain, full, get_system_txs_by_block_id, info_at,
  lower_index, sub_u256, system_txs,
}

-- The transactions of a block, numbered from `idx`.
unfoldable pub number_txs : {B : Type 0} → ℕ → List B → List (RpcTransaction B)
number_txs idx [] = []
number_txs idx (b ∷ bs) =
    record { transaction_index = some idx; body = b } ∷ number_txs (idx + 1) bs

module _ {B : Type 0} where
  length-number_txs : (idx : ℕ) (bs : List B) → length (number_txs idx bs) ≡ length bs
  unfolding number_txs
  length-number_txs idx [] = refl
  length-number_txs idx (b ∷ bs) = ground (arith, length-number_txs (idx + 1) bs)

  drop-number_txs :
      (idx : ℕ) (as' bs : List B)
      → drop (length as') (number_txs idx (as' ++ bs)) ≡ number_txs (idx + length as') bs
  unfolding number_txs
  drop-number_txs idx [] bs = ap (λ n. number_txs n bs) (omega arith)
  drop-number_txs idx (a ∷ as') bs =
      drop-number_txs (idx + 1) as' bs ∙ ap (λ n. number_txs n bs) (omega arith)

  map-lower_index :
      (count idx : ℕ) (bs : List B)
      → count + idx + length bs ≤ 2 ^ 64
      → map (lower_index count) (number_txs (count + idx) bs) ≡ number_txs idx bs
  unfolding number_txs
  map-lower_index count idx [] h = refl
  map-lower_index count idx (b ∷ bs) h =
      let rest = map-lower_index count (idx + 1) bs (omega (arith, h)) in
      let next : count + idx + 1 ≡ count + (idx + 1) = omega arith in
      let lowered : (count + idx + 2 ^ 64 - count) % 2 ^ 64 ≡ idx = omega (arith, h) in
      rw (next, lowered, rest) refl

  -- Dropping the system transactions and lowering the indices leaves the others numbered from 0.
  adjust_transactions_lem :
      {E : Type 0} (sys reg : List B)
      → length (sys ++ reg) ≤ 2 ^ 64
      → adjust_transactions {E = E} (length sys) (full (number_txs 0 (sys ++ reg)))
        ≡ ok (full (number_txs 0 reg))
  unfolding adjust_transactions drain
  adjust_transactions_lem sys reg h =
      let enough : ltb (length (number_txs 0 (sys ++ reg))) (length sys) ≡ false =
        rw (length-number_txs 0 (sys ++ reg), length-append sys reg) (ground arith) in
      let zero_left : 0 + length sys ≡ length sys + 0 = omega arith in
      rw (enough, drop-number_txs 0 sys reg, zero_left)
        (ap (λ txs. ok (full txs))
          (map-lower_index (length sys) 0 reg (omega (arith, h, length-append sys reg))))

module _ (eth : Eth) (stock : Stock eth) (block_id : ℕ) (loaded : LoadedBlock eth.Tx)
    (sys reg : List (Entry eth.Tx)) (st : IsStored eth block_id loaded sys reg)
    (block : Block eth stock) (sys_bodies reg_bodies : List stock.Body)
    (listed : block.transactions ≡ full (number_txs 0 (sys_bodies ++ reg_bodies)))
    (paired : length sys_bodies ≡ length sys)
    (same : eth.header_by_id block.number ≡ ok (some st.header))
    (small : length (sys_bodies ++ reg_bodies) ≤ 2 ^ 64) where
  adjust_block_lem :
      adjust_block eth stock block
      ≡ ok (some (record block { transactions = full (number_txs 0 reg_bodies) }))
  unfolding adjust_block system_tx_count_for_block
  adjust_block_lem =
      rw
        (
          same,
          st.counted,
          listed,
          ← paired,
          adjust_transactions_lem {E = eth.Error} sys_bodies reg_bodies small,
        )
        refl

  module _ (ext : Option Bool) (default_compliant : Bool)
      (compliant : is_hl_compliant ext default_compliant ≡ true) where
    -- To a compliant request the three answers about a stored block agree: the block lists its
    -- ordinary transactions, numbered as if they were the whole block, the transaction count is
    -- their number, and the receipts are the ordinary ones, numbered alike. The block's system
    -- transactions come first, its header counts them, and reth's own answers are those of the
    -- whole block.
    pub compliant_answers_agree :
        (served : List eth.RpcReceipt)
        → stock.block_by_id block_id true ≡ ok (some block)
        → stock.transaction_count block_id ≡ ok (some (length (sys_bodies ++ reg_bodies)))
        → stock.has_block block_id ≡ ok true
        → eth.convert_receipts (number_from loaded.info 0 0 0 reg) ≡ ok served
        → (block_by_id eth stock ext default_compliant block_id true
            ≡ ok (some (record block { transactions = full (number_txs 0 reg_bodies) })))
          × (block_transaction_count eth stock ext default_compliant block_id
              ≡ ok (some (length reg_bodies)))
          × (block_receipts eth stock ext default_compliant block_id ≡ ok (some served))
    unfolding block_by_id block_transaction_count block_receipts system_tx_count_for_block
    compliant_answers_agree served e f g h =
        let counted : sub_u256 (length (sys_bodies ++ reg_bodies)) (length sys)
            ≡ length reg_bodies =
          omega (arith, small, paired, length-append sys_bodies reg_bodies) in
        (
          rw (e, compliant) adjust_block_lem,
          rw (f, compliant, st.header_found, st.counted, counted) refl,
          rw (g, compliant, adjust_block_receipts_lem eth block_id loaded sys reg st, h) refl,
        )

abbrev pub IsSystem : {k : Kinds} → RecoveredTx (TransactionSigned k) → Type 0
IsSystem tx = is_system_transaction tx.tx ≡ true

abbrev pub IsOrdinary : {k : Kinds} → RecoveredTx (TransactionSigned k) → Type 0
IsOrdinary tx = is_system_transaction tx.tx ≡ false

module _ (eth : Eth) (stock : Stock eth)
    (body : RecoveredTx (TransactionSigned eth.alloy.kinds) → stock.Body)
    (fills : (tx : RecoveredTx (TransactionSigned eth.alloy.kinds)) (info : TransactionInfo)
      → stock.fill tx info ≡ ok (record { transaction_index = some info.index; body = body tx }))
    (info : BlockInfo) where
  system_txs-ordinary :
      (idx : ℕ) (reg : List (RecoveredTx (TransactionSigned eth.alloy.kinds)))
      → All IsOrdinary reg
      → system_txs eth stock info idx reg ≡ []
  unfolding system_txs
  system_txs-ordinary idx [] h = refl
  system_txs-ordinary idx (tx ∷ reg) h = rw (h.0) (system_txs-ordinary (idx + 1) reg h.1)

  system_txs-append :
      (idx : ℕ) (sys reg : List (RecoveredTx (TransactionSigned eth.alloy.kinds)))
      → All IsSystem sys
      → All IsOrdinary reg
      → system_txs eth stock info idx (sys ++ reg) ≡ number_txs idx (map body sys)
  unfolding system_txs number_txs
  system_txs-append idx [] reg h k = system_txs-ordinary idx reg k
  system_txs-append idx (tx ∷ sys) reg h k =
      rw (h.0, fills tx (info_at eth stock info idx tx), system_txs-append (idx + 1) sys reg h.1 k)
        refl

  -- The list of system transactions is what the compliant block leaves out: those that come first
  -- in the block, under the indices that they have there. The block has its system transactions
  -- first, and every transaction converts to an answer with its index; they are at most 2^64.
  pub get_system_txs_by_block_id_lem :
      (block_id : ℕ) (sys reg : List (RecoveredTx (TransactionSigned eth.alloy.kinds)))
      → All IsSystem sys
      → All IsOrdinary reg
      → length (sys ++ reg) ≤ 2 ^ 64
      → stock.recovered_block block_id ≡ ok (some (info, sys ++ reg))
      → (get_system_txs_by_block_id eth stock block_id ≡ ok (some (number_txs 0 (map body sys))))
        × (adjust_transactions {E = eth.Error}
              (length sys)
              (full (number_txs 0 (map body sys ++ map body reg)))
            ≡ ok (full (number_txs 0 (map body reg))))
  unfolding get_system_txs_by_block_id
  get_system_txs_by_block_id_lem block_id sys reg h k small e =
      let fits : length (map body sys ++ map body reg) ≤ 2 ^ 64 =
        rw (length-append (map body sys) (map body reg), length-map body sys, length-map body reg)
          (omega (arith, small, length-append sys reg)) in
      (
        rw (e, system_txs-append 0 sys reg h k) refl,
        rw (← length-map body sys)
            (adjust_transactions_lem {E = eth.Error} (map body sys) (map body reg) fits),
      )
