-- ===== src/Migrate/HeaderLaws.antt =====
-- A migrated header is the header that the node makes of a delivered block itself.
use nanoreth.Prelude.{
  ℕ, ◌≡◌, ◌≢◌, refl, sym, ap, ◌∙◌, List, [], ◌∷◌, ◌++◌, map, arith, All, length, keep, length-map,
}
use nanoreth.Primitives.{Alloy, HlBlock}
use nanoreth.Types.Compat.{BlockAndReceipts}
use nanoreth.Types.Convert.{SpotState, done, has_receipt, to_reth_block}
use nanoreth.Types.RoundTrip.{converted, kept_receipts-keep, node_receipts}
use nanoreth.Types.RoundTrip.Signing.{IsSystemTx}
use nanoreth.Types.RoundTrip.Converted.{kept_receipts}
use nanoreth.Types.Receipts.{LegacyReceipt, to_receipt}
use nanoreth.Migrate.{counts_no_gas, to_hl_header}

abbrev pub CountsNoGas : LegacyReceipt → Type 0
CountsNoGas r = r.cumulative_gas_used ≡ 0

abbrev pub CountsGas : LegacyReceipt → Type 0
CountsGas r = r.cumulative_gas_used ≢ 0

keep-none :
    (rs : List LegacyReceipt) → All CountsGas rs → keep counts_no_gas (map to_receipt rs) ≡ []
unfolding to_receipt
keep-none [] h = refl
keep-none (r ∷ rs) h = ground (arith, h.0, keep-none rs h.1)

keep-system :
    (ss rs : List LegacyReceipt)
    → All CountsNoGas ss
    → All CountsGas rs
    → keep counts_no_gas (map to_receipt ss ++ map to_receipt rs) ≡ map to_receipt ss
unfolding to_receipt
keep-system [] rs h k = keep-none rs k
keep-system (s ∷ ss) rs h k = ground (arith, h.0, keep-system ss rs h.1 k)

-- The migration of a block's old header and its stored receipts gives the very header that the node
-- makes when it converts the delivered block. The system transactions are free of gas and their
-- given senders are addresses of 20 bytes; of the receipts exactly those of the system transactions
-- count no gas.
pub to_hl_header-to_reth_block :
    (a : Alloy) (b : BlockAndReceipts a) (chain_id : ℕ) (st st' : SpotState) (hb : HlBlock a)
    → All IsSystemTx b.system_txs
    → to_reth_block b chain_id st ≡ done (hb, st')
    → All CountsNoGas (kept_receipts b.system_txs)
    → All CountsGas b.receipts
    → to_hl_header (node_receipts b) b.block.header.header ≡ hb.header
unfolding to_hl_header
to_hl_header-to_reth_block a b chain_id st st' hb ok e free paid =
    let (xs, rs, c, shape) = converted a b chain_id st st' hb ok e in
    let kept : rs ≡ kept_receipts b.system_txs = c.receipts ∙ kept_receipts-keep b.system_txs in
    let count : length (kept_receipts b.system_txs) ≡ length (keep has_receipt b.system_txs) =
      ap length (sym kept) ∙ c.receipts_count in
    rw
      (
        keep-system (kept_receipts b.system_txs) b.receipts free paid,
        length-map to_receipt (kept_receipts b.system_txs),
        count,
        shape,
        kept,
      )
      refl
