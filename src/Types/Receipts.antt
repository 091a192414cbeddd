-- ===== src/Types/Receipts.antt =====
-- src/node/types/mod.rs: `LegacyReceipt` and its conversions.
use nanoreth.Prelude.{ℕ, ◌≡◌, refl, Bool, List, [], ◌∷◌, map}
use nanoreth.Primitives.{EthereumReceipt, Log, TxType}

pub data LegacyTxType : Type 0 where
  legacy eip2930 eip1559 eip4844 eip7702 : LegacyTxType

pub record LegacyReceipt : Type 0 where
  pub tx_type : LegacyTxType
  pub success : Bool
  pub cumulative_gas_used : ℕ
  pub logs : List Log

unfoldable pub to_tx_type : LegacyTxType → TxType
to_tx_type LegacyTxType.legacy = TxType.legacy
to_tx_type LegacyTxType.eip2930 = TxType.eip2930
to_tx_type LegacyTxType.eip1559 = TxType.eip1559
to_tx_type LegacyTxType.eip4844 = TxType.eip4844
to_tx_type LegacyTxType.eip7702 = TxType.eip7702

unfoldable pub to_legacy_tx_type : TxType → LegacyTxType
to_legacy_tx_type TxType.legacy = LegacyTxType.legacy
to_legacy_tx_type TxType.eip2930 = LegacyTxType.eip2930
to_legacy_tx_type TxType.eip1559 = LegacyTxType.eip1559
to_legacy_tx_type TxType.eip4844 = LegacyTxType.eip4844
to_legacy_tx_type TxType.eip7702 = LegacyTxType.eip7702

-- `From<LegacyReceipt> for EthereumReceipt`.
unfoldable pub to_receipt : LegacyReceipt → EthereumReceipt
to_receipt r = record {
  tx_type = to_tx_type r.tx_type;
  success = r.success;
  cumulative_gas_used = r.cumulative_gas_used;
  logs = r.logs;
}

-- `From<EthereumReceipt> for LegacyReceipt`.
unfoldable pub to_legacy_receipt : EthereumReceipt → LegacyReceipt
to_legacy_receipt r = record {
  tx_type = to_legacy_tx_type r.tx_type;
  success = r.success;
  cumulative_gas_used = r.cumulative_gas_used;
  logs = r.logs;
}

tx_type_round_trip : (t : LegacyTxType) → to_legacy_tx_type (to_tx_type t) ≡ t
unfolding to_tx_type to_legacy_tx_type
tx_type_round_trip LegacyTxType.legacy = refl
tx_type_round_trip _ = refl

pub receipt_round_trip : (r : LegacyReceipt) → to_legacy_receipt (to_receipt r) ≡ r
unfolding to_receipt to_legacy_receipt
receipt_round_trip r = λ i. record {
  tx_type = tx_type_round_trip r.tx_type i;
  success = r.success;
  cumulative_gas_used = r.cumulative_gas_used;
  logs = r.logs;
}

pub receipts_round_trip : (rs : List LegacyReceipt) → map to_legacy_receipt (map to_receipt rs) ≡ rs
receipts_round_trip [] = refl
receipts_round_trip (r ∷ rs) = λ i. receipt_round_trip r i ∷ receipts_round_trip rs i
