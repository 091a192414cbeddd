-- ===== src/Tests/Compliance.antt =====
-- Runs of the compliant answers: a block with one system transaction, of one log, and two others.
use nanoreth.Prelude.{
  ℕ, ◌≡◌, refl, false, List, [], ◌∷◌, ◌++◌, map, none, some, arith, get_elem?, ok,
}
use nanoreth.Primitives.{EthereumReceipt, from_ethereum_header}
use nanoreth.Compliance.{BlockInfo, ConvertReceiptInput, Entry, Eth, LoadedBlock, RecoveredTx}
use nanoreth.Compliance.Inputs.{adjust_inputs, make_input, number_from, zip_receipts}
use nanoreth.Compliance.Receipts.{
  adjust_block_receipts, adjust_transaction_receipt, block_receipts_with_system_txs,
  get_system_txs_receipts_by_block_id,
}
use nanoreth.Compliance.Served.{IsStored, adjust_transaction_receipt-own, receipt_handlers_agree}
use nanoreth.Compliance.Logs.{RpcLog, adjust_log, adjust_log-aligned, receipts_of}
use nanoreth.Compliance.Query.{ampersand, first_hl, join, parse_hl_query, parse_hl_query-first}
use nanoreth.Tests.Samples.{a_log, alloy, receipt_of}

abbrev pub info : BlockInfo
info = record {
  block_hash = 1;
  block_number = 5;
  base_fee = none;
  excess_blob_gas = none;
  timestamp = 0;
}

abbrev pub tx_of : ℕ → RecoveredTx ℕ
tx_of n = record { tx = n; tx_hash = n }

abbrev pub block : LoadedBlock ℕ
block = record { info = info; transactions = tx_of 0 ∷ tx_of 1 ∷ tx_of 2 ∷ [] }

abbrev pub sys : List (Entry ℕ)
sys = (tx_of 0, receipt_of 0 (a_log ∷ [])) ∷ []

abbrev pub reg : List (Entry ℕ)
reg = (tx_of 1, receipt_of 21000 (a_log ∷ [])) ∷ (tx_of 2, receipt_of 50000 (a_log ∷ [])) ∷ []

abbrev pub receipts : List EthereumReceipt
receipts = map (λ e. e.1) (sys ++ reg)

abbrev pub eth : Eth
eth = record {
  alloy = alloy;
  Tx = ℕ;
  RpcReceipt = ConvertReceiptInput ℕ;
  Error = Unit {0};
  header_by_id = λ _. ok (some (from_ethereum_header (5, 999) receipts 1));
  load_block_and_receipts = λ _. ok (some (block, receipts));
  load_transaction = λ h. ok (some (record { block_hash = 1; index = h }));
  convert_receipts = λ xs. ok (map (λ x. x) xs);
}

pub stored : IsStored eth 1 block sys reg
unfolding from_ethereum_header zip_receipts
stored = record {
  header = from_ethereum_header (5, 999) receipts 1;
  receipts = receipts;
  header_found = refl;
  counted = refl;
  loaded = refl;
  entries = refl;
  free = (refl, tt);
  paid = (ground arith, (ground arith, tt));
}

receipt_handlers_agree_example :
    (block_receipts_with_system_txs eth 1
      ≡ ok (
          some (record {
            receipts = map (λ x. x) (number_from info 0 0 0 reg);
            system_tx_receipts = map (λ x. x) (number_from info 0 0 0 sys);
          })))
    × (adjust_block_receipts eth 1 ≡ ok (some (1, map (λ x. x) (number_from info 0 0 0 reg))))
    × (get_system_txs_receipts_by_block_id eth 1
        ≡ ok (some (map (λ x. x) (number_from info 0 0 0 sys))))
receipt_handlers_agree_example =
    receipt_handlers_agree eth 1 block sys reg stored (map (λ x. x) (number_from info 0 0 0 reg))
      (map (λ x. x) (number_from info 0 0 0 sys)) refl refl

adjust_transaction_receipt-own_example :
    adjust_transaction_receipt eth 2
    ≡ ok (some (make_input info 1 21000 1 (tx_of 2, receipt_of 50000 (a_log ∷ []))))
adjust_transaction_receipt-own_example =
    adjust_transaction_receipt-own eth 1 block sys reg stored (λ x. x) (λ xs. refl) 2
      (record { block_hash = 1; index = 2 }) refl refl 1 (tx_of 2, receipt_of 50000 (a_log ∷ []))
      refl refl

abbrev log_at : ℕ → ℕ → RpcLog
log_at tx_idx log_idx = record {
  block_number = some 5;
  transaction_index = some tx_idx;
  log_index = some log_idx;
  body = [];
}

adjust_log-aligned_example :
    (get_elem? (adjust_inputs info 1 0 0 0 (sys ++ reg)) 1
      ≡ some (make_input info 1 21000 1 (tx_of 2, receipt_of 50000 (a_log ∷ []))))
    × (adjust_log (λ _. some (receipts_of (sys ++ reg))) (log_at 2 2) ≡ some (log_at 1 1))
adjust_log-aligned_example =
    adjust_log-aligned (λ _. some (receipts_of (sys ++ reg))) info (log_at 2 2) 5 sys reg
      stored.free stored.paid refl refl 1 0 (tx_of 2, receipt_of 50000 (a_log ∷ [])) refl refl refl
      (omega arith)

-- `a` and then `hl=1`.
parse_hl_query-first_example :
    parse_hl_query (some (join ampersand (97 ∷ []) ((104 ∷ 108 ∷ 61 ∷ 49 ∷ []) ∷ []))) false
    ≡ first_hl ((97 ∷ []) ∷ (104 ∷ 108 ∷ 61 ∷ 49 ∷ []) ∷ []) false
parse_hl_query-first_example =
    parse_hl_query-first (97 ∷ []) ((104 ∷ 108 ∷ 61 ∷ 49 ∷ []) ∷ []) false (ground arith, tt)
      ((ground arith, (ground arith, (ground arith, (ground arith, tt)))), tt)
