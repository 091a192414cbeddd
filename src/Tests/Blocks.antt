-- ===== src/Tests/Blocks.antt =====
-- Runs of the compliant answers about a block and its logs, on the block of three transactions.
use nanoreth.Prelude.{ℕ, ◌≡◌, refl, true, false, List, [], ◌∷◌, ◌++◌, Option, none, some, ok, arith}
use nanoreth.Primitives.{EthereumReceipt, Log, gas_price, is_system_transaction}
use nanoreth.Compliance.Inputs.{number_from}
use nanoreth.Compliance.Query.{is_hl_compliant}
use nanoreth.Compliance.Logs.{RpcLog, receipts_of}
use nanoreth.Compliance.Blocks.{
  Block, BlockTransactions, Stock, block_by_id, block_receipts, block_transaction_count, full,
}
use nanoreth.Compliance.BlockLaws.{compliant_answers_agree, number_txs}
use nanoreth.Compliance.Streams.{
  FilterChanges, Params, SubscriptionKind, filter_changes, piped, served_logs, subscribe,
}
use nanoreth.Compliance.StreamLaws.{compliant_logs, number_logs}
use nanoreth.Tests.Compliance.{block, eth, info, reg, stored, sys}
use nanoreth.Tests.Evm.{ordinary, system}

abbrev answer : List ℕ → BlockTransactions ℕ
answer bodies = full (number_txs 0 bodies)

abbrev stock : Stock eth
stock = record {
  Body = ℕ;
  Head = Unit {0};
  block_by_id = λ id is_full.
      ok (some (record { number = 1; header = tt; transactions = answer (0 ∷ 1 ∷ 2 ∷ []) }));
  transaction_count = λ id. ok (some 3);
  has_block = λ id. ok true;
  block_receipts = λ id. ok none;
  transaction_receipt = λ hash. ok none;
  recovered_block = λ id. ok (
      some
        (info, record { tx = system; tx_hash = 0 } ∷ record { tx = ordinary; tx_hash = 1 } ∷ []));
  fill = λ tx i. ok (record { transaction_index = some i.index; body = tx.tx_hash });
}

abbrev whole : Block eth stock
whole = record { number = 1; header = tt; transactions = answer (0 ∷ 1 ∷ 2 ∷ []) }

compliant : is_hl_compliant (some true) true ≡ true
unfolding is_hl_compliant
compliant = refl

compliant_answers_agree_example :
    (block_by_id eth stock (some true) true 1 true
      ≡ ok (some (record { number = 1; header = tt; transactions = answer (1 ∷ 2 ∷ []) })))
    × (block_transaction_count eth stock (some true) true 1 ≡ ok (some 2))
    × (block_receipts eth stock (some true) true 1 ≡ ok (some (number_from info 0 0 0 reg)))
unfolding number_from
compliant_answers_agree_example =
    compliant_answers_agree eth stock 1 block sys reg stored whole (0 ∷ []) (1 ∷ 2 ∷ []) refl refl
      stored.header_found (omega arith) (some true) true compliant (number_from info 0 0 0 reg) refl
      refl refl refl

abbrev payload : Log → List ℕ
payload l = l.payload

abbrev all_logs_of : ℕ → List RpcLog
all_logs_of filter = number_logs payload 5 0 0 (sys ++ reg)

abbrev receipts_by_block : ℕ → Option (List EthereumReceipt)
receipts_by_block n = some (receipts_of (sys ++ reg))

compliant_logs_example :
    (served_logs receipts_by_block (some true) true {E = Unit {0}} (ok (all_logs_of 9))
      ≡ ok (number_logs payload 5 0 0 reg))
    × (filter_changes receipts_by_block
          (some true)
          true
          {E = Unit {0}}
          {T = ℕ}
          (ok (FilterChanges.logs (all_logs_of 9)))
        ≡ ok (FilterChanges.logs (number_logs payload 5 0 0 reg)))
    × (subscribe receipts_by_block
          (some true)
          true
          all_logs_of
          0
          SubscriptionKind.logs
          (some (Params.logs 9))
        ≡ piped (number_logs payload 5 0 0 reg))
compliant_logs_example =
    compliant_logs payload 5 receipts_by_block sys reg stored.free stored.paid refl (omega arith)
      (some true) true {E = Unit {0}} {R = ℕ} all_logs_of 9 0 compliant refl

system_is : is_system_transaction system ≡ true
unfolding is_system_transaction gas_price
system_is = refl

ordinary_is : is_system_transaction ordinary ≡ false
unfolding is_system_transaction gas_price
ordinary_is = refl
