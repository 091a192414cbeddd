-- ===== src/Tests/Types.antt =====
-- Runs of the conversion of blocks and of the senders.
use nanoreth.Prelude.{
  ℕ, ◌≡◌, refl, [], ◌∷◌, map, none, some, arith, All, length, lookup, or_else, insert,
}
use nanoreth.Primitives.{HlBlock, TransactionSigned as TxSigned, from_ethereum_header}
use nanoreth.Primitives.Sender.{address_to_s, recover_signer, spot_to_s}
use nanoreth.SpotMeta.{
  SpotMap, insert_tokens, insert_contract, patch_testnet_spot_meta, collect_manual_overrides,
  apply_overrides, erc20_contract_to_spot_token,
}
use nanoreth.SpotMeta.Precedence.{
  to_spot, last_env, patch_index, last_token, lookup-erc20_contract_to_spot_token,
}
use nanoreth.Types.Compat.{SystemTx, to_reth_transaction, number}
use nanoreth.Types.Receipts.{to_receipt}
use nanoreth.Types.RoundTrip.Converted.{kept_receipts}
use nanoreth.Types.RoundTrip.Signing.{IsSystemTx}
use nanoreth.Types.Convert.{
  done, convert_system_txs, convert_system_tx, sign_system_tx, synthetic_s, fallback_s,
  unwrap_receipts, synthetic_signature, spot_loop, to_reth_block, system_tx_to_reth_transaction,
}
use nanoreth.Types.FromDb.{from_db}
use nanoreth.Types.RoundTrip.{from_db-to_reth_block, node_receipts, to_reth_block-from_db}
use nanoreth.Types.Senders.{expected_sender, system_tx_to_reth_transaction-sender}
use nanoreth.Types.Patch.{in_recovery_set, recover_testnet_system_tx_sender}
use nanoreth.Tests.Samples.{
  a_log, alloy, block_at, legacy_receipt, cold, kinds, system_tx, token_tx, tokens, warm,
}

abbrev signed_as : ℕ → TxSigned kinds
signed_as s = TxSigned.legacy (record { tx = token_tx; signature = synthetic_signature s })

-- The sample block as the node stores it.
abbrev pub stored_block : HlBlock alloy
stored_block = record {
  header =
      from_ethereum_header (5, 999)
        (map to_receipt (legacy_receipt 0 (a_log ∷ []) ∷ legacy_receipt 21000 [] ∷ [])) 1;
  body = record {
    inner = record {
      transactions = signed_as 77 ∷ map to_reth_transaction (block_at 5).block.body.transactions;
      ommers = [];
      withdrawals = none;
    };
    sidecars = none;
    read_precompile_calls = some [];
    highest_precompile_address = none;
  };
}

pub stored : to_reth_block (block_at 5) 999 (cold []) ≡ done (stored_block, cold [])
unfolding to_reth_block convert_system_txs system_tx_to_reth_transaction convert_system_tx
    sign_system_tx synthetic_s unwrap_receipts address_to_s number
stored = refl

pub senders : All IsSystemTx (block_at 5).system_txs
senders = ((refl, omega arith), ((refl, tt), tt))

to_reth_block-from_db_example :
    to_reth_block (from_db stored_block (node_receipts (block_at 5))) 998 warm
    ≡ done (stored_block, warm)
to_reth_block-from_db_example =
    to_reth_block-from_db alloy (block_at 5) 999 (cold []) (cold []) stored_block senders stored 998
      warm

from_db-to_reth_block_example :
    let back = from_db stored_block (node_receipts (block_at 5)) in
    (back.block.header.header ≡ (5, 999))
    × (back.block.body.transactions ≡ (block_at 5).block.body.transactions)
    × (back.block.body.withdrawals ≡ none)
    × (back.receipts ≡ (block_at 5).receipts)
    × (kept_receipts back.system_txs ≡ kept_receipts (block_at 5).system_txs)
    × (length back.system_txs ≡ 1)
    × (back.read_precompile_calls ≡ [])
    × (back.highest_precompile_address ≡ none)
from_db-to_reth_block_example =
    from_db-to_reth_block alloy (block_at 5) 999 (cold []) (cold []) stored_block senders stored

abbrev nameless : SystemTx kinds
nameless = record system_tx { from = none }

token_spot :
    system_tx_to_reth_transaction nameless 999 5 warm ≡ done (signed_as (spot_to_s 6), warm)
unfolding system_tx_to_reth_transaction convert_system_tx sign_system_tx synthetic_s fallback_s
    spot_loop recover_testnet_system_tx_sender in_recovery_set lookup
token_spot = refl

system_tx_to_reth_transaction-sender_example :
    recover_signer alloy (signed_as (spot_to_s 6))
    ≡ expected_sender none
        (recover_testnet_system_tx_sender 999 5 40 nameless.receipt)
        (1 ∷ [])
        (lookup 40 warm.spot_evm_map)
system_tx_to_reth_transaction-sender_example =
    system_tx_to_reth_transaction-sender alloy nameless token_tx 40 999 5 warm warm
      (signed_as (spot_to_s 6)) refl refl refl tt token_spot

abbrev spot_map : SpotMap
spot_map = (40, record { index = 6 }) ∷ []

given : erc20_contract_to_spot_token 999 (some tokens) [] [] ≡ some spot_map
unfolding erc20_contract_to_spot_token insert_tokens insert_contract insert patch_testnet_spot_meta
    collect_manual_overrides apply_overrides
given = refl

lookup-erc20_contract_to_spot_token_example :
    lookup 40 spot_map
    ≡ to_spot (
        or_else
          (last_env 40 [])
          (or_else (lookup 40 []) (or_else (patch_index 999 40) (last_token 40 tokens.tokens))))
lookup-erc20_contract_to_spot_token_example =
    lookup-erc20_contract_to_spot_token 999 40 tokens [] [] spot_map tt given
