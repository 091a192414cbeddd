-- ===== src/Types/Patch.antt =====
-- src/node/types/patch.rs: the real sender of a token's system transaction on testnet, read from
-- the Transfer event in its receipt.
use nanoreth.Prelude.{
  ℕ, ◌%◌, ◌≤◌, ◌<◌, ◌≡◌, ◌≢◌, refl, inl, inr, Bool, not, ◌&&◌, List, [], ◌∷◌, Option, none, some,
  arith, ◌==◌, leb, ltb, if◌then◌else◌, or_else, Option-cases,
}
use nanoreth.Primitives.{Log}
use nanoreth.Primitives.Sender.{address_limit}
use nanoreth.SpotMeta.{sender_recovery_token, testnet_chain_id}
use nanoreth.Types.Receipts.{LegacyReceipt}

abbrev pub erc20_transfer_topic : ℕ
erc20_transfer_topic = 0xddf252ad1be2c89b69c2b068fc378daa952ba7f163c4a11628f55a4df523b3ef

abbrev pub recovery_start : ℕ
recovery_start = 55231857

abbrev pub recovery_end : ℕ
recovery_end = 55432000

-- The second topic of a Transfer event, as an address: its last 20 bytes.
unfoldable pub transfer_sender : List ℕ → Option ℕ
transfer_sender (first ∷ second ∷ topics) =
    if first == erc20_transfer_topic then some (second % address_limit) else none
transfer_sender _ = none

unfoldable pub log_sender : ℕ → Log → Option ℕ
unfolding transfer_sender
log_sender token log = if log.address == token then transfer_sender log.topics else none

-- `find_map` over the logs.
unfoldable pub find_sender : ℕ → List Log → Option ℕ
unfolding log_sender
find_sender token [] = none
find_sender token (log ∷ logs) = or_else (log_sender token log) (find_sender token logs)

unfoldable pub not_one : Option ℕ → Option ℕ
not_one none = none
not_one (some sender) = if sender == 1 then none else some sender

unfoldable pub in_recovery_set : ℕ → ℕ → ℕ → Bool
in_recovery_set chain_id block_number token =
    chain_id == testnet_chain_id
    && leb recovery_start block_number
    && ltb block_number recovery_end
    && token == sender_recovery_token

unfoldable pub sender_of_receipt : ℕ → Option LegacyReceipt → Option ℕ
unfolding not_one
sender_of_receipt token none = none
sender_of_receipt token (some r) = not_one (find_sender token r.logs)

unfoldable pub recover_testnet_system_tx_sender : ℕ → ℕ → ℕ → Option LegacyReceipt → Option ℕ
unfolding in_recovery_set sender_of_receipt
recover_testnet_system_tx_sender chain_id block_number token receipt =
    if not (in_recovery_set chain_id block_number token)
    then none
    else sender_of_receipt token receipt

transfer_sender-lt :
    (topics : List ℕ) (sender : ℕ) → transfer_sender topics ≡ some sender → sender < address_limit
unfolding transfer_sender
transfer_sender-lt (first ∷ second ∷ topics) sender e = ground arith
transfer_sender-lt _ sender e = cc

find_sender-lt :
    (token : ℕ) (logs : List Log) (sender : ℕ)
    → find_sender token logs ≡ some sender
    → sender < address_limit
unfolding find_sender
find_sender-lt token [] sender e = cc
find_sender-lt token (log ∷ logs) sender e =
    grind (arith, transfer_sender-lt log.topics sender, find_sender-lt token logs sender)

-- A recovered sender comes only for testnet, a block in the half-open range, the one token, and a
-- receipt whose logs name it; it is an address of 20 bytes and not 0x00..01.
pub recover-some :
    (chain_id block_number token sender : ℕ) (receipt : Option LegacyReceipt)
    → recover_testnet_system_tx_sender chain_id block_number token receipt ≡ some sender
    → (r : LegacyReceipt) × (receipt ≡ some r)
      × (chain_id ≡ testnet_chain_id)
      × (recovery_start ≤ block_number)
      × (block_number < recovery_end)
      × (token ≡ sender_recovery_token)
      × (find_sender token r.logs ≡ some sender)
      × (sender ≢ 1)
      × (sender < address_limit)
unfolding recover_testnet_system_tx_sender
recover-some chain_id block_number token sender none e = absurd (ground arith)
recover-some chain_id block_number token sender (some r) e =
    elim (Option-cases (find_sender token r.logs)) [
      | inl miss ↦ absurd (ground arith)
      | inr (found, hit) ↦ (
        r,
        refl,
        ground arith,
        ground arith,
        ground arith,
        ground arith,
        ground arith,
        ground arith,
        find_sender-lt token r.logs sender (ground arith),
      )
    ]
