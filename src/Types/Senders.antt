-- ===== src/Types/Senders.antt =====
-- Which sender a converted system transaction has, and when the search for its spot index ends.
use nanoreth.Prelude.{
  ℕ, ◌+◌, ◌*◌, ◌%◌, ◌^◌, ◌≡◌, refl, inl, inr, Bool-cases, Option-cases, List, [], ◌∷◌, Option, none,
  some, arith, if◌then◌else◌, lookup, or_else, subst,
}
use nanoreth.Primitives.{Alloy, Kinds, TransactionSigned as TxSigned, TxKind, TxLegacy}
use nanoreth.Primitives.Sender.{
  hype_system_address, recover_signer, s_to_address, s_to_address-address_to_s, spot_to_s,
}
use nanoreth.SpotMeta.{SpotId}
use nanoreth.Types.Compat.{SystemTx, Transaction}
use nanoreth.Types.Patch.{recover_testnet_system_tx_sender, recover-some}
use nanoreth.Types.Convert.{
  Fetch, SpotState, done, fallback_s, fetch_spot_map, is_empty, sign_system_tx, spot_loop,
  synthetic_s, synthetic_signature, system_tx_to_reth_transaction,
}
use nanoreth.Types.RoundTrip.Signing.{IsAddress?, then_run-eq-done}

-- The sender that stands for a spot index: 0x20, zeros, and the index in eight bytes.
abbrev pub spot_sender : Option SpotId → Option ℕ
spot_sender none = none
spot_sender (some spot) = some (0x20 * 2 ^ 152 + spot.index % 2 ^ 64)

hype_decoded : s_to_address 1 ≡ hype_system_address
unfolding s_to_address
hype_decoded = refl

spot_decoded : (i : ℕ) → s_to_address (spot_to_s i) ≡ 0x20 * 2 ^ 152 + i % 2 ^ 64
unfolding s_to_address spot_to_s
spot_decoded i = ground arith

spot_loop-sender :
    (chain_id to : ℕ) (fs : List Fetch) (st st' : SpotState) (s : ℕ)
    → spot_loop chain_id to fs st ≡ done (s, st')
    → some (s_to_address s) ≡ spot_sender (lookup to st'.spot_evm_map)
unfolding spot_loop
spot_loop-sender chain_id to [] st st' s e = elim (Option-cases (lookup to st.spot_evm_map)) [
  | inl miss ↦ absurd (ground arith)
  | inr (spot, hit) ↦ ground (arith, spot_decoded spot.index)
]
spot_loop-sender chain_id to (f ∷ fs) st st' s e = elim (Option-cases (lookup to st.spot_evm_map)) [
  | inr (spot, hit) ↦ ground (arith, spot_decoded spot.index)
  | inl miss ↦ elim (Option-cases (fetch_spot_map chain_id f st)) [
    | inl failed ↦ absurd (ground arith)
    | inr (next, got) ↦ spot_loop-sender chain_id to fs next st' s (ground arith)
  ]
]

-- What the sender has to be, by falling precedence: the given one, the one in the receipt's log, the
-- HYPE address for a transfer without input, and the token's spot index.
abbrev pub expected_sender : Option ℕ → Option ℕ → List ℕ → Option SpotId → Option ℕ
expected_sender from logged input spot =
    or_else from
      (or_else logged (if is_empty input then some hype_system_address else spot_sender spot))

module _ (k : Kinds) (t : SystemTx k) (tx : TxLegacy) (to chain_id n : ℕ) (st st' : SpotState)
    (s : ℕ) where
  fallback_s-sender :
      fallback_s t tx to chain_id n st ≡ done (s, st')
      → some (s_to_address s)
        ≡ expected_sender none
            (recover_testnet_system_tx_sender chain_id n to t.receipt)
            tx.input
            (lookup to st'.spot_evm_map)
  unfolding fallback_s
  fallback_s-sender e =
      elim (Option-cases (recover_testnet_system_tx_sender chain_id n to t.receipt)) [
        | inr (sender, hit) ↦
            let (_, _, _, _, _, _, _, _, small) = recover-some chain_id n to sender t.receipt hit in
            ground (arith, s_to_address-address_to_s sender)
        | inl miss ↦ elim (Bool-cases (is_empty tx.input)) [
          | inl native ↦ ground (arith, hype_decoded)
          | inr token ↦ ground (arith, spot_loop-sender chain_id to st.fetches st st' s)
        ]
      ]

  synthetic_s-sender :
      IsAddress? t.from
      → synthetic_s t tx to chain_id n st ≡ done (s, st')
      → some (s_to_address s)
        ≡ expected_sender t.from
            (recover_testnet_system_tx_sender chain_id n to t.receipt)
            tx.input
            (lookup to st'.spot_evm_map)
  unfolding synthetic_s
  synthetic_s-sender small e = elim (Option-cases t.from) [
    | inl absent ↦ rw absent (fallback_s-sender (ground arith))
    | inr (sender, given) ↦
        rw given (ground (arith, s_to_address-address_to_s sender (subst IsAddress? given small)))
  ]

sign_system_tx-sender :
    (a : Alloy) (t : SystemTx a.kinds) (tx : TxLegacy) (kind : TxKind) (to chain_id n : ℕ)
    (st st' : SpotState) (x : TxSigned a.kinds)
    → kind ≡ TxKind.call to
    → tx.gas_price ≡ 0
    → IsAddress? t.from
    → sign_system_tx t tx kind chain_id n st ≡ done (x, st')
    → recover_signer a x
      ≡ expected_sender t.from
          (recover_testnet_system_tx_sender chain_id n to t.receipt)
          tx.input
          (lookup to st'.spot_evm_map)
unfolding sign_system_tx recover_signer
sign_system_tx-sender a t tx TxKind.create to chain_id n st st' x kind free small e = cc
sign_system_tx-sender a t tx (TxKind.call to') to chain_id n st st' x kind free small e =
    let (s, mid, got, last) = then_run-eq-done (synthetic_s t tx to' chain_id n st) _ e in
    let signed : x ≡ TxSigned.legacy (record { tx = tx; signature = synthetic_signature s }) =
      ground arith in
    let same : to' ≡ to = ground arith in
    let end : mid ≡ st' = ground arith in
    rw (signed, ← same, ← end)
      (ground (arith, synthetic_s-sender a.kinds t tx to' chain_id n st mid s small got))

-- The sender that the node recovers from a converted call is the one that upstream gives, or else
-- the one in the testnet log, or else the HYPE address if there is no input, or else the one of the
-- token's index in the spot map as it is after the conversion. The call is free of gas, and a given
-- sender has 20 bytes.
pub system_tx_to_reth_transaction-sender :
    (a : Alloy) (t : SystemTx a.kinds) (tx : TxLegacy) (to chain_id n : ℕ) (st st' : SpotState)
    (x : TxSigned a.kinds)
    → t.tx ≡ Transaction.legacy tx
    → tx.to ≡ TxKind.call to
    → tx.gas_price ≡ 0
    → IsAddress? t.from
    → system_tx_to_reth_transaction t chain_id n st ≡ done (x, st')
    → recover_signer a x
      ≡ expected_sender t.from
          (recover_testnet_system_tx_sender chain_id n to t.receipt)
          tx.input
          (lookup to st'.spot_evm_map)
unfolding system_tx_to_reth_transaction
system_tx_to_reth_transaction-sender a t tx to chain_id n st st' x l kind free small e =
    sign_system_tx-sender a t tx tx.to to chain_id n st st' x kind free small (rw l at e)
