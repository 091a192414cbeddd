-- ===== src/Types/RoundTrip/Signing.antt =====
-- What `system_tx_to_reth_transaction` makes of one system transaction.
use nanoreth.Prelude.{
  ℕ, ◌≡◌, ◌<◌, refl, inl, inr, Bool-cases, Option-cases, List, [], ◌∷◌, Option, none, some, arith,
  lookup, subst,
}
use nanoreth.Primitives.{
  Alloy, EthereumReceipt, Kinds, TransactionSigned as TxSigned, TxKind, TxLegacy,
}
use nanoreth.Primitives.Sender.{
  address_limit, IsSynthetic, address_to_s-IsSynthetic, one-IsSynthetic, spot_to_s-IsSynthetic,
}
use nanoreth.Types.Compat.{SystemTx, Transaction}
use nanoreth.Types.Patch.{recover_testnet_system_tx_sender, recover-some}
use nanoreth.Types.FromDb.{from_db_system_tx}
use nanoreth.Types.Convert.{
  Fetch, Outcome, SpotState, convert_system_tx, done, fallback_s, fetch_spot_map, is_empty,
  sign_system_tx, spot_loop, synthetic_s, synthetic_signature, system_tx_to_reth_transaction,
  then_run,
}

abbrev pub FreeTx : {k : Kinds} → Transaction k → Type 0
FreeTx (Transaction.legacy tx) = tx.gas_price ≡ 0
FreeTx _ = Unit {0}

abbrev pub IsAddress? : Option ℕ → Type 0
IsAddress? none = Unit {0}
IsAddress? (some addr) = addr < address_limit

-- A system transaction as hl-node sends it: it costs no gas, and its sender, if given, is an
-- address of 20 bytes.
abbrev pub IsSystemTx : {k : Kinds} → SystemTx k → Type 0
IsSystemTx t = FreeTx t.tx × IsAddress? t.from

pub then_run-eq-done :
    {A B : Type 0} (m : Outcome (A × SpotState)) (f : A → SpotState → Outcome (B × SpotState))
    {r : B × SpotState}
    → then_run m f ≡ done r
    → (x : A) × (st : SpotState) × (m ≡ done (x, st)) × (f x st ≡ done r)
then_run-eq-done (done (x, st)) f e = (x, st, refl, e)
then_run-eq-done Outcome.waiting f e = cc
then_run-eq-done Outcome.unexpected_type f e = cc
then_run-eq-done Outcome.unexpected_creation f e = cc
then_run-eq-done Outcome.fetch_failed f e = cc
then_run-eq-done Outcome.unwrap_none f e = cc

pub spot_loop-IsSynthetic :
    (chain_id to : ℕ) (fs : List Fetch) (st st' : SpotState) (s : ℕ)
    → spot_loop chain_id to fs st ≡ done (s, st')
    → IsSynthetic s
unfolding spot_loop
spot_loop-IsSynthetic chain_id to [] st st' s e = elim (Option-cases (lookup to st.spot_evm_map)) [
  | inl miss ↦ absurd (ground arith)
  | inr (spot, hit) ↦ ground (arith, spot_to_s-IsSynthetic spot.index)
]
spot_loop-IsSynthetic chain_id to (f ∷ fs) st st' s e =
    elim (Option-cases (lookup to st.spot_evm_map)) [
      | inr (spot, hit) ↦ ground (arith, spot_to_s-IsSynthetic spot.index)
      | inl miss ↦ elim (Option-cases (fetch_spot_map chain_id f st)) [
        | inl failed ↦ absurd (ground arith)
        | inr (next, got) ↦ spot_loop-IsSynthetic chain_id to fs next st' s (ground arith)
      ]
    ]

fallback_s-IsSynthetic :
    {k : Kinds} (t : SystemTx k) (tx : TxLegacy) (to chain_id n : ℕ) (st st' : SpotState) (s : ℕ)
    → fallback_s t tx to chain_id n st ≡ done (s, st')
    → IsSynthetic s
unfolding fallback_s
fallback_s-IsSynthetic t tx to chain_id n st st' s e =
    elim (Option-cases (recover_testnet_system_tx_sender chain_id n to t.receipt)) [
      | inr (sender, hit) ↦
          let (_, _, _, _, _, _, _, _, small) = recover-some chain_id n to sender t.receipt hit in
          ground (arith, address_to_s-IsSynthetic sender)
      | inl miss ↦ elim (Bool-cases (is_empty tx.input)) [
        | inl native ↦ ground (arith, one-IsSynthetic)
        | inr token ↦ spot_loop-IsSynthetic chain_id to st.fetches st st' s (ground arith)
      ]
    ]

synthetic_s-IsSynthetic :
    {k : Kinds} (t : SystemTx k) (tx : TxLegacy) (to chain_id n : ℕ) (st st' : SpotState) (s : ℕ)
    → IsAddress? t.from
    → synthetic_s t tx to chain_id n st ≡ done (s, st')
    → IsSynthetic s
unfolding synthetic_s
synthetic_s-IsSynthetic t tx to chain_id n st st' s small e = elim (Option-cases t.from) [
  | inl absent ↦ fallback_s-IsSynthetic t tx to chain_id n st st' s (ground arith)
  | inr (sender, given) ↦
      ground (arith, address_to_s-IsSynthetic sender (subst IsAddress? given small))
]

-- What comes out: the same legacy call, signed with an `s` that encodes its own sender.
pub record IsSigned {k : Kinds} (t : SystemTx k) (x : TxSigned k) : Type 0 where
  pub tx : TxLegacy
  pub to : ℕ
  pub s : ℕ
  pub is_legacy : t.tx ≡ Transaction.legacy tx
  pub is_call : tx.to ≡ TxKind.call to
  pub output : x ≡ TxSigned.legacy (record { tx = tx; signature = synthetic_signature s })
  pub encoded : IsSynthetic s

sign_system_tx-done :
    {k : Kinds} (t : SystemTx k) (tx : TxLegacy) (kind : TxKind) (chain_id n : ℕ)
    (st st' : SpotState) (x : TxSigned k)
    → IsAddress? t.from
    → t.tx ≡ Transaction.legacy tx
    → tx.to ≡ kind
    → sign_system_tx t tx kind chain_id n st ≡ done (x, st')
    → IsSigned t x
unfolding sign_system_tx
sign_system_tx-done t tx TxKind.create chain_id n st st' x small l c e = absurd (cc)
sign_system_tx-done t tx (TxKind.call to) chain_id n st st' x small l c e =
    let (s, mid, got, last) = then_run-eq-done (synthetic_s t tx to chain_id n st) _ e in
    record {
      tx = tx;
      to = to;
      s = s;
      is_legacy = l;
      is_call = c;
      output = ground arith;
      encoded = synthetic_s-IsSynthetic t tx to chain_id n st mid s small got;
    }

convert_system_tx-done :
    {k : Kinds} (t : SystemTx k) (tr : Transaction k) (chain_id n : ℕ) (st st' : SpotState)
    (x : TxSigned k)
    → IsAddress? t.from
    → t.tx ≡ tr
    → convert_system_tx t tr chain_id n st ≡ done (x, st')
    → IsSigned t x
unfolding convert_system_tx
convert_system_tx-done t (Transaction.legacy tx) chain_id n st st' x small l e =
    sign_system_tx-done t tx tx.to chain_id n st st' x small l refl e
convert_system_tx-done t _ chain_id n st st' x small l e = absurd (cc)

pub system_tx_to_reth_transaction-IsSigned :
    {k : Kinds} (t : SystemTx k) (chain_id n : ℕ) (st st' : SpotState) (x : TxSigned k)
    → IsAddress? t.from
    → system_tx_to_reth_transaction t chain_id n st ≡ done (x, st')
    → IsSigned t x
unfolding system_tx_to_reth_transaction
system_tx_to_reth_transaction-IsSigned t chain_id n st st' x small e =
    convert_system_tx-done t t.tx chain_id n st st' x small refl e

sign_again_legacy :
    (a : Alloy) (tx : TxLegacy) (to s : ℕ) (r : EthereumReceipt) (chain_id n : ℕ) (st : SpotState)
    → tx.gas_price ≡ 0
    → tx.to ≡ TxKind.call to
    → IsSynthetic s
    → let x : TxSigned a.kinds =
        TxSigned.legacy (record { tx = tx; signature = synthetic_signature s }) in
      system_tx_to_reth_transaction (from_db_system_tx a x r) chain_id n st ≡ done (x, st)
unfolding system_tx_to_reth_transaction from_db_system_tx
sign_again_legacy a tx to s r chain_id n st free kind encoded = ground arith

-- Signed once, read back by `from_db_system_tx`, and signed again: the same transaction, with no
-- look at the spot metadata.
pub sign_again :
    (a : Alloy) (t : SystemTx a.kinds) (x : TxSigned a.kinds) (r : EthereumReceipt) (chain_id n : ℕ)
    (st : SpotState)
    → FreeTx t.tx
    → IsSigned t x
    → system_tx_to_reth_transaction (from_db_system_tx a x r) chain_id n st ≡ done (x, st)
sign_again a t x r chain_id n st free g = rw g.output (
    sign_again_legacy a g.tx g.to g.s r chain_id n st (subst FreeTx g.is_legacy free) g.is_call
      g.encoded)
