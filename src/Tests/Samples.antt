-- ===== src/Tests/Samples.antt =====
-- An Ethereum of small numbers, a block with a system transaction, and maps as lists.
use nanoreth.Prelude.{
  ℕ, ◌≡◌, ◌≢◌, ◌⊎◌, inr, refl, ◌&&◌, true, List, [], ◌∷◌, Option, none, some, arith, leb, ◌==◌,
  if◌then◌else◌, length,
}
use nanoreth.Primitives.{Alloy, EthereumReceipt, Kinds, Log, Signature, TxKind, TxLegacy, TxType}
use nanoreth.Types.Receipts.{LegacyReceipt, LegacyTxType}
use nanoreth.Types.Compat.{BlockAndReceipts, SystemTx, Transaction}
use nanoreth.Types.Convert.{Fetch, SpotState}
use nanoreth.SpotMeta.{SpotMeta}
use nanoreth.PseudoPeer.Caches.{LruMap, RangeInclusiveMap}

abbrev pub kinds : Kinds
kinds = record {
  TxEip2930 = ℕ;
  TxEip1559 = ℕ;
  TxEip4844 = ℕ;
  TxEip7702 = ℕ;
  gas_price_2930 = λ t. t;
  gas_limit_2930 = λ t. t;
  gas_limit_1559 = λ t. t;
  gas_limit_4844 = λ t. t;
  gas_limit_7702 = λ t. t;
}

abbrev pub alloy : Alloy
alloy = record {
  kinds = kinds;
  Header = ℕ × ℕ;
  Bloom = ℕ;
  Withdrawals = Unit {0};
  Sidecar = Unit {0};
  number = λ h. h.0;
  parent_hash = λ h. h.1;
  hash_slow = λ h. h.0;
  logs_bloom = λ logs. length logs;
  recover_signer = λ _. some 7;
}

abbrev pub a_log : Log
a_log = record { address = 5; topics = []; payload = [] }

abbrev pub token_tx : TxLegacy
token_tx = record {
  chain_id = none;
  nonce = 3;
  gas_price = 0;
  gas_limit = 100;
  to = TxKind.call 40;
  value = 0;
  input = 1 ∷ [];
}

abbrev pub paid_tx : TxLegacy
paid_tx = record token_tx { gas_price = 9; to = TxKind.call 41 }

abbrev pub legacy_receipt : ℕ → List Log → LegacyReceipt
legacy_receipt gas logs = record {
  tx_type = LegacyTxType.legacy;
  success = true;
  cumulative_gas_used = gas;
  logs = logs;
}

abbrev pub receipt_of : ℕ → List Log → EthereumReceipt
receipt_of gas logs = record {
  tx_type = TxType.legacy;
  success = true;
  cumulative_gas_used = gas;
  logs = logs;
}

abbrev pub system_tx : SystemTx kinds
system_tx = record {
  tx = Transaction.legacy token_tx;
  receipt = some (legacy_receipt 0 (a_log ∷ []));
  from = some 77;
}

abbrev pub dropped_tx : SystemTx kinds
dropped_tx = record { tx = Transaction.legacy token_tx; receipt = none; from = none }

abbrev a_signature : Signature
a_signature = record { r = 11; s = 12; y_parity = true }

abbrev pub block_at : ℕ → BlockAndReceipts alloy
block_at n = record {
  block = record {
    header = record { hash = 1000; header = (n, 999) };
    body = record {
      transactions =
          record { signature = a_signature; transaction = Transaction.legacy paid_tx } ∷ [];
      ommers = [];
      withdrawals = none;
    };
  };
  receipts = legacy_receipt 21000 [] ∷ [];
  system_txs = system_tx ∷ dropped_tx ∷ [];
  read_precompile_calls = [];
  highest_precompile_address = none;
}

abbrev pub tokens : SpotMeta
tokens = record {
  tokens = record { index = 6; evm_contract = some (record { address = 40 }) } ∷ [];
}

abbrev pub cold : List Fetch → SpotState
cold fetches = record {
  spot_evm_map = [];
  db_open = true;
  stored = [];
  manual = [];
  env = [];
  fetches = fetches;
}

abbrev pub warm : SpotState
warm = record (cold []) { spot_evm_map = (40, record { index = 6 }) ∷ [] }

module _ {V : Type 0} where
  abbrev pub first_entry : ℕ → List (ℕ × V) → Option V
  first_entry k [] = none
  first_entry k ((j, v) ∷ m) = if j == k then some v else first_entry k m

  pub get-insert_ne :
      (k j : ℕ) (v : V) (m : List (ℕ × V))
      → k ≢ j
      → (first_entry j ((k, v) ∷ m) ≡ none) ⊎ (first_entry j ((k, v) ∷ m) ≡ first_entry j m)
  get-insert_ne k j v m h = inr (ground (arith, h))

  pub get-insert_self : (k : ℕ) (v : V) (m : List (ℕ × V)) → first_entry k ((k, v) ∷ m) ≡ some v
  get-insert_self k v m = ground arith

  abbrev pub range_entry : ℕ → List ((ℕ × ℕ) × V) → Option V
  range_entry h [] = none
  range_entry h ((r, v) ∷ m) = if leb r.0 h && leb h r.1 then some v else range_entry h m

abbrev pub lru_of : (V : Type 0) → LruMap V
lru_of V = record {
  Map = List (ℕ × V);
  empty = [];
  get = λ k m. (first_entry k m, m);
  insert = λ k v m. (k, v) ∷ m;
  get-empty = λ k. refl;
  get-insert_self = get-insert_self;
  get-insert_ne = get-insert_ne;
  get-get = λ k j m. refl;
}

abbrev pub ranges_of : (V : Type 0) → RangeInclusiveMap V
ranges_of V = record {
  Map = List ((ℕ × ℕ) × V);
  empty = [];
  get = range_entry;
  insert = λ r v m. (r, v) ∷ m;
  get-empty = λ h. refl;
  get-insert = λ r v m h p. refl;
}
