-- ===== src/Evm/Assembler.antt =====
-- src/node/evm/config.rs: `HlBlockAssembler` and the environments and contexts of blocks. What
-- alloy, revm and reth compute, and the hardforks, are fields of `Rules`.
use nanoreth.Prelude.{
  ℕ, ◌-◌, ◌^◌, min, Bool, true, false, not, List, [], ◌∷◌, Option, none, some, length, keep,
  if◌then◌else◌, add_u64,
}
use nanoreth.Primitives.{
  Alloy, EthereumReceipt, HlBlock, ReadPrecompileCalls, TransactionSigned, all_logs,
  from_ethereum_header, is_system_transaction,
}
use nanoreth.Consensus.PostExecution.{shows_gas}

-- revm's `BlockEnv`; a beneficiary, a hash and a price are numbers.
pub record BlockEnv : Type 0 where
  pub number : ℕ
  pub beneficiary : ℕ
  pub timestamp : ℕ
  pub difficulty : ℕ
  pub prevrandao : Option ℕ
  pub gas_limit : ℕ
  pub basefee : ℕ
  pub blob_excess_gas_and_price : Option (ℕ × ℕ)

pub record CfgEnv : Type 0 where
  pub chain_id : ℕ
  pub max_blobs_per_tx : Option ℕ
  pub disable_base_fee : Bool
  pub disable_eip3607 : Bool

pub record EvmEnv : Type 0 where
  pub cfg_env : CfgEnv
  pub block_env : BlockEnv

-- What the code reads of a header.
pub record HeaderView : Type 0 where
  pub number : ℕ
  pub timestamp : ℕ
  pub beneficiary : ℕ
  pub difficulty : ℕ
  pub mix_hash : Option ℕ
  pub gas_limit : ℕ
  pub base_fee_per_gas : Option ℕ
  pub excess_blob_gas : Option ℕ

pub record NextBlockEnvAttributes : Type 0 where
  pub timestamp : ℕ
  pub suggested_fee_recipient : ℕ
  pub prev_randao : ℕ
  pub gas_limit : ℕ

-- alloy's `Header`, as it is put together here.
pub record NewHeader (a : Alloy) : Type 0 where
  pub parent_hash : ℕ
  pub ommers_hash : ℕ
  pub beneficiary : ℕ
  pub state_root : ℕ
  pub transactions_root : ℕ
  pub receipts_root : ℕ
  pub withdrawals_root : Option ℕ
  pub logs_bloom : a.Bloom
  pub timestamp : ℕ
  pub mix_hash : ℕ
  pub nonce : ℕ
  pub base_fee_per_gas : Option ℕ
  pub number : ℕ
  pub gas_limit : ℕ
  pub difficulty : ℕ
  pub gas_used : ℕ
  pub extra_data : List ℕ
  pub parent_beacon_block_root : Option ℕ
  pub blob_gas_used : Option ℕ
  pub excess_blob_gas : Option ℕ
  pub requests_hash : Option ℕ

pub record Rules (a : Alloy) : Type 1 where
  pub Requests : Type 0
  pub header : NewHeader a → a.Header
  pub calculate_transaction_root : List (TransactionSigned a.kinds) → ℕ
  pub calculate_receipt_root : List EthereumReceipt → ℕ
  pub calculate_withdrawals_root : a.Withdrawals → ℕ
  pub no_withdrawals : a.Withdrawals
  pub requests_hash : Requests → ℕ
  pub is_shanghai_active_at_timestamp : ℕ → Bool
  pub is_prague_active_at_timestamp : ℕ → Bool
  pub is_cancun_active_at_timestamp : ℕ → Bool
  pub blob_gas_used : TransactionSigned a.kinds → Option ℕ
  pub timestamp : a.Header → ℕ
  pub maybe_next_block_excess_blob_gas : a.Header → ℕ → Option ℕ
  pub first_excess_blob_gas : ℕ
  pub empty_ommer_root_hash : ℕ
  pub beacon_nonce : ℕ
  pub extra_data : List ℕ
  pub chain_id : ℕ
  pub max_blobs_per_tx : ℕ → Option ℕ
  pub calc_blob_fee : ℕ → ℕ → ℕ
  pub next_block_base_fee : a.Header → ℕ → Option ℕ

-- `HlBlockExecutionCtx`, over a type of forwarders.
pub record ExecutionCtx (a : Alloy) (F : Type 0) : Type 0 where
  pub parent_hash : ℕ
  pub parent_beacon_block_root : Option ℕ
  pub withdrawals : Option a.Withdrawals
  pub read_precompile_calls : Option ReadPrecompileCalls
  pub highest_precompile_address : Option ℕ
  pub read_precompile_forwarder : Option F

-- `saturating_to::<u64>`.
abbrev pub saturating : ℕ → ℕ
saturating n = min n (2 ^ 64 - 1)

abbrev pub when : {A : Type 0} → Bool → A → Option A
when false x = none
when true x = some x

abbrev pub or_zero : Option ℕ → ℕ
or_zero none = 0
or_zero (some n) = n

module _ {a : Alloy} (rules : Rules a) where
  abbrev pub sum_blob_gas : List (TransactionSigned a.kinds) → ℕ
  sum_blob_gas [] = 0
  sum_blob_gas (t ∷ ts) = add_u64 (or_zero (rules.blob_gas_used t)) (sum_blob_gas ts)

  abbrev pub withdrawals_or_none : Option a.Withdrawals → a.Withdrawals
  withdrawals_or_none none = rules.no_withdrawals
  withdrawals_or_none (some w) = w

  abbrev pub withdrawals_root : Option a.Withdrawals → Option ℕ
  withdrawals_root none = none
  withdrawals_root (some w) = some (rules.calculate_withdrawals_root w)

  -- The excess blob gas of a block in Cancun, after its parent.
  abbrev pub next_excess : ℕ → a.Header → Option ℕ
  next_excess timestamp parent =
      if rules.is_cancun_active_at_timestamp (rules.timestamp parent)
      then rules.maybe_next_block_excess_blob_gas parent timestamp
      else some rules.first_excess_blob_gas

  abbrev pub is_ordinary : TransactionSigned a.kinds → Bool
  is_ordinary t = not (is_system_transaction t)

  unfoldable pub assemble_block :
      {F : Type 0}
      → BlockEnv
      → ExecutionCtx a F
      → (parent : a.Header) → List (TransactionSigned a.kinds)
      → List EthereumReceipt
      → rules.Requests
      → (gas_used state_root : ℕ) → HlBlock a
  assemble_block env ctx parent transactions receipts requests gas_used state_root =
      let timestamp = saturating env.timestamp in
      let transactions_for_root = keep is_ordinary transactions in
      let receipts_for_root = keep shows_gas receipts in
      let withdrawals =
        when (rules.is_shanghai_active_at_timestamp timestamp)
          (withdrawals_or_none ctx.withdrawals) in
      let cancun = rules.is_cancun_active_at_timestamp timestamp in
      let header : NewHeader a = record {
        parent_hash = ctx.parent_hash;
        ommers_hash = rules.empty_ommer_root_hash;
        beneficiary = env.beneficiary;
        state_root = state_root;
        transactions_root = rules.calculate_transaction_root transactions_for_root;
        receipts_root = rules.calculate_receipt_root receipts_for_root;
        withdrawals_root = withdrawals_root withdrawals;
        logs_bloom = a.logs_bloom (all_logs receipts);
        timestamp = timestamp;
        mix_hash = or_zero env.prevrandao;
        nonce = rules.beacon_nonce;
        base_fee_per_gas = some env.basefee;
        number = saturating env.number;
        gas_limit = env.gas_limit;
        difficulty = env.difficulty;
        gas_used = gas_used;
        extra_data = rules.extra_data;
        parent_beacon_block_root = ctx.parent_beacon_block_root;
        blob_gas_used = when cancun (sum_blob_gas transactions);
        excess_blob_gas = if cancun then next_excess timestamp parent else none;
        requests_hash =
            when (rules.is_prague_active_at_timestamp timestamp) (rules.requests_hash requests);
      } in
      record {
        header =
            from_ethereum_header (rules.header header) receipts
              (length (keep is_system_transaction transactions));
        body = record {
          inner = record { transactions = transactions; ommers = []; withdrawals = withdrawals };
          sidecars = none;
          read_precompile_calls = ctx.read_precompile_calls;
          highest_precompile_address = ctx.highest_precompile_address;
        };
      }

  abbrev pub blob_price : Option ℕ → Option ℕ → ℕ → Option (ℕ × ℕ)
  blob_price (some excess) (some params) timestamp =
      some (excess, rules.calc_blob_fee timestamp excess)
  blob_price _ _ timestamp = none

  -- The one hardfork of the chain is past the merge and Cancun.
  unfoldable pub evm_env : HeaderView → EvmEnv
  evm_env header = record {
    cfg_env = record {
      chain_id = rules.chain_id;
      max_blobs_per_tx = rules.max_blobs_per_tx header.timestamp;
      disable_base_fee = true;
      disable_eip3607 = true;
    };
    block_env = record {
      number = header.number;
      beneficiary = header.beneficiary;
      timestamp = header.timestamp;
      difficulty = 0;
      prevrandao = header.mix_hash;
      gas_limit = header.gas_limit;
      basefee = or_zero header.base_fee_per_gas;
      blob_excess_gas_and_price =
          blob_price header.excess_blob_gas (rules.max_blobs_per_tx header.timestamp)
            header.timestamp;
    };
  }

  unfoldable pub next_evm_env : a.Header → NextBlockEnvAttributes → EvmEnv
  next_evm_env parent attributes = record {
    cfg_env = record {
      chain_id = rules.chain_id;
      max_blobs_per_tx = none;
      disable_base_fee = false;
      disable_eip3607 = false;
    };
    block_env = record {
      number = add_u64 (a.number parent) 1;
      beneficiary = attributes.suggested_fee_recipient;
      timestamp = attributes.timestamp;
      difficulty = 0;
      prevrandao = some attributes.prev_randao;
      gas_limit = attributes.gas_limit;
      basefee = or_zero (rules.next_block_base_fee parent attributes.timestamp);
      blob_excess_gas_and_price = some (0, 0);
    };
  }

  -- `context_for_block` and `context_for_payload`.
  unfoldable pub context_for_block :
      {F : Type 0} → (a.Header → Option ℕ) → HlBlock a → ExecutionCtx a F
  context_for_block beacon_root block = record {
    parent_hash = a.parent_hash block.header.inner;
    parent_beacon_block_root = beacon_root block.header.inner;
    withdrawals = block.body.inner.withdrawals;
    read_precompile_calls = block.body.read_precompile_calls;
    highest_precompile_address = block.body.highest_precompile_address;
    read_precompile_forwarder = none;
  }

  unfoldable pub context_for_next_block :
      {F : Type 0} → ℕ → Option ℕ → Option a.Withdrawals → ExecutionCtx a F
  context_for_next_block parent_hash parent_beacon_block_root withdrawals = record {
    parent_hash = parent_hash;
    parent_beacon_block_root = parent_beacon_block_root;
    withdrawals = withdrawals;
    read_precompile_calls = none;
    highest_precompile_address = none;
    read_precompile_forwarder = none;
  }
