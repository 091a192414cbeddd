-- ===== src/Rpc/Trace.antt =====
-- src/node/rpc/mod.rs: the tracing of calls and of blocks. The EVM with its inspector is a step on a
-- state, which gives what the hook sees of a transaction; the requests to the database are results.
use nanoreth.Prelude.{Result, ok, ℕ, ◌+◌, List, [], ◌∷◌, Option, none, some, length, take, add_u64}
use nanoreth.Primitives.{Alloy, HlBlock}
use nanoreth.Compliance.Blocks.{TransactionInfo}
use nanoreth.Rpc.Extras.{ChainInfo, HlExtras, get_hl_extras, hl_call_precompiles, ◌>>=◌}

-- The environment of a block, and what tracing asks of the block itself.
pub record TraceEnv : Type 0 where
  pub number : ℕ
  pub basefee : ℕ

pub record TracedBlock (T : Type 0) : Type 0 where
  pub block_hash : ℕ
  pub transactions : List T

abbrev pub or_number : Option ℕ → ℕ → ℕ
or_number none number = number
or_number (some n) number = n

-- `inspect`: a call at the height of its state, else at that of its environment.
unfoldable pub inspect :
    {a : Alloy} {E F A : Type 0}
    → (ℕ → Result E (Option (HlBlock a)))
    → Result E ChainInfo
    → Option F
    → (HlExtras → Option (F × ℕ) → Result E A)
    → Option ℕ
    → ℕ
    → Result E A
unfolding hl_call_precompiles
inspect block_by_number chain_info forwarder transact rpc_state_block_number env_number = do
  installed ←
      hl_call_precompiles block_by_number chain_info forwarder
        (or_number rpc_state_block_number env_number)
  transact installed.0 installed.1

abbrev pub traced_info : {T : Type 0} → (T → ℕ) → TraceEnv → ℕ → ℕ → T → TransactionInfo
traced_info tx_hash env block_hash idx tx = record {
  hash = tx_hash tx;
  block_hash = block_hash;
  block_number = env.number;
  base_fee = some env.basefee;
  index = idx;
}

abbrev pub max_transactions : {T : Type 0} → Option ℕ → List T → ℕ
max_transactions none txs = length txs
max_transactions (some highest) txs = add_u64 highest 1

module _ {E R S T C : Type 0} (tx_hash : T → ℕ) (f : TransactionInfo → C → Result E R) where
  -- `try_trace_many`, collected: every transaction runs on the state that those before it left.
  unfoldable pub trace_many :
      (T → S → Result E (C × S)) → TraceEnv → ℕ → ℕ → List T → S → Result E (List R)
  trace_many step env block_hash idx [] s = ok []
  trace_many step env block_hash idx (tx ∷ txs) s = do
    stepped ← step tx s
    traced ← f (traced_info tx_hash env block_hash idx tx) stepped.0
    rest ← trace_many step env block_hash (idx + 1) txs stepped.1
    ok (traced ∷ rest)

  module _ {a : Alloy} (block_by_number : ℕ → Result E (Option (HlBlock a)))
      (state_at_parent : Result E S) (step : HlExtras → T → S → Result E (C × S)) where
    -- The precompiles of the EVM answer from the recorded calls of the block.
    unfoldable pub trace_listed : TraceEnv → Option ℕ → ℕ → List T → Result E (Option (List R))
    unfolding trace_many get_hl_extras
    trace_listed env highest_index block_hash [] = ok (some [])
    trace_listed env highest_index block_hash (tx ∷ txs) = do
      extras ← get_hl_extras block_by_number env.number
      state ← state_at_parent
      results ←
          trace_many (step extras) env block_hash 0
            (take (max_transactions highest_index (tx ∷ txs)) (tx ∷ txs)) state
      ok (some results)

    unfoldable pub trace_found :
        TraceEnv → Option ℕ → Option (TracedBlock T) → Result E (Option (List R))
    unfolding trace_listed
    trace_found env highest_index none = ok none
    trace_found env highest_index (some block) =
        trace_listed env highest_index block.block_hash block.transactions

    unfoldable pub trace_block_until_with_inspector :
        Result E TraceEnv
        → Result E (Option (TracedBlock T))
        → Option ℕ
        → Result E (Option (List R))
    unfolding trace_found
    trace_block_until_with_inspector evm_env_at found highest_index = do
      env ← evm_env_at
      block ← found
      trace_found env highest_index block
