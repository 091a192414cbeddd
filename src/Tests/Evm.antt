-- ===== src/Tests/Evm.antt =====
-- Runs of the executor, the precompiles and the forwarder, and an EVM whose every transaction uses
-- 50 gas.
use nanoreth.Prelude.{
  ℕ, ◌≡◌, ◌≤◌, ◌+◌, refl, true, false, List, [], ◌∷◌, none, some, arith, length, if◌then◌else◌, ok,
  err, lookup, find_last,
}
use nanoreth.Primitives.{
  ReadPrecompileCalls, ReadPrecompileResult, TransactionSigned, TxType, gas_price,
  is_system_transaction,
}
use nanoreth.Evm.{BlockEnv, Machine}
use nanoreth.Evm.Patch.{mainnet_patches_after_tx, patch_mainnet_after_tx}
use nanoreth.Evm.PatchLaws.{dropped, lookup-patch_mainnet_after_tx}
use nanoreth.Evm.Executor.{
  Executed, HlBlockExecutor, commit_transaction, done, execute_transaction_without_commit, new,
  step,
}
use nanoreth.Evm.Precompiles.{
  Calls, Precompile, PrecompileAnswer, clear, install_recorded, apply_precompiles,
  apply_precompiles_with_forwarder, highest_address, run,
}
use nanoreth.Evm.Installed.{
  expected, get-apply_precompiles_with_forwarder, recorded_answer, run-apply_precompiles,
}
use nanoreth.Evm.Forwarder.{
  Cache, Key, Response, answer, enter, find_response, finish, read_precompile_gas,
  max_cache_entries,
}
use nanoreth.Evm.ForwarderLaws.{enter-finish, expected_entry, finish-bound}
use nanoreth.Tests.Precompiles.{entries}
use nanoreth.Tests.Samples.{alloy, kinds, paid_tx, token_tx}

abbrev pub machine : Machine alloy
machine = record {
  Db = ℕ;
  Account = Unit {0};
  ExecutionResult = Unit {0};
  Error = Unit {0};
  transact = λ db t. ok (tt, []);
  commit = λ db c. db + 1;
  gas_used = λ r. 50;
  is_success = λ r. true;
  into_logs = λ r. [];
  tx_type = λ t. TxType.legacy;
  gas_limit = λ t. 100;
  transact-gas_limit = λ db t r c e. omega arith;
  transact-intrinsic = λ db t r c e h. omega arith;
}

abbrev pub env : BlockEnv
env = record { number = 5; gas_limit = 1000 }

abbrev pub system : TransactionSigned kinds
system =
    TransactionSigned.legacy
      (record { tx = token_tx; signature = record { r = 1; s = 1; y_parity = true } })

abbrev pub ordinary : TransactionSigned kinds
ordinary =
    TransactionSigned.legacy
      (record { tx = paid_tx; signature = record { r = 1; s = 1; y_parity = true } })

abbrev pub after : TransactionSigned kinds → HlBlockExecutor machine → HlBlockExecutor machine
after t s = (commit_transaction machine s (tt, []) t).0

pub run_system :
    Executed machine (new machine env 0) (system ∷ []) (after system (new machine env 0))
unfolding execute_transaction_without_commit new
run_system = step (new machine env 0) _ system [] (tt, []) refl (done _)

pub run_ordinary :
    Executed machine
      (after system (new machine env 0))
      (ordinary ∷ [])
      (after ordinary (after system (new machine env 0)))
unfolding execute_transaction_without_commit new commit_transaction is_system_transaction gas_price
run_ordinary = step (after system (new machine env 0)) _ ordinary [] (tt, []) refl (done _)

abbrev changes : List (ℕ × ℕ)
changes = (7, 3) ∷ []

-- The first entry of the table.
lookup-patch_mainnet_after_tx_example :
    lookup 7 (patch_mainnet_after_tx 1467569 0 false changes)
    ≡ (if dropped 1467569 0 false 7 mainnet_patches_after_tx then none else lookup 7 changes)
lookup-patch_mainnet_after_tx_example =
    lookup-patch_mainnet_after_tx {V = ℕ} 1467569 0 7 false changes

abbrev one_call : Calls
one_call = (record { input = 1 ∷ []; gas_limit = 30 }, ReadPrecompileResult.ok 20 (9 ∷ [])) ∷ []

abbrev calls : ReadPrecompileCalls
calls = (2049, one_call) ∷ []

highest_none : highest_address none ≡ some 2061
unfolding highest_address
highest_none = refl

abbrev stale : entries.Map
stale = (2050, some (Precompile.native 1)) ∷ []

abbrev installed : entries.Map
installed = (2049, some (Precompile.recorded one_call none 2049 5)) ∷ (2050, none) ∷ stale

get-apply_precompiles_with_forwarder_example :
    (m' : entries.Map) × (apply_precompiles_with_forwarder entries
        (some calls)
        none
        none
        8197684
        stale
      ≡ some m')
    × ((k : ℕ) → entries.get k m' ≡ expected calls 2061 none 8197684 k (entries.get k stale))
get-apply_precompiles_with_forwarder_example =
    get-apply_precompiles_with_forwarder entries calls none 2061 none 8197684 stale highest_none

applied : apply_precompiles entries (some calls) none 5 stale ≡ some installed
unfolding apply_precompiles apply_precompiles_with_forwarder install_recorded clear
applied = refl

run-apply_precompiles_example :
    run (Precompile.recorded one_call none 2049 5) (1 ∷ []) 30
    ≡ recorded_answer (find_last 2049 calls) (1 ∷ []) 30
run-apply_precompiles_example =
    run-apply_precompiles entries calls none 2061 5 2049 stale installed
      (Precompile.recorded one_call none 2049 5) (1 ∷ []) 30 highest_none applied refl refl

abbrev key : Key
key = record { block_number = 5; head_hash = 1; address = 2049; input = 1 ∷ [] }

abbrev asking : Cache
asking = record { newest_block_number = 4; responses = []; in_flight = key ∷ [] }

finish-bound_example :
    (length (enter key asking).1.responses ≤ max_cache_entries)
    × (length (finish {E = Unit {0}} key (ok (Response.output (9 ∷ []))) asking).responses
        ≤ max_cache_entries)
finish-bound_example = finish-bound key (ok (Response.output (9 ∷ []))) asking (omega arith)

unanswered : find_response key [] ≡ none
unfolding find_response
unanswered = refl

enter-finish_example :
    (enter key (finish {E = Unit {0}} key (err tt) asking)).0 ≡ expected_entry (err tt)
enter-finish_example = enter-finish key (err tt) asking unanswered

answered :
    answer {E = Unit {0}} (1 ∷ []) 3000 (ok (Response.output (9 ∷ [])))
    ≡ ok (PrecompileAnswer.output 1066 (9 ∷ []))
unfolding answer read_precompile_gas
answered = refl
