-- ===== src/Tests/Network.antt =====
-- Runs of the block import and of the sync server, on the block that the node has stored.
use nanoreth.Prelude.{zero, suc, err, ℕ, ◌≡◌, ◌⊎◌, refl, sym, List, [], ◌∷◌, some, ok}
use nanoreth.Primitives.{from_ethereum_header}
use nanoreth.Types.Compat.{BlockAndReceipts}
use nanoreth.Types.Convert.{SpotState, done, to_reth_block}
use nanoreth.Types.RoundTrip.{node_receipts}
use nanoreth.Consensus.Head.{Preferred}
use nanoreth.PseudoPeer.Batches.{collect}
use nanoreth.Network.Import.{
  BlockMsg, Engine, Outcome, fork_choice_state, valid, syncing, new_payload,
}
use nanoreth.Network.ImportLaws.{fork_choice_state-Preferred}
use nanoreth.Sync.{Codec, DbReader, collect_block, collect_blocks, read_block_and_receipts}
use nanoreth.Sync.RoundTrip.{collect_block-to_reth_block, collect_blocks-read}
use nanoreth.Tests.Samples.{alloy, block_at, cold}
use nanoreth.Tests.Types.{senders, stored, stored_block}
use nanoreth.Tests.Consensus.{provider}

abbrev msg : BlockMsg alloy
msg = record { block = stored_block; td = 0; hash = 5 }

abbrev announced : Outcome alloy
announced = record { peer = 3; result = ok msg }

fork_choice_state-Preferred_example :
    (chosen : ℕ × ℕ) × (fork_choice_state alloy provider msg
      ≡ some (record {
        head_block_hash = chosen.1;
        safe_block_hash = chosen.1;
        finalized_block_hash = chosen.1;
      }))
    × ((chosen ≡ (5, 5)) ⊎ (chosen ≡ (5, 70)))
    × Preferred chosen (5, 5)
    × Preferred chosen (5, 70)
unfolding from_ethereum_header
fork_choice_state-Preferred_example = fork_choice_state-Preferred alloy provider msg 5 70 refl refl

abbrev engine : Engine alloy provider
engine = record {
  Error = Unit {0};
  new_payload = λ block. ok valid;
  fork_choice_updated = λ state. ok syncing;
}

-- The engine fails at first.
abbrev engine_at : ℕ → Engine alloy provider
engine_at zero = record engine { new_payload = λ block. err tt }
engine_at (suc n) = engine

abbrev Arrived : BlockMsg alloy × ℕ → Type 0
Arrived x = x ≡ (msg, 3)

-- Lists of blocks are sent as they are.
abbrev codec : Codec (BlockAndReceipts alloy)
codec = record {
  Bytes = List (BlockAndReceipts alloy);
  write_named = λ xs. some xs;
  from_read = λ bytes. some bytes;
  from_read-write_named = λ xs bytes e. sym e;
}

abbrev reader : DbReader alloy
reader = record {
  block_by_number = λ n. some stored_block;
  receipts_by_block = λ n. some (node_receipts (block_at 5));
  last_block_number = some 5;
}

collect_blocks-read_example :
    collect_blocks alloy codec (some reader) (5 ∷ 5 ∷ [])
    ≡ collect (read_block_and_receipts alloy reader) (5 ∷ 5 ∷ [])
collect_blocks-read_example = collect_blocks-read alloy codec reader (λ xs. (xs, refl)) (5 ∷ 5 ∷ [])

collect_block-to_reth_block_example :
    (served : BlockAndReceipts alloy) × (collect_block alloy codec (some reader) 5 ≡ ok served)
    × ((chain_id' : ℕ) (other : SpotState)
        → to_reth_block served chain_id' other ≡ done (stored_block, other))
collect_block-to_reth_block_example =
    collect_block-to_reth_block alloy codec reader (λ xs. (xs, refl)) (block_at 5) 999 (cold [])
      (cold []) stored_block 5 senders stored refl refl
