-- ===== src/Network/ImportLaws.antt =====
-- What the network hears from the import service.
use nanoreth.Prelude.{ok, ℕ, ◌≡◌, refl, ◌⊎◌, List, [], ◌∷◌, ◌++◌, map, Option, none, some, All}
use nanoreth.Primitives.{Alloy}
use nanoreth.Consensus.Head.{Preferred, Provider, canonical_head-Preferred}
use nanoreth.Network.Import.{
  BlockMsg, Engine, ForkchoiceState, ImportService, ImportTask, Outcome, PayloadStatusEnum,
  fork_choice, fork_choice_state, import_status, new_payload, payload, take_outcomes,
}

module _ (a : Alloy) (provider : Provider) where
  -- An import without an outcome, since the engine still syncs or failed, ends the loop: what
  -- completed before it is sent, what completed after it waits for the next poll, whatever that is.
  pub take_outcomes-undecided :
      (sent : List (Outcome a)) (rest : List (Option (Outcome a)))
      → take_outcomes a provider (map some sent ++ none ∷ rest) ≡ (sent, rest)
  unfolding take_outcomes
  take_outcomes-undecided [] rest = refl
  take_outcomes-undecided (o ∷ sent) rest = rw (take_outcomes-undecided sent rest) refl

  -- The engine is told of one head, which it takes for safe and final too: the better of the
  -- announced block and the known head, the higher one and of two as high the one with the lower
  -- hash. The head and its hash are known.
  pub fork_choice_state-Preferred :
      (msg : BlockMsg a) (head current : ℕ)
      → provider.best_block_number ≡ ok head
      → provider.block_hash head ≡ ok (some current)
      → let hash = a.hash_slow msg.block.header.inner in
        let number = a.number msg.block.header.inner in
        (chosen : ℕ × ℕ) × (fork_choice_state a provider msg
          ≡ some (record {
            head_block_hash = chosen.1;
            safe_block_hash = chosen.1;
            finalized_block_hash = chosen.1;
          }))
        × ((chosen ≡ (number, hash)) ⊎ (chosen ≡ (head, current)))
        × Preferred chosen (number, hash)
        × Preferred chosen (head, current)
  unfolding fork_choice_state
  fork_choice_state-Preferred msg head current e f =
      let (chosen, g, which, better, better') =
        canonical_head-Preferred provider (a.hash_slow msg.block.header.inner)
          (a.number msg.block.header.inner) head current e f in
      (chosen, rw g refl, which, better, better')

  -- The engine answers so about the block: as a payload, or as the head of a fork choice.
  abbrev pub Answers : Engine a provider → BlockMsg a → PayloadStatusEnum → Type 0
  Answers engine block status =
      (engine.new_payload block ≡ ok status)
      ⊎ ((state : ForkchoiceState) × (fork_choice_state a provider block ≡ some state)
          × (engine.fork_choice_updated state ≡ ok status))

  -- The outcome names the peer that announced the block, and is what the engine's answer about that
  -- block at some moment makes it.
  abbrev pub Reported : (ℕ → Engine a provider) → (BlockMsg a × ℕ → Type 0) → Outcome a → Type 0
  Reported engine_at Arrived o =
      (block : BlockMsg a) × (moment : ℕ) × (status : PayloadStatusEnum) × Arrived (block, o.peer)
      × Answers (engine_at moment) block status
      × (import_status a block o.peer status ≡ some o)

  abbrev FromNetwork : (BlockMsg a × ℕ → Type 0) → ImportTask a provider → Type 0
  FromNetwork Arrived (payload block peer) = Arrived (block, peer)
  FromNetwork Arrived (fork_choice block peer) = Arrived (block, peer)

  abbrev WhenSome : (Outcome a → Type 0) → Option (Outcome a) → Type 0
  WhenSome P none = Unit {0}
  WhenSome P (some o) = P o

  module _ (engine_at : ℕ → Engine a provider) (Arrived : BlockMsg a × ℕ → Type 0) where
    -- Everything in the service comes from the network.
    record IsGenuine (s : ImportService a provider) : Type 0 where
      pub pending : All (FromNetwork Arrived) s.pending_imports
      pub completed : All (WhenSome (Reported engine_at Arrived)) s.completed
      pub sent : All (Reported engine_at Arrived) s.to_network
