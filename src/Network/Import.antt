-- ===== src/Network/Import.antt =====
-- src/node/network/block_import/service.rs: `ImportService`. The engine's answers are arguments. The
-- futures that run at the same time are a list of tasks, of which any may complete next.
use nanoreth.Prelude.{Result, ok, err, ℕ, List, [], ◌∷◌, ◌++◌, Option, none, some, All}
use nanoreth.Primitives.{Alloy}
use nanoreth.Consensus.Head.{Provider, canonical_head}
use nanoreth.PseudoPeer.Service.{NewBlockMessage}

-- alloy's `PayloadStatusEnum`; the validation error is a number.
pub data PayloadStatusEnum : Type 0 where
  valid syncing accepted : PayloadStatusEnum
  invalid : ℕ → PayloadStatusEnum

-- alloy's `ForkchoiceState`.
pub record ForkchoiceState : Type 0 where
  pub head_block_hash : ℕ
  pub safe_block_hash : ℕ
  pub finalized_block_hash : ℕ

module _ (a : Alloy) where
  abbrev pub BlockMsg : Type 0
  BlockMsg = NewBlockMessage a

  -- `BlockImportOutcome`: the valid block, or the error.
  pub record Outcome : Type 0 where
    pub peer : ℕ
    pub result : Result {0, 0} ℕ BlockMsg

  abbrev pub import_status : BlockMsg → ℕ → PayloadStatusEnum → Option Outcome
  import_status block peer valid = some (record { peer = peer; result = ok block })
  import_status block peer (invalid validation_error) =
      some (record { peer = peer; result = err validation_error })
  import_status block peer syncing = none
  import_status block peer accepted = none

  -- The body of the future of `new_payload` after the engine's answer.
  unfoldable pub new_payload :
      {E : Type 0} → BlockMsg → ℕ → Result E PayloadStatusEnum → Option Outcome
  new_payload block peer (ok status) = import_status block peer status
  new_payload block peer (err e) = none

  -- What is asked of the engine, or nothing when the head is not known.
  abbrev pub state_of : {E : Type 0} → Result E (ℕ × ℕ) → Option ForkchoiceState
  state_of (err e) = none
  state_of (ok (head_block_hash, current)) = some (record {
    head_block_hash = head_block_hash;
    safe_block_hash = head_block_hash;
    finalized_block_hash = head_block_hash;
  })

  module _ (provider : Provider) where
    unfoldable pub fork_choice_state : BlockMsg → Option ForkchoiceState
    fork_choice_state msg = state_of (
        canonical_head provider (a.hash_slow msg.block.header.inner)
          (a.number msg.block.header.inner))

    abbrev pub with_state :
        {E : Type 0}
        → BlockMsg
        → ℕ
        → (ForkchoiceState → Result E PayloadStatusEnum)
        → Option ForkchoiceState
        → Option Outcome
    with_state block peer engine none = none
    with_state block peer engine (some state) = new_payload block peer (engine state)

    unfoldable pub update_fork_choice :
        {E : Type 0}
        → BlockMsg
        → ℕ
        → (ForkchoiceState → Result E PayloadStatusEnum)
        → Option Outcome
    unfolding fork_choice_state new_payload
    update_fork_choice block peer fork_choice_updated =
        with_state block peer fork_choice_updated (fork_choice_state block)

    -- How the engine answers at one moment.
    pub record Engine : Type 1 where
      pub Error : Type 0
      pub new_payload : BlockMsg → Result Error PayloadStatusEnum
      pub fork_choice_updated : ForkchoiceState → Result Error PayloadStatusEnum

    pub data ImportTask : Type 0 where
      payload fork_choice : BlockMsg → ℕ → ImportTask

    unfoldable pub run_task : Engine → ImportTask → Option Outcome
    unfolding update_fork_choice new_payload
    run_task engine (payload block peer) = new_payload block peer (engine.new_payload block)
    run_task engine (fork_choice block peer) =
        update_fork_choice block peer engine.fork_choice_updated

    pub record ImportService : Type 0 where
      pub pending_imports : List ImportTask
      pub completed : List (Option Outcome)
      pub to_network : List Outcome

    unfoldable pub on_new_block : BlockMsg → ℕ → ImportService → ImportService
    on_new_block block peer s = record s {
      pending_imports = s.pending_imports ++ payload block peer ∷ fork_choice block peer ∷ [];
    }

    -- The first loop of `poll`: what waits in `from_network`.
    unfoldable pub receive_blocks : List (BlockMsg × ℕ) → ImportService → ImportService
    unfolding on_new_block
    receive_blocks [] s = s
    receive_blocks ((block, peer) ∷ incoming) s =
        receive_blocks incoming (on_new_block block peer s)

    -- The second loop: it takes completed imports and ends after the first without an outcome.
    unfoldable pub take_outcomes : List (Option Outcome) → List Outcome × List (Option Outcome)
    take_outcomes [] = ([], [])
    take_outcomes (none ∷ rest) = ([], rest)
    take_outcomes (some outcome ∷ rest) =
        let (sent, left) = take_outcomes rest in (outcome ∷ sent, left)

    unfoldable pub poll : List (BlockMsg × ℕ) → ImportService → ImportService
    unfolding receive_blocks take_outcomes
    poll incoming s =
        let received = receive_blocks incoming s in
        let (sent, left) = take_outcomes received.completed in
        record received { completed = left; to_network = received.to_network ++ sent }

    abbrev pub idle : ImportService
    idle = record { pending_imports = []; completed = []; to_network = [] }

    -- The states that the service reaches, beside an engine that answers differently as time goes
    -- by: it is polled with what came from the network, each message of which satisfies `Arrived`,
    -- or any one of its imports completes, by what the engine answers at some moment.
    pub data Reached (engine_at : ℕ → Engine) (Arrived : BlockMsg × ℕ → Type 0)
        : ImportService → Type 1 where
      start : Reached engine_at Arrived idle
      polled :
          (s : ImportService) (incoming : List (BlockMsg × ℕ))
          → Reached engine_at Arrived s
          → All Arrived incoming
          → Reached engine_at Arrived (poll incoming s)
      completes :
          (moment : ℕ) (t : ImportTask) (before after : List ImportTask)
          (completed : List (Option Outcome)) (sent : List Outcome)
          → Reached engine_at Arrived (record {
            pending_imports = before ++ t ∷ after;
            completed = completed;
            to_network = sent;
          })
          → Reached engine_at Arrived (record {
            pending_imports = before ++ after;
            completed = completed ++ run_task (engine_at moment) t ∷ [];
            to_network = sent;
          })
