-- ===== src/Rpc/Extras.antt =====
-- `get_hl_extras`, `hl_call_precompiles`, `hl_simulation_precompiles` of src/node/rpc/mod.rs and
-- `replay_transactions_until` of src/node/rpc/call.rs. The forwarder, if one is set, comes with the
-- hash of the head.
use nanoreth.Prelude.{
  Result, ok, err, ℕ, ◌+◌, ◌≡◌, refl, sym, not, Bool, true, false, List, [], ◌∷◌, Option, none,
  some, arith, ltb, ◌==◌, if◌then◌else◌, min, leb, inl, inr, ap, ◌∙◌, Bool-cases,
}
use nanoreth.Primitives.{Alloy, HlBlock, ReadPrecompileCalls}

-- src/node/types/mod.rs.
pub record HlExtras : Type 0 where
  pub read_precompile_calls : Option ReadPrecompileCalls
  pub highest_precompile_address : Option ℕ

abbrev pub no_extras : HlExtras
no_extras = record { read_precompile_calls = none; highest_precompile_address = none }

pub record ChainInfo : Type 0 where
  pub best_number : ℕ
  pub best_hash : ℕ

infixl 5 ◌>>=◌
abbrev pub ◌>>=◌ {ℓ κ ι} :
    {E : Type ℓ} {A : Type κ} {B : Type ι} → Result E A → (A → Result E B) → Result E B
ok a >>= f = f a
err e >>= f = err e

abbrev pub extras_of : {a : Alloy} → Option (HlBlock a) → HlExtras
extras_of none = no_extras
extras_of (some block) = record {
  read_precompile_calls = block.body.read_precompile_calls;
  highest_precompile_address = block.body.highest_precompile_address;
}

-- The address range of a block without its recorded calls.
abbrev pub without_calls : HlExtras → HlExtras
without_calls extras = record extras { read_precompile_calls = none }

unfoldable pub get_hl_extras :
    {a : Alloy} {E : Type 0} → (ℕ → Result E (Option (HlBlock a))) → ℕ → Result E HlExtras
get_hl_extras block_by_number block = do found ← block_by_number block; ok (extras_of found)

module _ {a : Alloy} {E F : Type 0} (block_by_number : ℕ → Result E (Option (HlBlock a)))
    (chain_info : Result E ChainInfo) where
  unfoldable pub hl_call_precompiles : Option F → ℕ → Result E (HlExtras × Option (F × ℕ))
  unfolding get_hl_extras
  hl_call_precompiles none block_number = do
    extras ← get_hl_extras block_by_number block_number
    ok (extras, none)
  hl_call_precompiles (some forwarder) block_number = do
    info ← chain_info
    if ltb block_number info.best_number
        then (get_hl_extras block_by_number block_number >>= λ extras. ok (extras, none))
        else (if block_number == info.best_number
            then (get_hl_extras block_by_number block_number >>= λ extras.
                ok (extras, some (forwarder, info.best_hash)))
            else (get_hl_extras block_by_number info.best_number >>= λ head.
                ok (without_calls head, some (forwarder, info.best_hash))))

  unfoldable pub hl_simulation_precompiles : Option F → ℕ → Result E (HlExtras × Option (F × ℕ))
  unfolding get_hl_extras
  hl_simulation_precompiles none parent_block_number = ok (no_extras, none)
  hl_simulation_precompiles (some forwarder) parent_block_number = do
    info ← chain_info
    parent ← get_hl_extras block_by_number (min parent_block_number info.best_number)
    ok (
      without_calls parent,
      if leb info.best_number parent_block_number then some (forwarder, info.best_hash) else none,
    )

  -- Upstream is asked for calls from the head of the chain on and never for an older block, whose
  -- answers it would mix with today's; and recorded calls are only used for the block that recorded
  -- them: a call past the head has none, and a simulation never has any.
  pub hl_call_precompiles-scope :
      (forwarder : F) (n : ℕ) (info : ChainInfo) (block : Option (HlBlock a))
      → chain_info ≡ ok info
      → block_by_number (min n info.best_number) ≡ ok block
      → (hl_call_precompiles (some forwarder) n
          ≡ ok (
            record {
              read_precompile_calls =
                  if ltb info.best_number n then none else (extras_of block).read_precompile_calls;
              highest_precompile_address = (extras_of block).highest_precompile_address;
            },
            if ltb n info.best_number then none else some (forwarder, info.best_hash),
          ))
        × (hl_simulation_precompiles (some forwarder) n
            ≡ ok (
              without_calls (extras_of block),
              if ltb n info.best_number then none else some (forwarder, info.best_hash),
            ))
  unfolding hl_call_precompiles hl_simulation_precompiles get_hl_extras
  hl_call_precompiles-scope forwarder n info block e f =
      let at : (m : ℕ) → min n info.best_number ≡ m → block_by_number m ≡ ok block =
        λ m h. ap block_by_number (sym h) ∙ f in
      let upward : (lower : Bool)
          → ltb n info.best_number ≡ lower
          → leb info.best_number n ≡ not lower =
        λ lower h. ground (arith, h) in
      (
        elim (Bool-cases (ltb n info.best_number)) [
          | inl b ↦
              let up : ltb info.best_number n ≡ false = ground (arith, b) in
              rw (e, b, up, at n (ground (arith, b))) refl
          | inr b ↦ elim (Bool-cases (n == info.best_number)) [
            | inl c ↦
                let up : ltb info.best_number n ≡ false = ground (arith, c) in
                rw (e, b, c, up, at n (ground (arith, c))) refl
            | inr c ↦
                let up : ltb info.best_number n ≡ true = ground (arith, b, c) in
                rw (e, b, c, up, at info.best_number (ground (arith, b))) refl
          ]
        ],
        elim (Bool-cases (ltb n info.best_number)) [
          | inl b ↦ rw (e, f, b, upward true b) refl
          | inr b ↦ rw (e, f, b, upward false b) refl
        ],
      )

-- `replay_transactions_until`: the transactions before the one with the hash, each committed to the
-- state by the EVM; how many they are.
unfoldable pub replay_transactions_until :
    {E S T : Type 0} → (T → ℕ) → (T → S → Result E S) → List T → ℕ → S → Result E (ℕ × S)
replay_transactions_until tx_hash transact_commit [] target st = ok (0, st)
replay_transactions_until tx_hash transact_commit (tx ∷ txs) target st =
    let rest = transact_commit tx st >>= λ st'.
    replay_transactions_until tx_hash transact_commit txs target st' >>= λ (index, last).
    ok (index + 1, last) in
    if tx_hash tx == target then ok (0, st) else rest
