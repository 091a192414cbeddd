-- ===== src/Evm/Precompiles.antt =====
-- src/node/evm/executor.rs: the read precompiles that are installed for a block. A forwarder is the
-- hash of the head that it answers for; asking it is the answer `forwarded`.
use nanoreth.Prelude.{
  ℕ, suc, zero, ◌+◌, ◌-◌, ◌/◌, ◌^◌, ◌≡◌, Bool, true, false, ◌&&◌, Option, none, some, List, [], ◌∷◌,
  ltb, leb, ◌==◌, if◌then◌else◌, or_else,
}
use mathlib.Core.Option.{map as Option_map}
use nanoreth.Primitives.{ReadPrecompileCalls, ReadPrecompileInput, ReadPrecompileResult}

abbrev pub Calls : Type 0
Calls = List (ReadPrecompileInput × ReadPrecompileResult)

-- A precompile of revm, or one of the closures that the code installs: the head hash of the
-- forwarder, the address and the block number are what they capture.
pub data Precompile : Type 0 where
  native : ℕ → Precompile
  recorded : Calls → Option ℕ → ℕ → ℕ → Precompile
  unrecorded : Option ℕ → ℕ → ℕ → Precompile

pub data PrecompileAnswer : Type 0 where
  output : ℕ → List ℕ → PrecompileAnswer
  out_of_gas : PrecompileAnswer
  panicked : PrecompileAnswer
  forwarded : ℕ → List ℕ → ℕ → ℕ → ℕ → PrecompileAnswer
  of_native : ℕ → List ℕ → ℕ → PrecompileAnswer

-- `slice::contains`.
abbrev pub contains : ℕ → List ℕ → Bool
contains k [] = false
contains k (j ∷ l) = if j == k then true else contains k l

-- alloy-evm's `PrecompilesMap`: `apply_precompile` puts, replaces or removes one entry, and
-- `addresses` lists every address that has one.
pub record PrecompilesMap : Type 1 where
  pub Map : Type 0
  pub get : ℕ → Map → Option Precompile
  pub addresses : Map → List ℕ
  pub apply_precompile : ℕ → (Option Precompile → Option Precompile) → Map → Map
  pub get-apply_precompile :
      (k j : ℕ) (f : Option Precompile → Option Precompile) (m : Map)
      → get j (apply_precompile k f m) ≡ (if k == j then f (get k m) else get j m)
  pub get-addresses : (k : ℕ) (m : Map) → contains k (addresses m) ≡ false → get k m ≡ none

abbrev pub same_bytes : List ℕ → List ℕ → Bool
same_bytes [] [] = true
same_bytes [] (_ ∷ _) = false
same_bytes (_ ∷ _) [] = false
same_bytes (x ∷ xs) (y ∷ ys) = (x == y) && same_bytes xs ys

-- Collected into a `HashMap`, the last of equal inputs wins.
unfoldable pub find_call : List ℕ → ℕ → Calls → Option ReadPrecompileResult
find_call data_ gas [] = none
find_call data_ gas ((i, r) ∷ calls) =
    or_else (find_call data_ gas calls)
      (if same_bytes i.input data_ && (i.gas_limit == gas) then some r else none)

abbrev replay_result : ReadPrecompileResult → PrecompileAnswer
replay_result (ReadPrecompileResult.ok gas_used bytes) = output gas_used bytes
replay_result ReadPrecompileResult.out_of_gas = out_of_gas
replay_result ReadPrecompileResult.error = out_of_gas
replay_result ReadPrecompileResult.unexpected_error = panicked

unfoldable pub run_precompile : Calls → List ℕ → ℕ → Option PrecompileAnswer
run_precompile calls data_ gas = Option_map replay_result (find_call data_ gas calls)

unfoldable pub run_unrecorded_precompile : Option ℕ → ℕ → List ℕ → ℕ → ℕ → PrecompileAnswer
run_unrecorded_precompile none address data_ gas block = out_of_gas
run_unrecorded_precompile (some head) address data_ gas block =
    forwarded address data_ gas block head

abbrev pub unwrap_or : PrecompileAnswer → Option PrecompileAnswer → PrecompileAnswer
unwrap_or d none = d
unwrap_or d (some x) = x

-- Running an installed precompile on an input and a gas limit.
unfoldable pub run : Precompile → List ℕ → ℕ → PrecompileAnswer
run (native n) data_ gas = of_native n data_ gas
run (recorded calls forwarder address block) data_ gas =
    unwrap_or (run_unrecorded_precompile forwarder address data_ gas block)
      (run_precompile calls data_ gas)
run (unrecorded forwarder address block) data_ gas =
    run_unrecorded_precompile forwarder address data_ gas block

-- The addresses 0x00…08xx.
abbrev pub is_read_precompile : ℕ → Bool
is_read_precompile address = (address / 256) == 8

abbrev pub warm_precompiles_block_number : ℕ
warm_precompiles_block_number = 8197684

abbrev pub lowest_address : ℕ
lowest_address = 2048

-- `address_to_u64` panics on an address that is no `u64`: no map.
unfoldable pub highest_address : Option ℕ → Option ℕ
highest_address none = some 2061
highest_address (some h) = if ltb h (2 ^ 64) then some h else none

abbrev pub calls_or_default : Option ReadPrecompileCalls → ReadPrecompileCalls
calls_or_default none = []
calls_or_default (some calls) = calls

-- What is there stays; a free address burns the gas limit or asks the forwarder.
abbrev pub keep_or_unrecorded : Option ℕ → ℕ → ℕ → Option Precompile → Option Precompile
keep_or_unrecorded forwarder k block none = some (unrecorded forwarder k block)
keep_or_unrecorded forwarder k block (some x) = some x

module _ (p : PrecompilesMap) where
  unfoldable pub clear : List ℕ → p.Map → p.Map
  clear [] m = m
  clear (k ∷ ks) m =
      clear ks (if is_read_precompile k then p.apply_precompile k (λ _. none) m else m)

  unfoldable pub install_recorded : ReadPrecompileCalls → Option ℕ → ℕ → p.Map → p.Map
  install_recorded [] forwarder block m = m
  install_recorded ((k, calls) ∷ rest) forwarder block m =
      install_recorded rest forwarder block
        (p.apply_precompile k (λ _. some (recorded calls forwarder k block)) m)

  -- `fill_all_precompiles` from the address `k`, for `n` addresses.
  unfoldable pub fill_from : ℕ → ℕ → Option ℕ → ℕ → p.Map → p.Map
  fill_from zero k forwarder block m = m
  fill_from (suc n) k forwarder block m =
      fill_from n (suc k) forwarder block
        (p.apply_precompile k (keep_or_unrecorded forwarder k block) m)

  unfoldable pub fill_all_precompiles : Option ℕ → Option ℕ → ℕ → p.Map → Option p.Map
  fill_all_precompiles highest forwarder block m =
      Option_map (λ h. fill_from (h + 1 - lowest_address) lowest_address forwarder block m)
        (highest_address highest)

  unfoldable pub apply_precompiles_with_forwarder :
      Option ReadPrecompileCalls → Option ℕ → Option ℕ → ℕ → p.Map → Option p.Map
  apply_precompiles_with_forwarder calls highest forwarder block m =
      let installed =
        install_recorded (calls_or_default calls) forwarder block (clear (p.addresses m) m) in
      let filled = fill_all_precompiles highest forwarder block installed in
      if leb warm_precompiles_block_number block then filled else some installed

  unfoldable pub apply_precompiles :
      Option ReadPrecompileCalls → Option ℕ → ℕ → p.Map → Option p.Map
  apply_precompiles calls highest block m =
      apply_precompiles_with_forwarder calls highest none block m
