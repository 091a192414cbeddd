-- ===== src/SpotMeta/Precedence.antt =====
-- Which source of a spot index wins.
use nanoreth.Prelude.{
  ℕ, ◌≡◌, refl, List, [], ◌∷◌, Option, none, some, arith, ◌==◌, ◌||◌, if◌then◌else◌, or_else,
  lookup, insert, find_last, lookup-insert, Distinct, insert-Distinct, find_last-eq-lookup,
}
use nanoreth.SpotMeta.{
  EvmContract, SpotId, SpotMap, SpotMeta, SpotToken, insert_contract, insert_tokens, patched_token,
  sender_recovery_token, testnet_chain_id, patch_testnet_spot_meta, collect_manual_overrides,
  apply_overrides, erc20_contract_to_spot_token,
}

abbrev pub to_spot : Option ℕ → Option SpotId
to_spot none = none
to_spot (some i) = some (record { index = i })

-- The index that the last token of the list with this contract has.
abbrev pub contract_index : ℕ → Option EvmContract → ℕ → Option ℕ
contract_index addr none i = none
contract_index addr (some c) i = if c.address == addr then some i else none

unfoldable pub last_token : ℕ → List SpotToken → Option ℕ
last_token addr [] = none
last_token addr (t ∷ ts) = or_else (last_token addr ts) (contract_index addr t.evm_contract t.index)

-- The last entry of the environment for this address, among those that parse.
unfoldable pub last_env : ℕ → List (Option (ℕ × ℕ)) → Option ℕ
last_env addr [] = none
last_env addr (none ∷ env) = last_env addr env
last_env addr (some (a, i) ∷ env) = or_else (last_env addr env) (if a == addr then some i else none)

abbrev pub patch_index : ℕ → ℕ → Option ℕ
patch_index chain_id addr =
    if chain_id == testnet_chain_id
    then (if sender_recovery_token == addr || patched_token == addr then some 0 else none)
    else none

lookup-insert_contract :
    (addr : ℕ) (c : Option EvmContract) (i : ℕ) (m : SpotMap)
    → lookup addr (insert_contract c i m)
      ≡ or_else (to_spot (contract_index addr c i)) (lookup addr m)
unfolding insert_contract
lookup-insert_contract addr none i m = refl
lookup-insert_contract addr (some c) i m =
    ground (arith, lookup-insert c.address addr (record { index = i }) m)

lookup-insert_tokens :
    (addr : ℕ) (m : SpotMap) (ts : List SpotToken)
    → lookup addr (insert_tokens m ts) ≡ or_else (to_spot (last_token addr ts)) (lookup addr m)
unfolding insert_tokens last_token
lookup-insert_tokens addr m [] = refl
lookup-insert_tokens addr m (t ∷ ts) = ground (
  arith,
  lookup-insert_tokens addr (insert_contract t.evm_contract t.index m) ts,
  lookup-insert_contract addr t.evm_contract t.index m,
)

lookup-apply_overrides :
    (addr : ℕ) (m : SpotMap) (o : List (ℕ × ℕ))
    → lookup addr (apply_overrides m o) ≡ or_else (to_spot (find_last addr o)) (lookup addr m)
unfolding apply_overrides find_last
lookup-apply_overrides addr m [] = refl
lookup-apply_overrides addr m ((a, i) ∷ o) = ground (
  arith,
  lookup-apply_overrides addr (insert a (record { index = i }) m) o,
  lookup-insert a addr (record { index = i }) m,
)

collect-Distinct :
    (manual : List (ℕ × ℕ)) (env : List (Option (ℕ × ℕ)))
    → Distinct manual
    → Distinct (collect_manual_overrides manual env)
unfolding collect_manual_overrides
collect-Distinct manual [] d = d
collect-Distinct manual (none ∷ env) d = collect-Distinct manual env d
collect-Distinct manual (some (a, i) ∷ env) d =
    collect-Distinct (insert a i manual) env (insert-Distinct a i manual d)

lookup-collect :
    (addr : ℕ) (manual : List (ℕ × ℕ)) (env : List (Option (ℕ × ℕ)))
    → lookup addr (collect_manual_overrides manual env)
      ≡ or_else (last_env addr env) (lookup addr manual)
unfolding collect_manual_overrides last_env
lookup-collect addr manual [] = refl
lookup-collect addr manual (none ∷ env) = lookup-collect addr manual env
lookup-collect addr manual (some (a, i) ∷ env) =
    ground (arith, lookup-collect addr (insert a i manual) env, lookup-insert a addr i manual)

lookup-patched :
    (chain_id addr : ℕ) (m : SpotMap)
    → lookup addr (if chain_id == testnet_chain_id then patch_testnet_spot_meta m else m)
      ≡ or_else (to_spot (patch_index chain_id addr)) (lookup addr m)
unfolding patch_testnet_spot_meta
lookup-patched chain_id addr m = ground (
  arith,
  lookup-insert sender_recovery_token addr (record { index = 0 })
      (insert patched_token (record { index = 0 }) m),
  lookup-insert patched_token addr (record { index = 0 }) m,
)

-- The index that an address has in the map, by falling precedence: the last entry of the
-- environment for it, the override of the command line, on testnet the two patched tokens (index 0),
-- and the last fetched token with that contract. The fetched list is given, and the overrides of
-- the command line have distinct addresses.
pub lookup-erc20_contract_to_spot_token :
    (chain_id addr : ℕ) (meta : SpotMeta) (manual : List (ℕ × ℕ)) (env : List (Option (ℕ × ℕ)))
    (m : SpotMap)
    → Distinct manual
    → erc20_contract_to_spot_token chain_id (some meta) manual env ≡ some m
    → lookup addr m
      ≡ to_spot (
          or_else (last_env addr env) (
            or_else
              (lookup addr manual)
              (or_else (patch_index chain_id addr) (last_token addr meta.tokens))))
unfolding erc20_contract_to_spot_token lookup
lookup-erc20_contract_to_spot_token chain_id addr meta manual env m d e =
    let base = insert_tokens [] meta.tokens in
    let patched = if chain_id == testnet_chain_id then patch_testnet_spot_meta base else base in
    let overrides = collect_manual_overrides manual env in
    ground (
      arith,
      lookup-apply_overrides addr patched overrides,
      find_last-eq-lookup addr overrides (collect-Distinct manual env d),
      lookup-collect addr manual env,
      lookup-patched chain_id addr base,
      lookup-insert_tokens addr [] meta.tokens,
    )
