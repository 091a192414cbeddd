-- ===== src/SpotMeta.antt =====
-- src/node/spot_meta/mod.rs and patch.rs: from the token list of the API to the map from contract
-- addresses to spot indices. The HTTP request, its retries and the parsing of an override's text
-- are not modelled: the fetched list (or the failure) and the parsed overrides are arguments.
pub mod Precedence
use nanoreth.Prelude.{ℕ, List, [], ◌∷◌, Option, none, some, insert, ◌==◌, if◌then◌else◌}

pub record SpotId : Type 0 where
  pub index : ℕ

abbrev pub SpotMap : Type 0
SpotMap = List (ℕ × SpotId)

pub record EvmContract : Type 0 where
  pub address : ℕ

pub record SpotToken : Type 0 where
  pub index : ℕ
  pub evm_contract : Option EvmContract

pub record SpotMeta : Type 0 where
  pub tokens : List SpotToken

abbrev pub mainnet_chain_id : ℕ
mainnet_chain_id = 999

abbrev pub testnet_chain_id : ℕ
testnet_chain_id = 998

unfoldable pub insert_contract : Option EvmContract → ℕ → SpotMap → SpotMap
insert_contract none index m = m
insert_contract (some c) index m = insert c.address (record { index = index }) m

-- The loop over `meta.tokens`.
unfoldable pub insert_tokens : SpotMap → List SpotToken → SpotMap
unfolding insert_contract
insert_tokens m [] = m
insert_tokens m (t ∷ ts) = insert_tokens (insert_contract t.evm_contract t.index m) ts

abbrev pub patched_token : ℕ
patched_token = 0xd9cbec81df392a88aeff575e962d149d57f4d6bc

abbrev pub sender_recovery_token : ℕ
sender_recovery_token = 0x2b3370ee501b4a559b57d449569354196457d8ab

unfoldable pub patch_testnet_spot_meta : SpotMap → SpotMap
patch_testnet_spot_meta m =
    insert sender_recovery_token (record { index = 0 })
      (insert patched_token (record { index = 0 }) m)

-- `MANUAL_OVERRIDES`, and on top of it the entries of the environment that parse.
unfoldable pub collect_manual_overrides : List (ℕ × ℕ) → List (Option (ℕ × ℕ)) → List (ℕ × ℕ)
collect_manual_overrides overrides [] = overrides
collect_manual_overrides overrides (none ∷ env) = collect_manual_overrides overrides env
collect_manual_overrides overrides (some (addr, index) ∷ env) =
    collect_manual_overrides (insert addr index overrides) env

unfoldable pub apply_overrides : SpotMap → List (ℕ × ℕ) → SpotMap
apply_overrides m [] = m
apply_overrides m ((addr, index) ∷ rest) =
    apply_overrides (insert addr (record { index = index }) m) rest

-- `none` is a fetch that failed.
unfoldable pub erc20_contract_to_spot_token :
    ℕ → Option SpotMeta → List (ℕ × ℕ) → List (Option (ℕ × ℕ)) → Option SpotMap
erc20_contract_to_spot_token chain_id none manual env = none
erc20_contract_to_spot_token chain_id (some meta) manual env =
    let m = insert_tokens [] meta.tokens in
    let patched = if chain_id == testnet_chain_id then patch_testnet_spot_meta m else m in
    some (apply_overrides patched (collect_manual_overrides manual env))
