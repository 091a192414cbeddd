-- ===== src/Types/SpotLoop.antt =====
-- When the search for a token's spot index ends.
use nanoreth.Prelude.{
  ℕ, ◌≡◌, ◌∙◌, refl, List, [], ◌∷◌, ◌++◌, Option, none, some, arith, lookup, All, Bool,
}
use nanoreth.Primitives.Sender.{spot_to_s}
use nanoreth.SpotMeta.{SpotId, SpotMap, erc20_contract_to_spot_token}
use nanoreth.Types.Convert.{
  Fetch, SpotState, done, waiting, fetch_spot_map, persist_spot_metadata_to_db, spot_loop,
}

-- The answer gives the map `m`, under these overrides.
abbrev pub Gives : ℕ → List (ℕ × ℕ) → List (Option (ℕ × ℕ)) → Fetch → SpotMap → Type 0
Gives chain_id manual env f m = erc20_contract_to_spot_token chain_id f.meta manual env ≡ some m

-- The answer gives a map without the token.
abbrev pub Lacks : ℕ → ℕ → List (ℕ × ℕ) → List (Option (ℕ × ℕ)) → Fetch → Type 0
Lacks chain_id to manual env f =
    (m : SpotMap) × Gives chain_id manual env f m × (lookup to m ≡ none)

-- The state after a fetch that gave `m`.
abbrev pub fetched : Fetch → SpotMap → SpotState → SpotState
fetched f m st = persist_spot_metadata_to_db f.write_ok m (record st { spot_evm_map = m })

persist_fields :
    (w : Bool) (m : SpotMap) (st : SpotState)
    → ((persist_spot_metadata_to_db w m st).spot_evm_map ≡ st.spot_evm_map)
      × ((persist_spot_metadata_to_db w m st).manual ≡ st.manual)
      × ((persist_spot_metadata_to_db w m st).env ≡ st.env)
unfolding persist_spot_metadata_to_db
persist_fields w m st = ground arith

fetch_spot_map-some :
    (chain_id : ℕ) (f : Fetch) (st : SpotState) (m : SpotMap)
    → Gives chain_id st.manual st.env f m
    → fetch_spot_map chain_id f st ≡ some (fetched f m st)
unfolding fetch_spot_map
fetch_spot_map-some chain_id f st m e = rw (e, fetch_spot_map)

spot_loop-at_hit :
    (chain_id to : ℕ) (fs : List Fetch) (st : SpotState) (spot : SpotId)
    → lookup to st.spot_evm_map ≡ some spot
    → spot_loop chain_id to fs st ≡ done (spot_to_s spot.index, record st { fetches = fs })
unfolding spot_loop
spot_loop-at_hit chain_id to [] st spot hit = rw (hit, spot_loop)
spot_loop-at_hit chain_id to (f ∷ fs) st spot hit = rw (hit, spot_loop)

-- A token that the map has costs no fetch and changes nothing.
pub spot_loop-hit :
    (chain_id to : ℕ) (st : SpotState) (spot : SpotId)
    → lookup to st.spot_evm_map ≡ some spot
    → spot_loop chain_id to st.fetches st ≡ done (spot_to_s spot.index, st)
spot_loop-hit chain_id to st = spot_loop-at_hit chain_id to st.fetches st

spot_loop-miss :
    (chain_id to : ℕ) (f : Fetch) (fs : List Fetch) (st : SpotState) (m : SpotMap)
    → lookup to st.spot_evm_map ≡ none
    → Gives chain_id st.manual st.env f m
    → spot_loop chain_id to (f ∷ fs) st ≡ spot_loop chain_id to fs (fetched f m st)
unfolding spot_loop
spot_loop-miss chain_id to f fs st m miss e = ground (arith, fetch_spot_map-some chain_id f st m e)

module _ (chain_id to : ℕ) (manual : List (ℕ × ℕ)) (env : List (Option (ℕ × ℕ))) where
  -- When neither the cache nor any answer so far has the token, the loop asks for the next one.
  pub spot_loop-waiting :
      (fs : List Fetch) (st : SpotState)
      → st.manual ≡ manual
      → st.env ≡ env
      → lookup to st.spot_evm_map ≡ none
      → All (Lacks chain_id to manual env) fs
      → spot_loop chain_id to fs st ≡ waiting
  unfolding spot_loop
  spot_loop-waiting [] st em ee miss lacks = rw (miss, spot_loop)
  spot_loop-waiting (f ∷ fs) st em ee miss ((m, gives, absent), lacks) =
      let (kept_map, kept_manual, kept_env) =
        persist_fields f.write_ok m (record st { spot_evm_map = m }) in
      spot_loop-miss chain_id to f fs st m miss (rw (em, ee) gives)
      ∙ spot_loop-waiting fs (fetched f m st) (kept_manual ∙ em) (kept_env ∙ ee)
          (rw kept_map absent) lacks

  -- When the cache does not have the token, the first answer that has it ends the loop, however
  -- many came before; that answer's map is the cache from then on, and the later answers are left.
  pub spot_loop-done :
      (fs : List Fetch) (f : Fetch) (rest : List Fetch) (m : SpotMap) (spot : SpotId)
      (st : SpotState)
      → st.manual ≡ manual
      → st.env ≡ env
      → lookup to st.spot_evm_map ≡ none
      → All (Lacks chain_id to manual env) fs
      → Gives chain_id manual env f m
      → lookup to m ≡ some spot
      → (st' : SpotState) × (spot_loop chain_id to (fs ++ f ∷ rest) st
          ≡ done (spot_to_s spot.index, st'))
        × (st'.spot_evm_map ≡ m)
        × (st'.fetches ≡ rest)
  spot_loop-done [] f rest m spot st em ee miss lacks gives hit =
      let (kept_map, kept_manual, kept_env) =
        persist_fields f.write_ok m (record st { spot_evm_map = m }) in
      (
        record (fetched f m st) { fetches = rest },
        spot_loop-miss chain_id to f rest st m miss (rw (em, ee) gives)
            ∙ spot_loop-at_hit chain_id to rest (fetched f m st) spot (rw kept_map hit),
        kept_map,
        refl,
      )
  spot_loop-done (g ∷ fs) f rest m spot st em ee miss ((m', gives', absent), lacks) gives hit =
      let (kept_map, kept_manual, kept_env) =
        persist_fields g.write_ok m' (record st { spot_evm_map = m' }) in
      let (st', e, map_is, left) =
        spot_loop-done fs f rest m spot (fetched g m' st) (kept_manual ∙ em) (kept_env ∙ ee)
          (rw kept_map absent) lacks gives hit in
      (
        st',
        spot_loop-miss chain_id to g (fs ++ f ∷ rest) st m' miss (rw (em, ee) gives') ∙ e,
        map_is,
        left,
      )
