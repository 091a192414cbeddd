-- ===== src/Evm/Installed.antt =====
-- Which precompiles a block finds installed, and what they answer.
use nanoreth.Prelude.{
  ℕ, suc, zero, ◌+◌, ◌-◌, ◌≡◌, refl, sym, ap, ◌∙◌, true, ◌&&◌, Option, none, some, List, [], ◌∷◌,
  ltb, leb, if◌then◌else◌, or_else, find_last, arith, inl, inr, Bool-cases, Option-cases,
}
use mathlib.Core.Option.{map as Option_map, some-injective}
use nanoreth.Primitives.{ReadPrecompileCalls}
use nanoreth.Evm.Precompiles.{
  Calls, Precompile, PrecompileAnswer, PrecompilesMap, apply_precompiles_with_forwarder, clear,
  contains, fill_all_precompiles, fill_from, highest_address, install_recorded, is_read_precompile,
  keep_or_unrecorded, lowest_address, recorded, run, run_precompile, run_unrecorded_precompile,
  unrecorded, unwrap_or, apply_precompiles, warm_precompiles_block_number,
}

abbrev pub recording : Option ℕ → ℕ → ℕ → Calls → Precompile
recording forwarder block k calls = recorded calls forwarder k block

-- What a block finds at an address, by what its extras say.
abbrev pub expected :
    ReadPrecompileCalls → ℕ → Option ℕ → ℕ → ℕ → Option Precompile → Option Precompile
expected calls top forwarder block k before =
    or_else (Option_map (recording forwarder block k) (find_last k calls)) (
      or_else (if is_read_precompile k then none else before) (
        if leb warm_precompiles_block_number block && (leb lowest_address k && leb k top)
        then some (unrecorded forwarder k block)
        else none))

abbrev pub recorded_answer : Option Calls → List ℕ → ℕ → PrecompileAnswer
recorded_answer none data_ gas = PrecompileAnswer.out_of_gas
recorded_answer (some calls) data_ gas =
    unwrap_or PrecompileAnswer.out_of_gas (run_precompile calls data_ gas)

run-expected :
    (calls : ReadPrecompileCalls) (top block k : ℕ) (before : Option Precompile) (x : Precompile)
    (data_ : List ℕ) (gas : ℕ)
    → is_read_precompile k ≡ true
    → expected calls top none block k before ≡ some x
    → run x data_ gas ≡ recorded_answer (find_last k calls) data_ gas
unfolding run run_unrecorded_precompile
run-expected calls top block k before x data_ gas h e = elim (Option-cases (find_last k calls)) [
  | inl n ↦ ground (arith, n, h, e)
  | inr (c, n) ↦ ground (arith, n, h, e)
]

module _ (p : PrecompilesMap) where
  get-clear :
      (k : ℕ) (ks : List ℕ) (m : p.Map)
      → p.get k (clear p ks m) ≡ (if contains k ks && is_read_precompile k then none else p.get k m)
  unfolding clear
  get-clear k [] m = refl
  get-clear k (j ∷ ks) m = ground (
    arith,
    get-clear k ks m,
    get-clear k ks (p.apply_precompile j (λ _. none) m),
    p.get-apply_precompile j k (λ _. none) m,
  )

  get-clear_all :
      (k : ℕ) (m : p.Map)
      → p.get k (clear p (p.addresses m) m) ≡ (if is_read_precompile k then none else p.get k m)
  get-clear_all k m = ground (arith, get-clear k (p.addresses m) m, p.get-addresses k m)

  get-install_recorded :
      (k : ℕ) (calls : ReadPrecompileCalls) (forwarder : Option ℕ) (block : ℕ) (m : p.Map)
      → p.get k (install_recorded p calls forwarder block m)
        ≡ or_else (Option_map (recording forwarder block k) (find_last k calls)) (p.get k m)
  unfolding install_recorded find_last
  get-install_recorded k [] forwarder block m = refl
  get-install_recorded k ((j, c) ∷ calls) forwarder block m = ground (
    arith,
    get-install_recorded k calls forwarder block
        (p.apply_precompile j (λ _. some (recorded c forwarder j block)) m),
    p.get-apply_precompile j k (λ _. some (recorded c forwarder j block)) m,
  )

  get-fill_from :
      (n j k : ℕ) (forwarder : Option ℕ) (block : ℕ) (m : p.Map)
      → p.get k (fill_from p n j forwarder block m) ≡ (
          if leb j k && ltb k (j + n)
          then keep_or_unrecorded forwarder k block (p.get k m)
          else p.get k m)
  unfolding fill_from
  get-fill_from zero j k forwarder block m = ground arith
  get-fill_from (suc n) j k forwarder block m = ground (
    arith,
    get-fill_from n (suc j) k forwarder block
        (p.apply_precompile j (keep_or_unrecorded forwarder j block) m),
    p.get-apply_precompile j k (keep_or_unrecorded forwarder j block) m,
  )

  get-filled :
      (calls : ReadPrecompileCalls) (top : ℕ) (forwarder : Option ℕ) (block k : ℕ) (m : p.Map)
      → leb warm_precompiles_block_number block ≡ true
      → p.get k (
          fill_from p
            (top + 1 - lowest_address)
            lowest_address
            forwarder
            block
            (install_recorded p calls forwarder block (clear p (p.addresses m) m)))
        ≡ expected calls top forwarder block k (p.get k m)
  get-filled calls top forwarder block k m h =
      let cleared = clear p (p.addresses m) m in
      ground (
        arith,
        h,
        get-clear_all k m,
        get-install_recorded k calls forwarder block cleared,
        get-fill_from (top + 1 - lowest_address) lowest_address k forwarder block
            (install_recorded p calls forwarder block cleared),
      )

  -- With a highest address that is a `u64` (0x80D when the block names none), installing the
  -- precompiles of a block gives a map, and at every address this holds: a precompile that the
  -- block recorded is replayed; any other entry of 0x00…08xx that was there before is gone; and
  -- from block 8,197,684 on the free addresses from 0x800 to the highest one burn the gas limit
  -- or ask the forwarder.
  pub get-apply_precompiles_with_forwarder :
      (calls : ReadPrecompileCalls) (highest : Option ℕ) (top : ℕ) (forwarder : Option ℕ)
      (block : ℕ) (m : p.Map)
      → highest_address highest ≡ some top
      → (m' : p.Map) × (apply_precompiles_with_forwarder p (some calls) highest forwarder block m
          ≡ some m')
        × ((k : ℕ) → p.get k m' ≡ expected calls top forwarder block k (p.get k m))
  unfolding apply_precompiles_with_forwarder fill_all_precompiles
  get-apply_precompiles_with_forwarder calls highest top forwarder block m h =
      let installed = install_recorded p calls forwarder block (clear p (p.addresses m) m) in
      elim (Bool-cases (leb warm_precompiles_block_number block)) [
        | inl w ↦ (
          fill_from p (top + 1 - lowest_address) lowest_address forwarder block installed,
          rw (w, h) refl,
          λ k. get-filled calls top forwarder block k m w,
        )
        | inr w ↦ (
          installed,
          rw w refl,
          λ k. ground (
            arith,
            w,
            get-clear_all k m,
            get-install_recorded k calls forwarder block (clear p (p.addresses m) m),
          ),
        )
      ]

  -- Without a forwarder, as when a block is executed, a read precompile of 0x00…08xx answers as
  -- the calls that this block recorded for it say, and any other input burns its gas limit,
  -- whatever was installed before; nothing is forwarded.
  pub run-apply_precompiles :
      (calls : ReadPrecompileCalls) (highest : Option ℕ) (top block k : ℕ) (m m' : p.Map)
      (x : Precompile) (data_ : List ℕ) (gas : ℕ)
      → highest_address highest ≡ some top
      → apply_precompiles p (some calls) highest block m ≡ some m'
      → is_read_precompile k ≡ true
      → p.get k m' ≡ some x
      → run x data_ gas ≡ recorded_answer (find_last k calls) data_ gas
  unfolding apply_precompiles
  run-apply_precompiles calls highest top block k m m' x data_ gas h e r g =
      let (m'', made, at_each) =
        get-apply_precompiles_with_forwarder calls highest top none block m h in
      let same = some-injective m'' m' (sym made ∙ e) in
      run-expected calls top block k (p.get k m) x data_ gas r
        (sym (at_each k) ∙ ap (p.get k) same ∙ g)
