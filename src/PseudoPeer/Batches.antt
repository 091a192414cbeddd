-- ===== src/PseudoPeer/Batches.antt =====
-- src/pseudo_peer/sources: `collect_blocks` of mod.rs, s3.rs and rpc.rs, which fetch blocks in
-- batches, and utils.rs. Requests that run at the same time are answered in the order of the list.
use nanoreth.Prelude.{
  Result, ok, err, ℕ, zero, suc, ◌*◌, ◌/◌, List, [], ◌∷◌, ◌++◌, map, Option, none, some, ltb,
  if◌then◌else◌, length, take, drop, sub_u64,
}

infixl 5 ◌>>=◌
abbrev pub ◌>>=◌ {ℓ κ ι} :
    {E : Type ℓ} {A : Type κ} {B : Type ι} → Result E A → (A → Result E B) → Result E B
ok a >>= f = f a
err e >>= f = err e

-- `collect::<Result<Vec<_>, _>>`: all results, or the first error.
unfoldable pub collect {ℓ κ ι} :
    {E : Type ℓ} {A : Type κ} {B : Type ι} → (A → Result E B) → List A → Result E (List B)
collect f [] = ok []
collect f (x ∷ xs) = do b ← f x; bs ← collect f xs; ok (b ∷ bs)

-- `extend(result?)` over the results of the batches.
unfoldable pub extend_all {ℓ κ} :
    {E : Type ℓ} {B : Type κ} → List (Result E (List B)) → Result E (List B)
extend_all [] = ok []
extend_all (r ∷ rs) = do bs ← r; cs ← extend_all rs; ok (bs ++ cs)

-- `chunks(size)`; the fuel is the length of the list.
unfoldable pub chunks_fuel {ℓ} : {A : Type ℓ} → ℕ → ℕ → List A → List (List A)
chunks_fuel fuel size [] = []
chunks_fuel zero size (x ∷ xs) = []
chunks_fuel (suc fuel) size (x ∷ xs) =
    take size (x ∷ xs) ∷ chunks_fuel fuel size (drop size (x ∷ xs))

unfoldable pub chunks {ℓ} : {A : Type ℓ} → ℕ → List A → List (List A)
unfolding chunks_fuel
chunks size xs = chunks_fuel (length xs) size xs

abbrev pub batch_size : ℕ
batch_size = 500

abbrev pub recommended_chunk_size : ℕ
recommended_chunk_size = 1000

-- `RpcBlockSource::collect_blocks`; the request for a batch is an argument.
unfoldable pub rpc_collect_blocks {ℓ κ} :
    {E : Type ℓ} {B : Type κ} → (List ℕ → Result E (List B)) → List ℕ → Result E (List B)
unfolding chunks extend_all
rpc_collect_blocks request heights = extend_all (map request (chunks batch_size heights))

-- `S3BlockSource::collect_blocks`: one batch after the other.
unfoldable pub s3_collect_blocks {ℓ κ} :
    {E : Type ℓ} {B : Type κ} → (ℕ → Result E B) → List ℕ → Result E (List B)
unfolding chunks extend_all collect
s3_collect_blocks collect_block heights =
    extend_all (map (collect collect_block) (chunks recommended_chunk_size heights))

-- `rmp_path`: the three numbers of the path.
unfoldable pub rmp_path : ℕ → ℕ × (ℕ × ℕ)
rmp_path height =
    ((sub_u64 height 1) / 1000000 * 1000000, ((sub_u64 height 1) / 1000 * 1000, height))

-- The loop of `name_with_largest_number` over the names that have a number: the last of the names
-- as they are sorted by it, without change of order among equals.
abbrev pub later {ℓ} : {S : Type ℓ} → ℕ × S → Option (ℕ × S) → ℕ × S
later (n, file) none = (n, file)
later (n, file) (some (m, other)) = if ltb m n then (n, file) else (m, other)

abbrev pub number_found {ℓ} : {S : Type ℓ} → S → Option ℕ → Option (ℕ × S) → Option (ℕ × S)
number_found file none rest = rest
number_found file (some n) rest = some (later (n, file) rest)

unfoldable pub name_with_largest_number {ℓ} :
    {S : Type ℓ} → (S → Option ℕ) → List S → Option (ℕ × S)
name_with_largest_number number [] = none
name_with_largest_number number (file ∷ files) =
    number_found file (number file) (name_with_largest_number number files)
