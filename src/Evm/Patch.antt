-- ===== src/Evm/Patch.antt =====
-- src/node/evm/patch.rs: the accounts whose changes the first mainnet blocks drop. An address is
-- the number that it spells.
use nanoreth.Prelude.{ℕ, Bool, true, false, ◌||◌, ◌&&◌, List, [], ◌∷◌, ltb, ◌==◌, if◌then◌else◌}

pub record PatchAfterTx : Type 0 where
  pub block_num : ℕ
  pub idx : ℕ
  pub is_system : Bool
  pub address : ℕ

abbrev patch_at : ℕ → ℕ → Bool → ℕ → PatchAfterTx
patch_at block_num idx is_system address = record {
  block_num = block_num;
  idx = idx;
  is_system = is_system;
  address = address;
}

unfoldable pub mainnet_patches_after_tx : List PatchAfterTx
mainnet_patches_after_tx =
    patch_at 1467569 0 false 296666658469632760234825704126269030212636784207
    ∷ patch_at 1467631 0 false 296666658469632760234825704126269030212636784207
    ∷ patch_at 1499313 2 false 1292996861736180299557661997389159277245801346384
    ∷ patch_at 1499406 0 false 1292996861736180299557661997389159277245801346384
    ∷ patch_at 1499685 0 false 1455158745243889984589713025039415113755222903344
    ∷ patch_at 1514843 0 false 652215933693629756470143444683745789197292774915
    ∷ patch_at 1514936 0 false 652215933693629756470143444683745789197292774915
    ∷ patch_at 1530529 2 false 951013274578379202451075581391624136490562934906
    ∷ patch_at 1530622 2 false 951013274578379202451075581391624136490562934906
    ∷ patch_at 1530684 3 false 951013274578379202451075581391624136490562934906
    ∷ patch_at 1530777 3 false 951013274578379202451075581391624136490562934906
    ∷ patch_at 1530839 2 false 600385213772036279700749172977236386688500691041
    ∷ patch_at 1530901 0 false 1447744076156783621772900277900423556193604094858
    ∷ patch_at 1530994 3 false 1447744076156783621772900277900423556193604094858
    ∷ patch_at 1531056 4 false 1258291908802052765512299242556361947574863836580
    ∷ patch_at 1531149 0 false 1258291908802052765512299242556361947574863836580
    ∷ patch_at 1531211 3 false 1258291908802052765512299242556361947574863836580
    ∷ patch_at 1531366 1 false 882410267648907427715426297095608463571173043567
    ∷ []

abbrev same : Bool → Bool → Bool
same true b = b
same false true = false
same false false = true

-- `HashMap::remove`.
unfoldable pub remove {ℓ} : {V : Type ℓ} → ℕ → List (ℕ × V) → List (ℕ × V)
remove k [] = []
remove k ((j, v) ∷ m) = let rest = remove k m in if j == k then rest else (j, v) ∷ rest

abbrev pub applies : ℕ → ℕ → Bool → PatchAfterTx → Bool
applies block_number tx_index is_system_tx p =
    (block_number == p.block_num) && (tx_index == p.idx) && same is_system_tx p.is_system

unfoldable pub apply_patches {ℓ} :
    {V : Type ℓ} → ℕ → ℕ → Bool → List PatchAfterTx → List (ℕ × V) → List (ℕ × V)
apply_patches n i sys [] changes = changes
apply_patches n i sys (p ∷ ps) changes =
    if applies n i sys p
    then apply_patches n i sys ps (remove p.address changes)
    else apply_patches n i sys ps changes

abbrev pub first_of : List PatchAfterTx → ℕ
first_of [] = 0
first_of (p ∷ ps) = p.block_num

abbrev pub last_of : ℕ → List PatchAfterTx → ℕ
last_of n [] = n
last_of n (p ∷ ps) = last_of p.block_num ps

-- Off the range of the table nothing is looked at.
unfoldable pub patch_mainnet_after_tx {ℓ} :
    {V : Type ℓ} → ℕ → ℕ → Bool → List (ℕ × V) → List (ℕ × V)
patch_mainnet_after_tx n i sys changes =
    if ltb n (first_of mainnet_patches_after_tx) || ltb (last_of 0 mainnet_patches_after_tx) n
    then changes
    else apply_patches n i sys mainnet_patches_after_tx changes
