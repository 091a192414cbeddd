-- ===== src/Evm/Forwarder.antt =====
-- src/node/evm/read_precompile_forwarder.rs: read precompile calls that are answered by another
-- node. Threads that ask are interleaved as steps: `enter` is the critical section that looks up
-- the cache, `finish` the one in which a leader stores its response. The request itself is an
-- argument; the rate limit, which only delays it, is not modelled.
use nanoreth.Prelude.{
  ℕ, ◌*◌, ◌%◌, ◌^◌, max, Bool, true, false, ◌&&◌, Option, none, some, Result, ok, err, List, [],
  ◌∷◌, ltb, leb, ◌==◌, if◌then◌else◌, length, keep, add_u64,
}
use nanoreth.Evm.Precompiles.{PrecompileAnswer, same_bytes}

abbrev pub read_precompile_base_gas : ℕ
read_precompile_base_gas = 1000

abbrev pub read_precompile_gas_per_byte : ℕ
read_precompile_gas_per_byte = 33

unfoldable pub read_precompile_gas : ℕ → ℕ → ℕ
read_precompile_gas input_len output_len =
    add_u64 read_precompile_base_gas
      ((read_precompile_gas_per_byte * add_u64 input_len output_len) % 2 ^ 64)

abbrev pub max_cache_entries : ℕ
max_cache_entries = 16384

pub data Response : Type 0 where
  output : List ℕ → Response
  rejected : Response

-- `(block_number, head_hash, address, input)`.
pub record Key : Type 0 where
  pub block_number : ℕ
  pub head_hash : ℕ
  pub address : ℕ
  pub input : List ℕ

abbrev pub same_key : Key → Key → Bool
same_key k j =
    (k.block_number == j.block_number)
    && ((k.head_hash == j.head_hash) && ((k.address == j.address) && same_bytes k.input j.input))

-- `in_flight` holds the keys that a leader is asking for.
pub record Cache : Type 0 where
  pub newest_block_number : ℕ
  pub responses : List (Key × Response)
  pub in_flight : List Key

unfoldable pub find_response : Key → List (Key × Response) → Option Response
find_response k [] = none
find_response k ((j, r) ∷ rs) = if same_key j k then some r else find_response k rs

unfoldable pub set_response : Key → Response → List (Key × Response) → List (Key × Response)
set_response k r [] = (k, r) ∷ []
set_response k r ((j, s) ∷ rs) = if same_key j k then (j, r) ∷ rs else (j, s) ∷ set_response k r rs

unfoldable pub is_in_flight : Key → List Key → Bool
is_in_flight k [] = false
is_in_flight k (j ∷ js) = if same_key j k then true else is_in_flight k js

unfoldable pub remove_in_flight : Key → List Key → List Key
remove_in_flight k [] = []
remove_in_flight k (j ∷ js) =
    let rest = remove_in_flight k js in if same_key j k then rest else j ∷ rest

-- What a thread learns in the first critical section of `resolve`.
pub data Entered : Type 0 where
  cached : Response → Entered
  follower leader : Entered

abbrev pub enter_missing : Key → Cache → Entered × Cache
enter_missing k c = if is_in_flight k c.in_flight then (follower, c) else (
  leader,
  record {
    newest_block_number = c.newest_block_number;
    responses = c.responses;
    in_flight = k ∷ c.in_flight;
  },
)

abbrev enter_found : Key → Cache → Option Response → Entered × Cache
enter_found k c none = enter_missing k c
enter_found k c (some r) = (cached r, c)

unfoldable pub enter : Key → Cache → Entered × Cache
enter k c = enter_found k c (find_response k c.responses)

abbrev is_current : ℕ → Key × Response → Bool
is_current newest (k, _) = leb newest k.block_number

-- Making room: first what the chain has moved past, then all.
unfoldable pub evict : ℕ → List (Key × Response) → List (Key × Response)
evict newest responses =
    let kept = keep (is_current newest) responses in
    if leb max_cache_entries (length responses)
    then (if leb max_cache_entries (length kept) then [] else kept)
    else responses

-- The second critical section of `resolve`, with what the request gave.
unfoldable pub finish {ℓ} : {E : Type ℓ} → Key → Result E Response → Cache → Cache
finish k (err e) c = record {
  newest_block_number = c.newest_block_number;
  responses = c.responses;
  in_flight = remove_in_flight k c.in_flight;
}
finish k (ok r) c =
    let newest = max c.newest_block_number k.block_number in
    record {
      newest_block_number = newest;
      responses = set_response k r (evict newest c.responses);
      in_flight = remove_in_flight k c.in_flight;
    }

-- `call`, once `resolve` has answered.
unfoldable pub answer {ℓ} :
    {E : Type ℓ} → List ℕ → ℕ → Result E Response → Result E PrecompileAnswer
answer input gas_limit (err e) = err e
answer input gas_limit (ok rejected) = ok PrecompileAnswer.out_of_gas
answer input gas_limit (ok (output bytes)) =
    let gas_used = read_precompile_gas (length input) (length bytes) in
    if ltb gas_limit gas_used
    then ok PrecompileAnswer.out_of_gas
    else ok (PrecompileAnswer.output gas_used bytes)

abbrev execution_error_code : ℕ
execution_error_code = 32003

-- The code of a JSON-RPC error: `(true, n)` is the negative number -n. Whether the message
-- contains "PrecompileError" is the second argument.
unfoldable pub is_rejected_input : Bool × ℕ → Bool → Bool
is_rejected_input (negative, code) mentions =
    negative && ((code == execution_error_code) && mentions)

-- What the client reports of one request, and what `request` makes of it.
pub data ClientError : Type 0 where
  call : Bool × ℕ → Bool → ClientError
  other : ClientError

unfoldable pub request : Option (Result ClientError (List ℕ)) → Result {0, 0} Unit Response
unfolding is_rejected_input
request none = err tt
request (some (ok bytes)) = ok (output bytes)
request (some (err other)) = err tt
request (some (err (call code mentions))) =
    if is_rejected_input code mentions then ok rejected else err tt
