-- ===== src/Evm/ForwarderLaws.antt =====
-- The cache of the forwarder: its bound, and what a thread finds after another one has finished.
use nanoreth.Prelude.{
  Option-cases, ℕ, suc, ◌+◌, ◌*◌, ◌^◌, ◌≤◌, ◌<◌, ◌≡◌, refl, max, true, false, none, some, Result,
  ok, err, List, [], ◌∷◌, length, arith, Bool-cases, inl, inr,
}
use nanoreth.Evm.Precompiles.{PrecompileAnswer, same_bytes}
use nanoreth.Evm.Forwarder.{
  Cache, Entered, Key, Response, answer, cached, enter, enter_missing, evict, find_response, finish,
  is_in_flight, leader, max_cache_entries, output, read_precompile_gas, remove_in_flight, same_key,
  set_response,
}

same_bytes_refl : (xs : List ℕ) → same_bytes xs xs ≡ true
same_bytes_refl [] = refl
same_bytes_refl (x ∷ xs) = ground (arith, same_bytes_refl xs)

same_key_refl : (k : Key) → same_key k k ≡ true
same_key_refl k = ground (arith, same_bytes_refl k.input)

find_response-set_response :
    (k : Key) (r : Response) (rs : List (Key × Response))
    → same_key k k ≡ true
    → find_response k (set_response k r rs) ≡ some r
unfolding find_response set_response
find_response-set_response k r [] h = ground (arith, h)
find_response-set_response k r ((j, s) ∷ rs) h = elim (Bool-cases (same_key j k)) [
  | inl b ↦ rw (b, b) refl
  | inr b ↦ rw (b, b) (find_response-set_response k r rs h)
]

length-set_response :
    (k : Key) (r : Response) (rs : List (Key × Response))
    → length (set_response k r rs) ≤ suc (length rs)
unfolding set_response
length-set_response k r [] = omega arith
length-set_response k r ((j, s) ∷ rs) = elim (Bool-cases (same_key j k)) [
  | inl b ↦ rw b (omega arith)
  | inr b ↦ rw b (omega (arith, length-set_response k r rs))
]

evict-bound :
    (newest : ℕ) (rs : List (Key × Response)) → length (evict newest rs) < max_cache_entries
unfolding evict
evict-bound newest rs = ground arith

is_in_flight-remove_in_flight :
    (k : Key) (js : List Key) → is_in_flight k (remove_in_flight k js) ≡ false
unfolding is_in_flight remove_in_flight
is_in_flight-remove_in_flight k [] = refl
is_in_flight-remove_in_flight k (j ∷ js) = elim (Bool-cases (same_key j k)) [
  | inl b ↦ rw b (is_in_flight-remove_in_flight k js)
  | inr b ↦ rw (b, b) (is_in_flight-remove_in_flight k js)
]

enter_missing-responses : (k : Key) (c : Cache) → (enter_missing k c).1.responses ≡ c.responses
enter_missing-responses k c = elim (Bool-cases (is_in_flight k c.in_flight)) [
  | inl b ↦ rw b refl
  | inr b ↦ rw b refl
]

enter-responses : (k : Key) (c : Cache) → (enter k c).1.responses ≡ c.responses
unfolding enter
enter-responses k c = elim (Option-cases (find_response k c.responses)) [
  | inl f ↦ rw f (enter_missing-responses k c)
  | inr (r, f) ↦ rw f refl
]

-- Both critical sections keep a cache of at most 16,384 responses at that: a thread that enters,
-- and a leader that finishes with a response or with an error.
pub finish-bound :
    (k : Key) (result : Result {0, 0} Unit Response) (c : Cache)
    → length c.responses ≤ max_cache_entries
    → (length (enter k c).1.responses ≤ max_cache_entries)
      × (length (finish k result c).responses ≤ max_cache_entries)
unfolding finish
finish-bound k (err e) c h = (rw (enter-responses k c) h, h)
finish-bound k (ok r) c h =
    let newest = max c.newest_block_number k.block_number in
    (
      rw (enter-responses k c) h,
      omega (
        arith,
        length-set_response k r (evict newest c.responses),
        evict-bound newest c.responses,
      ),
    )

enter-cached :
    (k : Key) (r : Response) (c : Cache)
    → find_response k c.responses ≡ some r
    → (enter k c).0 ≡ cached r
unfolding enter
enter-cached k r c h = rw h refl

abbrev pub expected_entry : Result {0, 0} Unit Response → Entered
expected_entry (ok r) = cached r
expected_entry (err e) = leader

-- When the cache has no response for a key and the leader of that key finishes, a thread that
-- enters then finds the leader's response, or after a failed request becomes the leader itself.
pub enter-finish :
    (k : Key) (result : Result {0, 0} Unit Response) (c : Cache)
    → find_response k c.responses ≡ none
    → (enter k (finish k result c)).0 ≡ expected_entry result
unfolding enter finish
enter-finish k (err e) c h = rw (h, is_in_flight-remove_in_flight k c.in_flight) refl
enter-finish k (ok r) c h = enter-cached k r (finish {E = Unit {0}} k (ok r) c) (
    find_response-set_response k r (evict (max c.newest_block_number k.block_number) c.responses)
      (same_key_refl k))

-- For payloads below 2^32 bytes, an answer with an output costs 1000 gas and 33 for each byte of
-- input and output, with no wrap-around, and that is within the limit of the call.
pub answer-gas :
    (input bytes out : List ℕ) (limit gas : ℕ)
    → length input < 2 ^ 32
    → length bytes < 2 ^ 32
    → answer {E = Unit {0}} input limit (ok (output bytes)) ≡ ok (PrecompileAnswer.output gas out)
    → (out ≡ bytes) × (gas ≡ 1000 + 33 * (length input + length bytes)) × (gas ≤ limit)
unfolding answer read_precompile_gas
answer-gas input bytes out limit gas h k e = ground (arith, h, k, e)
