-- ===== src/Rpc/Forward.antt =====
-- src/addons/call_forwarder.rs and tx_forwarder.rs: requests that go to an upstream node.
use nanoreth.Prelude.{
  Result, ok, err, ℕ, Bool, true, false, List, [], ◌∷◌, Option, none, some, if◌then◌else◌,
}

-- The errors of a client: a reply with an error, or a failed call.
pub data ClientError (E : Type 0) : Type 0 where
  call transport : E → ClientError E

-- What the caller gets: the upstream's own error, or an internal error with it.
pub data ErrorObject (E : Type 0) : Type 0 where
  upstream internal : E → ErrorObject E
  confirmation_timeout unimplemented : ErrorObject E

-- alloy's block id, as far as it is asked whether it is the latest.
pub data BlockId : Type 0 where
  latest : BlockId
  other : ℕ → BlockId

abbrev pub is_latest : Option BlockId → Bool
is_latest none = true
is_latest (some latest) = true
is_latest (some (other n)) = false

unfoldable pub from_client_error : {E : Type 0} → ClientError E → ErrorObject E
from_client_error (call e) = upstream e
from_client_error (transport e) = internal e

abbrev pub map_client_err : {E A : Type 0} → Result (ClientError E) A → Result (ErrorObject E) A
unfolding from_client_error
map_client_err (ok x) = ok x
map_client_err (err e) = err (from_client_error e)

abbrev pub map_eth_err : {E A : Type 0} → Result E A → Result (ErrorObject E) A
map_eth_err (ok x) = ok x
map_eth_err (err e) = err (internal e)

-- `call` and `estimate_gas`: calls at the latest block go upstream, others to this node.
unfoldable pub forward_call :
    {E A : Type 0}
    → Option BlockId
    → Result (ClientError E) A
    → Result E A
    → Result (ErrorObject E) A
unfolding map_client_err
forward_call block_id from_upstream from_here =
    if is_latest block_id then map_client_err from_upstream else map_eth_err from_here

-- The loop of `send_raw_transaction_sync` over the answers of the upstream before the timeout.
abbrev pub poll_answer :
    {E R : Type 0}
    → Result (ClientError E) (Option R)
    → Result (ErrorObject E) R
    → Result (ErrorObject E) R
unfolding from_client_error
poll_answer (err e) later = err (from_client_error e)
poll_answer (ok (some receipt)) later = ok receipt
poll_answer (ok none) later = later

unfoldable pub poll_receipt :
    {E R : Type 0} → List (Result (ClientError E) (Option R)) → Result (ErrorObject E) R
unfolding poll_answer
poll_receipt [] = err confirmation_timeout
poll_receipt (answer ∷ answers) = poll_answer answer (poll_receipt answers)

abbrev pub after_send :
    {E R : Type 0}
    → Result (ErrorObject E) ℕ
    → (ℕ → Result (ErrorObject E) R)
    → Result (ErrorObject E) R
after_send (err e) f = err e
after_send (ok hash) f = f hash

unfoldable pub send_raw_transaction_sync :
    {E R : Type 0}
    → Result (ClientError E) ℕ
    → (ℕ → List (Result (ClientError E) (Option R)))
    → Result (ErrorObject E) R
unfolding poll_receipt map_client_err
send_raw_transaction_sync sent answers =
    after_send (map_client_err sent) λ hash. poll_receipt (answers hash)
