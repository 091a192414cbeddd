-- ===== src/Compliance/Streams.antt =====
-- src/addons/hl_node_compliance/rpc.rs: the handlers of filters and of subscriptions. What reth's
-- filter and its streams give are arguments; a stream is the list of what it yields.
use nanoreth.Prelude.{Result, ok, ℕ, Bool, List, [], ◌∷◌, Option, none, some, if◌then◌else◌}
use nanoreth.Primitives.{EthereumReceipt}
use nanoreth.Compliance.Receipts.{◌>>=◌}
use nanoreth.Compliance.Logs.{RpcLog, adjust_log}
use nanoreth.Compliance.Query.{is_hl_compliant}

abbrev push_some {ℓ} : {A : Type ℓ} → Option A → List A → List A
push_some none xs = xs
push_some (some a) xs = a ∷ xs

unfoldable pub filter_map {ℓ κ} : {A : Type ℓ} {B : Type κ} → (A → Option B) → List A → List B
filter_map f [] = []
filter_map f (x ∷ xs) = push_some (f x) (filter_map f xs)

-- alloy's `FilterChanges`.
pub data FilterChanges (T : Type 0) : Type 0 where
  hashes : List ℕ → FilterChanges T
  logs : List RpcLog → FilterChanges T
  transactions : List T → FilterChanges T
  empty : FilterChanges T

pub data SubscriptionKind : Type 0 where
  new_heads logs other : SubscriptionKind

-- alloy's `Params`, with the filter of the logs.
pub data Params (F : Type 0) : Type 0 where
  logs : F → Params F
  bool : Bool → Params F
  absent : Params F

-- What becomes of a subscription: nothing, a stream of logs, a stream of heads, or reth takes it.
pub data Subscribed : Type 0 where
  closed heads accepted : Subscribed
  piped : List RpcLog → Subscribed

module _ (receipts_by_block : ℕ → Option (List EthereumReceipt)) where
  unfoldable pub adjust_logs : List RpcLog → List RpcLog
  unfolding filter_map adjust_log
  adjust_logs = filter_map (adjust_log receipts_by_block)

  unfoldable pub adjust_filter_changes : {T : Type 0} → FilterChanges T → FilterChanges T
  unfolding adjust_logs
  adjust_filter_changes (logs ls) = logs (adjust_logs ls)
  adjust_filter_changes (hashes hs) = hashes hs
  adjust_filter_changes (transactions ts) = transactions ts
  adjust_filter_changes empty = empty

  module _ (ext : Option Bool) (default_compliant : Bool) where
    -- `logs` and `filter_logs`.
    unfoldable pub served_logs : {E : Type 0} → Result E (List RpcLog) → Result E (List RpcLog)
    unfolding adjust_logs
    served_logs answer = do
      ls ← answer
      if is_hl_compliant ext default_compliant then ok (adjust_logs ls) else ok ls

    unfoldable pub filter_changes :
        {E T : Type 0} → Result E (FilterChanges T) → Result E (FilterChanges T)
    unfolding adjust_filter_changes
    filter_changes answer = do
      changes ← answer
      if is_hl_compliant ext default_compliant
          then ok (adjust_filter_changes changes)
          else ok changes

    abbrev pub pipe_logs : List RpcLog → Subscribed
    pipe_logs stream =
        if is_hl_compliant ext default_compliant then piped (adjust_logs stream) else piped stream

    -- The task of `subscribe`, once the sink is accepted.
    unfoldable pub subscribe :
        {F : Type 0} → (F → List RpcLog) → F → SubscriptionKind → Option (Params F) → Subscribed
    unfolding adjust_logs
    subscribe log_stream default logs (some (logs filter)) = pipe_logs (log_stream filter)
    subscribe log_stream default logs (some (bool b)) = closed
    subscribe log_stream default logs (some absent) = pipe_logs (log_stream default)
    subscribe log_stream default logs none = pipe_logs (log_stream default)
    subscribe log_stream default new_heads params = heads
    subscribe log_stream default other params = accepted
