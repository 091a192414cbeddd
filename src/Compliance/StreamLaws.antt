-- ===== src/Compliance/StreamLaws.antt =====
-- What a compliant filter or subscription makes of the logs of a whole block.
use nanoreth.Prelude.{
  ok, ℕ, suc, ◌+◌, ◌<◌, ◌≤◌, ◌^◌, ◌≡◌, refl, Bool, true, List, [], ◌∷◌, ◌++◌, Option, some, arith,
  length, All,
}
use nanoreth.Primitives.{EthereumReceipt, Log}
use nanoreth.Compliance.{Entry}
use nanoreth.Compliance.Numbering.{IsFree, IsPaid, log_count}
use nanoreth.Compliance.Logs.{RpcLog, adjust_log, count_system, count_system-append, receipts_of}
use nanoreth.Compliance.Streams.{
  FilterChanges, SubscriptionKind, Params, adjust_filter_changes, adjust_logs, filter_changes,
  filter_map, piped, served_logs, subscribe,
}
use nanoreth.Compliance.Query.{is_hl_compliant}

-- The logs of a block as reth numbers them, from a transaction index and a log index on.
module _ (payload : Log → List ℕ) (number : ℕ) where
  abbrev log_at : ℕ → ℕ → Log → RpcLog
  log_at tx_idx log_idx l = record {
    block_number = some number;
    transaction_index = some tx_idx;
    log_index = some log_idx;
    body = payload l;
  }

  unfoldable number_receipt_logs : ℕ → ℕ → List Log → List RpcLog
  number_receipt_logs tx_idx log_idx [] = []
  number_receipt_logs tx_idx log_idx (l ∷ ls) =
      log_at tx_idx log_idx l ∷ number_receipt_logs tx_idx (log_idx + 1) ls

  unfoldable pub number_logs : {T : Type 0} → ℕ → ℕ → List (Entry T) → List RpcLog
  unfolding number_receipt_logs
  number_logs tx_idx log_idx [] = []
  number_logs tx_idx log_idx ((t, r) ∷ es) =
      number_receipt_logs tx_idx log_idx r.logs
      ++ number_logs (tx_idx + 1) (log_idx + length r.logs) es

filter_map-append {ℓ κ} :
    {A : Type ℓ} {B : Type κ} (f : A → Option B) (xs ys : List A)
    → filter_map f (xs ++ ys) ≡ filter_map f xs ++ filter_map f ys
unfolding filter_map
filter_map-append f [] ys = refl
filter_map-append f (x ∷ xs) ys = ground (arith, filter_map-append f xs ys)

module _ (payload : Log → List ℕ) (number : ℕ)
    (receipts_by_block : ℕ → Option (List EthereumReceipt)) (all : List EthereumReceipt)
    (txs logs' : ℕ) (found : receipts_by_block number ≡ some all)
    (counted : count_system all ≡ (txs, logs')) where
  hidden_receipt_logs :
      (tx_idx log_idx : ℕ) (ls : List Log)
      → tx_idx < txs
      → filter_map
          (adjust_log receipts_by_block)
          (number_receipt_logs payload number tx_idx log_idx ls)
        ≡ []
  unfolding filter_map number_receipt_logs adjust_log
  hidden_receipt_logs tx_idx log_idx [] h = refl
  hidden_receipt_logs tx_idx log_idx (l ∷ ls) h =
      rw (found, counted) (ground (arith, h, hidden_receipt_logs tx_idx (log_idx + 1) ls h))

  adjust_log-shown :
      (tx_idx log_idx : ℕ) (l : Log)
      → log_idx < 2 ^ 64
      → adjust_log receipts_by_block (log_at payload number (txs + tx_idx) (logs' + log_idx) l)
        ≡ some (log_at payload number tx_idx log_idx l)
  unfolding adjust_log
  adjust_log-shown tx_idx log_idx l h = rw (found, counted) (ground (arith, h))

  shown_receipt_logs :
      (tx_idx log_idx : ℕ) (ls : List Log)
      → log_idx + length ls ≤ 2 ^ 64
      → filter_map
          (adjust_log receipts_by_block)
          (number_receipt_logs payload number (txs + tx_idx) (logs' + log_idx) ls)
        ≡ number_receipt_logs payload number tx_idx log_idx ls
  unfolding filter_map number_receipt_logs
  shown_receipt_logs tx_idx log_idx [] h = refl
  shown_receipt_logs tx_idx log_idx (l ∷ ls) h =
      let rest = shown_receipt_logs tx_idx (log_idx + 1) ls (omega (arith, h)) in
      let next : logs' + log_idx + 1 ≡ logs' + (log_idx + 1) = omega arith in
      rw (adjust_log-shown tx_idx log_idx l (omega (arith, h)), next, rest) refl

  module _ {T : Type 0} where
    shown_logs :
        (tx_idx log_idx : ℕ) (es : List (Entry T))
        → log_idx + log_count es ≤ 2 ^ 64
        → filter_map
            (adjust_log receipts_by_block)
            (number_logs payload number (txs + tx_idx) (logs' + log_idx) es)
          ≡ number_logs payload number tx_idx log_idx es
    unfolding number_logs filter_map
    shown_logs tx_idx log_idx [] h = refl
    shown_logs tx_idx log_idx ((t, r) ∷ es) h =
        let next : txs + tx_idx + 1 ≡ txs + (tx_idx + 1) = omega arith in
        let next' : logs' + log_idx + length r.logs ≡ logs' + (log_idx + length r.logs) =
          omega arith in
        rw
          (
            filter_map-append (adjust_log receipts_by_block)
                (number_receipt_logs payload number (txs + tx_idx) (logs' + log_idx) r.logs)
                (number_logs payload number (txs + tx_idx + 1) (logs' + log_idx + length r.logs)
                  es),
            shown_receipt_logs tx_idx log_idx r.logs (omega (arith, h)),
            next,
            next',
            shown_logs (tx_idx + 1) (log_idx + length r.logs) es (omega (arith, h)),
          )
          refl

    hidden_logs :
        (tx_idx log_idx : ℕ) (sys reg : List (Entry T))
        → tx_idx + length sys ≤ txs
        → filter_map
            (adjust_log receipts_by_block)
            (number_logs payload number tx_idx log_idx (sys ++ reg))
          ≡ filter_map
              (adjust_log receipts_by_block)
              (number_logs payload number (tx_idx + length sys) (log_idx + log_count sys) reg)
    unfolding number_logs filter_map
    hidden_logs tx_idx log_idx [] reg h =
        let here : tx_idx + 0 ≡ tx_idx = omega arith in
        let here' : log_idx + 0 ≡ log_idx = omega arith in rw (here, here') refl
    hidden_logs tx_idx log_idx ((t, r) ∷ sys) reg h =
        let next : tx_idx + suc (length sys) ≡ tx_idx + 1 + length sys = omega arith in
        let next' : log_idx + (length r.logs + log_count sys)
            ≡ log_idx + length r.logs + log_count sys =
          omega arith in
        rw
          (
            next,
            next',
            filter_map-append (adjust_log receipts_by_block)
                (number_receipt_logs payload number tx_idx log_idx r.logs)
                (number_logs payload number (tx_idx + 1) (log_idx + length r.logs) (sys ++ reg)),
            hidden_receipt_logs tx_idx log_idx r.logs (omega (arith, h)),
          )
          (hidden_logs (tx_idx + 1) (log_idx + length r.logs) sys reg (omega (arith, h)))

module _ {T : Type 0} (payload : Log → List ℕ) (number : ℕ)
    (receipts_by_block : ℕ → Option (List EthereumReceipt)) (sys reg : List (Entry T))
    (free : All IsFree sys) (paid : All IsPaid reg)
    (found : receipts_by_block number ≡ some (receipts_of (sys ++ reg)))
    (small : log_count reg ≤ 2 ^ 64) where
  adjust_logs_lem :
      adjust_logs receipts_by_block (number_logs payload number 0 0 (sys ++ reg))
      ≡ number_logs payload number 0 0 reg
  unfolding adjust_logs
  adjust_logs_lem =
      let counted = count_system-append sys reg free paid in
      let tx_start : 0 + length sys ≡ length sys + 0 = omega arith in
      let log_start : 0 + log_count sys ≡ log_count sys + 0 = omega arith in
      rw
        (
          hidden_logs payload number receipts_by_block (receipts_of (sys ++ reg)) (length sys)
              (log_count sys) found counted 0 0 sys reg (omega arith),
          tx_start,
          log_start,
        )
        (shown_logs payload number receipts_by_block (receipts_of (sys ++ reg)) (length sys)
          (log_count sys) found counted 0 0 reg (omega (arith, small)))

  -- A compliant request sees the logs of a block as if its ordinary transactions were the whole
  -- block: the logs of the system transactions are gone, and the others are numbered from 0,
  -- transactions and log entries. So do `eth_getLogs` and `eth_getFilterLogs`,
  -- `eth_getFilterChanges` and a subscription to the logs alike. The receipts of the block are
  -- known, those of the system transactions first and alone without gas.
  pub compliant_logs :
      (ext : Option Bool) (default_compliant : Bool) {E R F : Type 0} (log_stream : F → List RpcLog)
      (filter default : F)
      → is_hl_compliant ext default_compliant ≡ true
      → log_stream filter ≡ number_logs payload number 0 0 (sys ++ reg)
      → (served_logs receipts_by_block ext default_compliant {E = E} (ok (log_stream filter))
          ≡ ok (number_logs payload number 0 0 reg))
        × (filter_changes receipts_by_block ext default_compliant {E = E} {T = R}
              (ok (FilterChanges.logs (log_stream filter)))
            ≡ ok (FilterChanges.logs (number_logs payload number 0 0 reg)))
        × (subscribe receipts_by_block ext default_compliant log_stream default
              SubscriptionKind.logs
              (some (Params.logs filter))
            ≡ piped (number_logs payload number 0 0 reg))
  unfolding served_logs filter_changes adjust_filter_changes subscribe
  compliant_logs ext default_compliant log_stream filter default compliant all =
      rw (compliant, all, adjust_logs_lem) (refl, refl, refl)
