-- ===== src/PseudoPeer/ServiceLaws.antt =====
-- What the service answers and what the poller sends.
use nanoreth.Prelude.{
  zero, suc, count_up, ℕ, ◌+◌, ◌-◌, ◌%◌, keep, ◌≤◌, ◌<◌, ◌^◌, ◌≡◌, refl, sym, ap, ◌∙◌, List, [],
  ◌∷◌, map, Option, none, some, arith,
}
use nanoreth.Primitives.{Alloy, HlBlock, HlHeader, from_ethereum_header}
use nanoreth.Types.Compat.{BlockAndReceipts, number}
use nanoreth.Types.Convert.{
  Outcome, SpotState, convert_system_txs, done, has_receipt, unwrap_receipts, to_reth_block,
}
use nanoreth.Types.RoundTrip.Signing.{then_run-eq-done}
use nanoreth.PseudoPeer.Caches.{LruMap}
use nanoreth.PseudoPeer.Store.{BlockStore, LruCache}
use nanoreth.PseudoPeer.Answers.{IsSound, get_by_numbers-number}
use nanoreth.PseudoPeer.Service.{
  GetBlockHeaders, HeadersDirection, Response, answer_headers, convert_blocks, count_down, failed,
  falling, get_block_headers, headers, headers_of, process_eth_request, requested_heights, resolve,
  rising,
}

-- Heights that fit 64 bits: a rising request asks for `limit` heights from its start up, a falling
-- one for those from its start down; the latter for none at all when fewer than `limit` heights
-- lie there.
pub requested_heights_lem :
    (start limit : ℕ)
    → start + 1 < 2 ^ 64
    → limit < 2 ^ 64
    → (start + limit < 2 ^ 64 → requested_heights rising start limit ≡ count_up start limit)
      × (limit ≤ start + 1
          → requested_heights falling start limit ≡ count_down (start + 1 - limit) limit)
      × (start + 1 < limit → requested_heights falling start limit ≡ [])
unfolding requested_heights
requested_heights_lem start limit h k =
    let end : (start + 1) % 2 ^ 64 ≡ start + 1 = omega (arith, h) in
    (
      λ small. ap (count_up start) (omega (arith, small)),
      λ enough.
          let low : (start + 1 + 2 ^ 64 - limit) % 2 ^ 64 ≡ start + 1 - limit =
            omega (arith, h, k, enough) in
          let size : start + 1 - (start + 1 - limit) ≡ limit = omega (arith, enough) in
          rw (end, low, size) refl,
      λ few.
          let low : (start + 1 + 2 ^ 64 - limit) % 2 ^ 64 ≡ start + 1 + 2 ^ 64 - limit =
            omega (arith, h, k, few) in
          let size : start + 1 - (start + 1 + 2 ^ 64 - limit) ≡ 0 = omega (arith, h, k, few) in
          rw (end, low, size) refl,
    )

-- `limit` heights from `start` down.
abbrev pub descending : ℕ → ℕ → List ℕ
descending start zero = []
descending start (suc limit) = start ∷ descending (start - 1) limit

-- The heights that a request means: so many from its start, up or down.
abbrev pub heights_from : HeadersDirection → ℕ → ℕ → List ℕ
heights_from rising start limit = count_up start limit
heights_from falling start limit = descending start limit

-- There are so many heights from the start, in 64 bits.
abbrev pub HasRoom : HeadersDirection → ℕ → ℕ → Type 0
HasRoom rising start limit = start + limit < 2 ^ 64
HasRoom falling start limit = (limit ≤ start + 1) × (start + 1 < 2 ^ 64)

count_down-descending :
    (start limit : ℕ)
    → limit ≤ start + 1
    → count_down (start + 1 - limit) limit ≡ descending start limit
unfolding count_down
count_down-descending start zero h = refl
count_down-descending zero (suc zero) h = refl
count_down-descending zero (suc (suc limit)) h = absurd (omega (arith, h))
count_down-descending (suc start) (suc limit) h =
    let first : suc start + 1 - suc limit + limit ≡ suc start = omega (arith, h) in
    let next : suc start + 1 - suc limit ≡ start + 1 - limit = omega (arith, h) in
    let down : suc start - 1 ≡ start = omega arith in
    let lower =
      ap (λ n. count_down n limit) next ∙ count_down-descending start limit (omega (arith, h)) in
    λ i. first i ∷ (lower ∙ ap (λ n. descending n limit) (sym down)) i

requested_heights-heights_from :
    (direction : HeadersDirection) (start limit : ℕ)
    → HasRoom direction start limit
    → requested_heights direction start limit ≡ heights_from direction start limit
unfolding requested_heights
requested_heights-heights_from rising start limit h = ap (count_up start) (omega (arith, h))
requested_heights-heights_from falling start limit (h, k) =
    (requested_heights_lem start limit k (omega (arith, h, k))).1 h
    ∙ count_down-descending start limit h

abbrev result_or : {A : Type 0} → A → Outcome (A × SpotState) → A
result_or d (done (x, st)) = x
result_or d _ = d

abbrev served_or : {a : Alloy} → List (HlHeader a) → Response a → List (HlHeader a)
served_or d (headers hs) = hs
served_or d _ = d

module _ (a : Alloy) (chain_id : ℕ) where
  to_reth_block-header :
      (b : BlockAndReceipts a) (st st' : SpotState) (hb : HlBlock a)
      → to_reth_block b chain_id st ≡ done (hb, st')
      → hb.header.inner ≡ b.block.header.header
  unfolding to_reth_block from_ethereum_header
  to_reth_block-header b st st' hb e =
      let (xs, st₁, e₁, rest) =
        then_run-eq-done (convert_system_txs (keep has_receipt b.system_txs) chain_id (number b) st)
          _ e in
      let (rs, st₂, e₂, rest') =
        then_run-eq-done (unwrap_receipts (keep has_receipt b.system_txs) st₁) _ rest in
      sym (ap (λ o. (result_or hb o).header.inner) rest')

  headers_of-number :
      (bs : List (BlockAndReceipts a)) (st st' : SpotState) (converted : List (HlBlock a))
      → convert_blocks chain_id bs st ≡ done (converted, st')
      → map (λ h. a.number h.inner) (headers_of converted) ≡ map number bs
  unfolding convert_blocks number
  headers_of-number [] st st' converted e =
      sym (ap (λ o. map (λ h. a.number h.inner) (headers_of (result_or converted o))) e)
  headers_of-number (b ∷ bs) st st' converted e =
      let (x, st₁, e₁, rest) = then_run-eq-done (to_reth_block b chain_id st) _ e in
      let (xs, st₂, e₂, out) = then_run-eq-done (convert_blocks chain_id bs st₁) _ rest in
      let head : a.number x.header.inner ≡ number b =
        ap a.number (to_reth_block-header b st st₁ x e₁) in
      sym (ap (λ o. map (λ h. a.number h.inner) (headers_of (result_or converted o))) out)
      ∙ (λ i. head i ∷ headers_of-number bs st₁ st₂ xs e₂ i)

module _ (keys : LruCache) (a : Alloy) (lru : LruMap (BlockAndReceipts a))
    (gap_blocks : ℕ → Option (BlockAndReceipts a))
    (gap-number : (h : ℕ) (b : BlockAndReceipts a) → gap_blocks h ≡ some b → number b ≡ h)
    (source : ℕ → Option (BlockAndReceipts a)) (db : Option (ℕ → Option ℕ))
    (collect_blocks : List ℕ → Option (List (BlockAndReceipts a))) (chain_id : ℕ) where
  answer_headers-number :
      (hs : List ℕ) (found : Option (List (BlockAndReceipts a)))
      → ((bs : List (BlockAndReceipts a)) → found ≡ some bs → map number bs ≡ hs)
      → (st st' : SpotState) (served : List (HlHeader a))
      → answer_headers chain_id found st ≡ done (headers served, st')
      → map (λ h. a.number h.inner) served ≡ hs
  answer_headers-number hs none h st st' served e = absurd (ground (arith, e))
  answer_headers-number hs (some bs) h st st' served e =
      let (xs, st₁, e₁, out) = then_run-eq-done (convert_blocks chain_id bs st) _ e in
      sym (ap (λ o. map (λ h. a.number h.inner) (served_or served (result_or failed o))) out)
      ∙ headers_of-number a chain_id bs st st₁ xs e₁
      ∙ h bs refl

  -- When a request for headers is answered with headers, they are those of as many heights as it
  -- asks for, one after the other from its start up or down, whatever the source sends and whatever
  -- its skip is, and the store stays sound. The start is a height or a hash that the store knows,
  -- so many heights lie there within 64 bits and not below 0, and every cached or hardcoded block
  -- lies under its own height.
  pub process_eth_request-headers :
      (r : GetBlockHeaders) (s : BlockStore keys a lru) (start : ℕ)
      → IsSound keys a lru s.blocks
      → HasRoom r.direction start r.limit
      → resolve keys a lru gap_blocks source db collect_blocks chain_id s r.start_block ≡ some start
      → (st st' : SpotState) (served : List (HlHeader a))
      → (process_eth_request keys a lru gap_blocks source db collect_blocks chain_id
            (get_block_headers r)
            s).0
          st
        ≡ done (headers served, st')
      → (map (λ h. a.number h.inner) served ≡ heights_from r.direction start r.limit)
        × IsSound keys a lru
            (process_eth_request keys a lru gap_blocks source db collect_blocks chain_id
              (get_block_headers r)
              s).1.blocks
  unfolding process_eth_request
  process_eth_request-headers r s start sound room e st st' served f =
      let (numbers, sound') =
        get_by_numbers-number keys a lru gap_blocks gap-number source db collect_blocks
          (requested_heights r.direction start r.limit) s sound in
      rw e (
        answer_headers-number (requested_heights r.direction start r.limit) _ numbers st st' served
              (rw e at f)
            ∙ requested_heights-heights_from r.direction start r.limit room,
        sound',
      )
