-- ===== src/Store/Media/Together.antt =====
-- The tokens of one media range are selected together by `pick_topk_blocks` of kvmem_store.cpp.
use kvmem_test.Common.{
  ℕ, zero, suc, ◌+◌, ◌-◌, ◌*◌, ◌/◌, ◌≤◌, ◌<◌, ◌≡◌, sym, ap, ◌∙◌, List, some, get_elem?, leb,
  u32_mod, arith, contains, Bool-cases, inl, inr, ok, All,
}
use kvmem_test.Store.Types.{DoubleOps, KvMemStore, block_count}
use kvmem_test.Store.Table.Layout.{IsLaid, Laid-count, Laid-some}
use kvmem_test.Store.Media.{group_of, media_groups, pick_topk_blocks}
use kvmem_test.Store.Media.Whole.{InOrder, pick_topk_blocks-group}
use kvmem_test.Store.Media.Ranges.{media_groups-Crossed}

module _ {D : Type 0} where
  -- Blocks `i` and `i + d` that a range reaches over are in one group.
  same_group :
      (s : KvMemStore D) (k start end i d : ℕ)
      → IsLaid s
      → InOrder 0 s.media_ranges
      → All (λ r. r.1 + s.block_tokens ≤ u32_mod) s.media_ranges
      → get_elem? s.media_ranges k ≡ some (start, end)
      → i + d < block_count s
      → start < (i + 1) * s.block_tokens
      → (i + d) * s.block_tokens < end
      → group_of (media_groups s) i ≡ group_of (media_groups s) (i + d)
  same_group s k start end i zero v order small e inside lo hi =
      ap (group_of (media_groups s)) (plus_zero i)
    where
      plus_zero : (i : ℕ) → i ≡ i + 0
      plus_zero i = omega arith
  same_group s k start end i (suc d) v order small e inside lo hi =
      let near = boundaries i d start end s.block_tokens lo hi in
      same_group s k start end i d v order small e (omega arith) lo near.0
      ∙ (media_groups-Crossed s (i + d) v order small (omega arith)).1
          (k, start, end, e, near.1, near.2)
      ∙ ap (group_of (media_groups s)) (plus_suc i d)
    where
      plus_suc : (i d : ℕ) → i + d + 1 ≡ i + suc d
      plus_suc i d = omega arith

      boundaries :
          (i d start end bt : ℕ)
          → start < (i + 1) * bt
          → (i + suc d) * bt < end
          → ((i + d) * bt < end) × (start < (i + d + 1) * bt) × ((i + d + 1) * bt < end)
      boundaries i d start end bt lo hi = (omega arith, omega arith, omega arith)

block_ends : (p bt : ℕ) → 0 < bt → p < (p / bt + 1) * bt
block_ends p bt h = grind arith

block_starts : (p bt : ℕ) → 0 < bt → p / bt * bt ≤ p
block_starts p bt h = grind arith

quotient_below : (p n bt : ℕ) → 0 < bt → p < n * bt → p / bt < n
quotient_below p n bt h k = grind arith

apart_by : (i j : ℕ) → i ≤ j → i + (j - i) ≡ j
apart_by i j h = omega arith

module _ {D : Type 0} where
  same_group-tokens :
      (s : KvMemStore D) (k start end p q : ℕ)
      → IsLaid s
      → InOrder 0 s.media_ranges
      → All (λ r. r.1 + s.block_tokens ≤ u32_mod) s.media_ranges
      → get_elem? s.media_ranges k ≡ some (start, end)
      → start ≤ p
      → q < end
      → p / s.block_tokens ≤ q / s.block_tokens
      → q / s.block_tokens < block_count s
      → group_of (media_groups s) (p / s.block_tokens)
        ≡ group_of (media_groups s) (q / s.block_tokens)
  same_group-tokens s k start end p q v order small e from until le inside =
      let bt = s.block_tokens in
      let i = p / bt in
      let j = q / bt in
      let same : i + (j - i) ≡ j = apart_by i j le in
      let ends = block_ends p bt v.positive in
      let starts = block_starts q bt v.positive in
      same_group s k start end i (j - i) v order small e (rw same inside) (omega arith)
        (rw same (omega arith))
      ∙ ap (group_of (media_groups s)) same

  module _ (o : DoubleOps D) where
    -- On a laid table with media ranges in the order of their starts, whose ends rounded up to a
    -- block fit 32 bits, take two tokens of the table in one media range. If `pick_topk_blocks`
    -- returns, the blocks of the two tokens are both selected or both not.
    pub pick_topk_blocks-whole :
        (s : KvMemStore D) (mandatory ids : List ℕ) (k start end p q : ℕ)
        → IsLaid s
        → InOrder 0 s.media_ranges
        → All (λ r. r.1 + s.block_tokens ≤ u32_mod) s.media_ranges
        → get_elem? s.media_ranges k ≡ some (start, end)
        → start ≤ p
        → p < end
        → start ≤ q
        → q < end
        → p < s.total_tokens
        → q < s.total_tokens
        → pick_topk_blocks o s mandatory ≡ ok ids
        → contains (p / s.block_tokens) ids ≡ contains (q / s.block_tokens) ids
    pick_topk_blocks-whole s mandatory ids k start end p q v order small e hp hp' hq hq' tp tq h =
        let bt = s.block_tokens in
        let (lo, hi) =
          Laid-count bt 0 0 s.blocks s.total_tokens v.laid
            (Laid-some bt 0 0 s.blocks s.total_tokens v.laid (omega arith)) in
        let inside = quotient_below p (block_count s) bt v.positive (omega arith) in
        let inside' = quotient_below q (block_count s) bt v.positive (omega arith) in
        let same : group_of (media_groups s) (p / bt) ≡ group_of (media_groups s) (q / bt) =
          elim (Bool-cases (leb (p / bt) (q / bt))) [
            | inl le ↦
                same_group-tokens s k start end p q v order small e hp hq' (ground arith) inside'
            | inr gt ↦
                sym
                  (same_group-tokens s k start end q p v order small e hq hp' (ground arith) inside)
          ] in
        pick_topk_blocks-group o s mandatory ids (p / bt) (q / bt) v.positive order inside inside'
          same h
