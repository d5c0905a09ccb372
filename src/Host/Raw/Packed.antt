-- ===== src/Host/Raw/Packed.antt =====
-- `invalidate_packed_from` forgets the packed keys from a position on, and no others.
use kvmem_test.Common.{
  ℕ, zero, suc, ◌+◌, ◌*◌, ◌/◌, ◌%◌, ◌≤◌, ◌<◌, ◌≡◌, refl, ap, ◌∙◌, Bool, true, false, not, ◌&&◌,
  ◌||◌, List, [], ◌∷◌, map, none, some, ltb, leb, ◌==◌, get_elem?, min, arith, Bool-cases, inl, inr,
}
use native.Mathlib.Nat.{mul-le-mul_right, div-add-mod, mod-lt}
use kvmem_test.Host.Raw.{
  LayerBlk, RawKvStore, empty, has_k_gpu, cap_layer, cap_blocks, invalidate_packed_from,
}

-- Which tokens of block `b` a cap leaves.
abbrev allowed : ℕ → ℕ → ℕ → ℕ → Bool
allowed zero limit zero n = leb n limit
allowed zero limit (suc b) n = leb n 0
allowed (suc first) limit zero n = true
allowed (suc first) limit (suc b) n = allowed first limit b n

module _ {X : Type 0} where
  abbrev test : ℕ → LayerBlk X → Bool
  test n lb = lb.k_gpu_fmt && not (empty lb.k_gpu) && leb n lb.k_gpu_tokens

  abbrev in_layer : List (LayerBlk X) → ℕ → ℕ → Bool
  in_layer layers il n = elim (get_elem? layers il) [ none ↦ false | some lb ↦ test n lb ]

  abbrev in_block : List (List (LayerBlk X)) → ℕ → ℕ → ℕ → Bool
  in_block bs b il n = in_layer (elim (get_elem? bs b) [ none ↦ [] | some layers ↦ layers ]) il n

  in_layer-cap :
      (limit il n : ℕ) (layers : List (LayerBlk X))
      → in_layer (map (cap_layer limit) layers) il n ≡ (in_layer layers il n && leb n limit)
  in_layer-cap limit il n [] = refl
  in_layer-cap limit zero n (lb ∷ layers) =
      capped lb.k_gpu_fmt (not (empty lb.k_gpu)) n lb.k_gpu_tokens limit
    where
      capped :
          (a b : Bool) (n m limit : ℕ)
          → (a && b && leb n (min m limit)) ≡ ((a && b && leb n m) && leb n limit)
      capped a b n m limit = ground arith
  in_layer-cap limit (suc il) n (lb ∷ layers) = in_layer-cap limit il n layers

  in_block-cap :
      (first limit b il n : ℕ) (bs : List (List (LayerBlk X)))
      → in_block (cap_blocks first limit bs) b il n
        ≡ (in_block bs b il n && allowed first limit b n)
  unfolding cap_blocks
  in_block-cap first limit b il n [] = refl
  in_block-cap zero limit zero il n (layers ∷ bs) = in_layer-cap limit il n layers
  in_block-cap zero limit (suc zero) il n (layers ∷ bs) = in_block-cap zero 0 zero il n bs
  in_block-cap zero limit (suc (suc b)) il n (layers ∷ bs) = in_block-cap zero 0 (suc b) il n bs
  in_block-cap (suc first) limit zero il n (layers ∷ bs) = ground arith
  in_block-cap (suc first) limit (suc b) il n (layers ∷ bs) = in_block-cap first limit b il n bs

allowed_lem :
    (first limit b n : ℕ)
    → 0 < n
    → allowed first limit b n ≡ (ltb b first || ((b == first) && leb n limit))
allowed_lem zero limit zero n h = ground arith
allowed_lem zero limit (suc b) n h = ground arith
allowed_lem (suc first) limit zero n h = ground arith
allowed_lem (suc first) limit (suc b) n h = ground (arith, allowed_lem first limit b n h)

before :
    (first limit b n k : ℕ)
    → n ≤ k
    → limit < k
    → (ltb b first || ((b == first) && leb n limit)) ≡ leb (b * k + n) (first * k + limit)
before first limit b n k small less = elim (Bool-cases (ltb b first)) [
  | inl h ↦
      let step : (b + 1) * k ≤ first * k = mul-le-mul_right k (ground arith) in
      ground (arith, h, step)
  | inr h ↦ elim (Bool-cases (b == first)) [
    | inl e ↦ let same : b ≡ first = ground arith in rw same (ground arith)
    | inr e ↦
        let step : (first + 1) * k ≤ b * k = mul-le-mul_right k (ground arith) in
        ground (arith, h, e, step)
  ]
]

-- After `invalidate_packed_from` a layer has the packed keys of the first `n` tokens of a block, one
-- at least and no more than a block, exactly if it had them and they all lie before the position.
pub has_k_gpu-invalidate_packed_from :
    {X : Type 0} (s : RawKvStore X) (token_pos b il n : ℕ)
    → 0 < n
    → n ≤ s.cfg.block_tokens
    → has_k_gpu (invalidate_packed_from s token_pos) b il n
      ≡ (has_k_gpu s b il n && leb (b * s.cfg.block_tokens + n) token_pos)
unfolding has_k_gpu invalidate_packed_from
has_k_gpu-invalidate_packed_from s token_pos b il n positive small =
    let k = s.cfg.block_tokens in
    let first = token_pos / k in
    let limit = token_pos % k in
    let less : limit < k = mod-lt token_pos (omega arith) in
    let whole : first * k + limit ≡ token_pos = omega (arith, div-add-mod token_pos k) in
    in_block-cap first limit b il n s.blocks
    ∙ ap (λ x. in_block s.blocks b il n && x)
        (allowed_lem first limit b n positive
          ∙ before first limit b n k small less
          ∙ ap (λ p. leb (b * k + n) p) whole)
