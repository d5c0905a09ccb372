-- ===== src/Host/Raw/Mean.antt =====
-- A checkpoint of the mean keys that is restored gives back the statistics of the block.
use kvmem_test.Common.{
  ℕ, zero, suc, ◌+◌, ◌*◌, ◌/◌, ◌%◌, ◌<◌, ◌^◌, ◌≡◌, refl, sym, ap, ◌∙◌, true, false, List, [], ◌∷◌,
  ◌++◌, map, some, if◌then◌else◌, ltb, leb, ◌==◌, length, get_elem?, modify, take, drop, replicate,
  arith, All, ok, add32, u32_mod, length-append, length-replicate, get_elem?-modify_self,
}
use kvmem_test.Store.Plan.Residency.{get_elem?-lt}
use kvmem_test.Host.Raw.{
  FloatOps, RawKvStoreConfig, LayerBlk, RawKvStore, empty, ensure_blocks, layers_of, mean_row,
  mean_rows, mean_checkpoint, restore_layer, restore_layers, restore_mean_checkpoint,
}

take-append : {A : Type 0} (xs ys : List A) → take (length xs) (xs ++ ys) ≡ xs
take-append [] ys = refl
take-append (x ∷ xs) ys = ap (λ l. x ∷ l) (take-append xs ys)

drop-append : {A : Type 0} (xs ys : List A) → drop (length xs) (xs ++ ys) ≡ ys
drop-append [] ys = refl
drop-append (x ∷ xs) ys = drop-append xs ys

module _ {X : Type 0} where
  -- The statistics of one layer: how many tokens, and the sum of their keys.
  abbrev pub mean_of : LayerBlk X → ℕ × List X
  mean_of lb = (lb.mean_tokens, lb.k_sum)

  abbrev pub means : List (LayerBlk X) → List (ℕ × List X)
  means layers = map mean_of layers

  -- A layer without tokens has no sum, and a sum has `n_embd_k` numbers; the count is exact as a
  -- float.
  pub record IsMean (c : RawKvStoreConfig) (lb : LayerBlk X) : Type 0 where
    pub none_without : lb.mean_tokens ≡ 0 → lb.k_sum ≡ []
    pub sized : 0 < lb.mean_tokens → length lb.k_sum ≡ c.n_embd_k
    pub exact : lb.mean_tokens < 2 ^ 24

  module _ (o : FloatOps X) (exact : (n : ℕ) → n < 2 ^ 24 → o.to_u32 (o.of_ℕ n) ≡ n) where
    sums_length :
        (c : RawKvStoreConfig) (sums : List X) (count : ℕ)
        → (count ≡ 0 → sums ≡ [])
        → (0 < count → length sums ≡ c.n_embd_k)
        → length (if empty sums then replicate c.n_embd_k o.zero else sums) ≡ c.n_embd_k
    sums_length c [] count e s = length-replicate c.n_embd_k o.zero
    sums_length c (x ∷ sums) zero e s = absurd (let no_sums = e refl in cc)
    sums_length c (x ∷ sums) (suc n) e s = s (omega arith)

    length-mean_row :
        (c : RawKvStoreConfig) (lb : LayerBlk X)
        → IsMean c lb
        → length (mean_row o c lb) ≡ 1 + c.n_embd_k
    unfolding mean_row
    length-mean_row c lb v =
        omega (arith, sums_length c lb.k_sum lb.mean_tokens v.none_without v.sized)

    restored_sums :
        (c : RawKvStoreConfig) (sums : List X) (count : ℕ)
        → (count ≡ 0 → sums ≡ [])
        → (0 < count → length sums ≡ c.n_embd_k)
        → (if ltb 0 count then (if empty sums then replicate c.n_embd_k o.zero else sums) else [])
          ≡ sums
    restored_sums c [] zero e s = refl
    restored_sums c [] (suc n) e s =
        let some : ltb 0 (suc n) ≡ true = ground arith in
        let none : c.n_embd_k ≡ 0 = sym (s (omega arith)) in rw (some, none) refl
    restored_sums c (x ∷ sums) zero e s = absurd (let no_sums = e refl in cc)
    restored_sums c (x ∷ sums) (suc n) e s =
        let some : ltb 0 (suc n) ≡ true = ground arith in rw some refl

    restore_layer-mean_row :
        (c : RawKvStoreConfig) (lb old : LayerBlk X)
        → IsMean c lb
        → mean_of (restore_layer o old (mean_row o c lb)) ≡ mean_of lb
    unfolding restore_layer mean_row
    restore_layer-mean_row c lb old v =
        rw
          (
            exact lb.mean_tokens v.exact,
            restored_sums c lb.k_sum lb.mean_tokens v.none_without v.sized,
          )
          refl

    restore_layers-mean_rows :
        (c : RawKvStoreConfig) (layers olds : List (LayerBlk X))
        → All (IsMean c) layers
        → length olds ≡ length layers
        → means (restore_layers o (1 + c.n_embd_k) olds (mean_rows o c layers)) ≡ means layers
    unfolding restore_layers mean_rows
    restore_layers-mean_rows c [] [] v same = refl
    restore_layers-mean_rows c [] (old ∷ olds) v same = absurd (ground arith)
    restore_layers-mean_rows c (lb ∷ layers) [] v same = absurd (ground arith)
    restore_layers-mean_rows c (lb ∷ layers) (old ∷ olds) (v, vs) same =
        let row = mean_row o c lb in
        let size = length-mean_row c lb v in
        let front : take (1 + c.n_embd_k) (row ++ mean_rows o c layers) ≡ row =
          ap (λ n. take n (row ++ mean_rows o c layers)) (sym size)
          ∙ take-append row (mean_rows o c layers) in
        let back : drop (1 + c.n_embd_k) (row ++ mean_rows o c layers) ≡ mean_rows o c layers =
          ap (λ n. drop n (row ++ mean_rows o c layers)) (sym size)
          ∙ drop-append row (mean_rows o c layers) in
        rw
          (
            front,
            back,
            restore_layer-mean_row c lb old v,
            restore_layers-mean_rows c layers olds vs (omega arith),
          )
          refl

    length-mean_rows :
        (c : RawKvStoreConfig) (layers : List (LayerBlk X))
        → All (IsMean c) layers
        → length (mean_rows o c layers) ≡ length layers * (1 + c.n_embd_k)
    unfolding mean_rows
    length-mean_rows c [] v = ground arith
    length-mean_rows c (lb ∷ layers) (v, vs) =
        let rest = length-mean_rows c layers vs in
        let row = length-mean_row c lb v in
        let all = length-append (mean_row o c lb) (mean_rows o c layers) in
        ground (arith, rest, row, all)

    mean_rows-not_empty :
        (c : RawKvStoreConfig) (layers : List (LayerBlk X))
        → 0 < length layers
        → empty (mean_rows o c layers) ≡ false
    unfolding mean_rows mean_row
    mean_rows-not_empty c [] h = absurd (omega arith)
    mean_rows-not_empty c (lb ∷ layers) h = refl

    -- Take two stores of one configuration with the block of the position, in the middle of a block,
    -- both with all layers. If the counts are exact as floats and the sums of the first store have
    -- their size, restoring its checkpoint in the second returns and gives the block the counts and
    -- sums of the first.
    pub restore_mean_checkpoint-mean_checkpoint :
        (s : RawKvStore X) (blocks' : List (List (LayerBlk X))) (token_pos : ℕ)
        (layers olds : List (LayerBlk X))
        → (token_pos % s.cfg.block_tokens == 0) ≡ false
        → token_pos / s.cfg.block_tokens + 1 < u32_mod
        → 0 < s.cfg.n_layer
        → get_elem? s.blocks (token_pos / s.cfg.block_tokens) ≡ some layers
        → get_elem? blocks' (token_pos / s.cfg.block_tokens) ≡ some olds
        → length layers ≡ s.cfg.n_layer
        → length olds ≡ s.cfg.n_layer
        → All (IsMean s.cfg) layers
        → (t : RawKvStore X) × (restore_mean_checkpoint o
              (record s { blocks = blocks' })
              token_pos
              (mean_checkpoint o s token_pos)
            ≡ ok t)
          × (means (layers_of t (token_pos / s.cfg.block_tokens)) ≡ means layers)
    unfolding restore_mean_checkpoint mean_checkpoint ensure_blocks
    restore_mean_checkpoint-mean_checkpoint s blocks' token_pos layers olds inner small some_layers
          e e' n n' v =
        let bid = token_pos / s.cfg.block_tokens in
        let state = mean_rows o s.cfg layers in
        let saved : mean_checkpoint o s token_pos ≡ state = rw (inner, e, mean_checkpoint) refl in
        let filled : empty state ≡ false = mean_rows-not_empty s.cfg layers (omega arith) in
        let size : (length state == s.cfg.n_layer * (1 + s.cfg.n_embd_k)) ≡ true =
          rw (length-mean_rows s.cfg layers v, n) (ground arith) in
        let inside : leb (add32 bid 1) (length blocks') ≡ true =
          ground (arith, get_elem?-lt blocks' bid olds e') in
        let restored = restore_layers o (1 + s.cfg.n_embd_k) in
        let t = record s { blocks = modify blocks' bid (λ ls. restored ls state) } in
        let ran : restore_mean_checkpoint o (record s { blocks = blocks' }) token_pos state ≡ ok t =
          rw (filled, size, inside) refl in
        let found : get_elem? t.blocks bid ≡ some (restored olds state) =
          get_elem?-modify_self blocks' bid (λ ls. restored ls state) olds e' in
        rw saved (
          t,
          ran,
          rw (found, layers_of) (restore_layers-mean_rows s.cfg layers olds v (omega arith)),
        )
