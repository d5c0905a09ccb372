-- ===== src/Host/Raw/Write/Cover.antt =====
-- What one round of the loop over the blocks covers, and what it does to the block table.
use kvmem_test.Common.{
  ℕ, zero, suc, ◌+◌, ◌-◌, ◌*◌, ◌/◌, ◌%◌, ◌≤◌, ◌<◌, ◌≡◌, ◌≢◌, refl, sym, ◌∙◌, true, false, List, [],
  ◌∷◌, ◌++◌, some, ltb, leb, length, get_elem?, modify, replicate, min, add32, u32_mod, arith, All,
  subst, Result, ok, ◌>>=◌, Bool-cases, Option-cases, inl, inr, length-append, length-replicate,
  length-modify, get_elem?-modify_self, get_elem?-modify_ne, get_elem?-append, get_elem?-found,
}
use native.Mathlib.Nat.{div-add-mod, div-le_self, mod-lt}
use kvmem_test.Host.Raw.{RawKvStore, LayerBlk, ensure_blocks, layers_of, new_layer}
use kvmem_test.Host.Raw.Io.{RawKvIo, modify_layer, layer_at}
use kvmem_test.Host.Raw.Write.{Chunk, chunk_at, with_blocks, write_chunks}

-- A round covers tokens of one block, at least one, up to the end of the block or of the range.
pub record IsChunk (bt pos0 n : ℕ) (c : Chunk) : Type 0 where
  pub at : c.bid * bt + c.off ≡ pos0 + c.done
  pub inside : c.off < bt
  pub positive : 0 < c.count
  pub within : c.off + c.count ≤ bt
  pub ends : c.done + c.count ≤ n
  pub maximal : c.count ≡ min (n - c.done) (bt - c.off)
  pub small : c.bid + 1 < u32_mod

pub chunk_at-IsChunk :
    (bt pos0 n done : ℕ)
    → 0 < bt
    → pos0 + n < u32_mod
    → done < n
    → IsChunk bt pos0 n (chunk_at bt pos0 n done)
chunk_at-IsChunk bt pos0 n done h fits more =
    let p = pos0 + done in
    let same : add32 pos0 done ≡ p = omega arith in
    let whole : p / bt * bt + p % bt ≡ p = omega (arith, div-add-mod p bt) in
    let less : p % bt < bt = mod-lt p h in
    let below : p / bt ≤ p = div-le_self p bt in
    rw same (record {
      at = whole;
      inside = less;
      positive = omega arith;
      within = omega arith;
      ends = omega arith;
      maximal = refl;
      small = omega arith;
    })

module _ {S : Type 0} (body : Chunk → S → Result S) (bt pos0 n : ℕ) where
  pub write_chunks_none : (done : ℕ) (s : S) → write_chunks body bt pos0 n 0 done s ≡ ok s
  unfolding write_chunks
  write_chunks_none done s = refl

  pub write_chunks_more :
      (fuel done : ℕ) (s : S)
      → done < n
      → write_chunks body bt pos0 n (suc fuel) done s ≡ (
          body (chunk_at bt pos0 n done) s >>= λ s'.
          write_chunks body bt pos0 n fuel (add32 done (chunk_at bt pos0 n done).count) s')
  unfolding write_chunks
  write_chunks_more fuel done s h =
      let on : ltb done n ≡ true = ground arith in rw (on, write_chunks) refl

  pub write_chunks_over :
      (fuel done : ℕ) (s : S) → n ≤ done → write_chunks body bt pos0 n fuel done s ≡ ok s
  unfolding write_chunks
  write_chunks_over zero done s h = refl
  write_chunks_over (suc fuel) done s h =
      let off : ltb done n ≡ false = ground arith in rw (off, write_chunks) refl

module _ {A : Type 0} (P : A → Type 0) where
  All-append : (xs ys : List A) → All P xs → All P ys → All P (xs ++ ys)
  All-append [] ys h k = k
  All-append (x ∷ xs) ys (h, hs) k = (h, All-append xs ys hs k)

  All-replicate : (n : ℕ) (b : A) → P b → All P (replicate n b)
  All-replicate zero b h = tt
  All-replicate (suc n) b h = (h, All-replicate n b h)

  All-modify :
      (i : ℕ) (f : A → A) (xs : List A)
      → ((b : A) → P b → P (f b))
      → All P xs
      → All P (modify xs i f)
  All-modify i f [] g h = tt
  All-modify zero f (x ∷ xs) g (h, hs) = (g x h, hs)
  All-modify (suc i) f (x ∷ xs) g (h, hs) = (h, All-modify i f xs g hs)

  All-found : (i : ℕ) (b : A) (xs : List A) → All P xs → get_elem? xs i ≡ some b → P b
  All-found i b [] h e = cc
  All-found zero b (x ∷ xs) (h, hs) e = let same : x ≡ b = cc in subst P same h
  All-found (suc i) b (x ∷ xs) (h, hs) e = All-found i b xs hs e

module _ {X : Type 0} where
  abbrev HasLayers : ℕ → List (LayerBlk X) → Type 0
  HasLayers n layers = length layers ≡ n

  get_elem?-ensure_blocks :
      (s : RawKvStore X) (n i : ℕ) (b : List (LayerBlk X))
      → get_elem? s.blocks i ≡ some b
      → get_elem? (ensure_blocks s n).blocks i ≡ some b
  unfolding ensure_blocks
  get_elem?-ensure_blocks s n i b h = elim (Bool-cases (leb n (length s.blocks))) [
    | inl e ↦ rw e h
    | inr e ↦ rw e (get_elem?-append s.blocks _ i b h)
  ]

  length-ensure_blocks : (s : RawKvStore X) (n : ℕ) → n ≤ length (ensure_blocks s n).blocks
  unfolding ensure_blocks
  length-ensure_blocks s n = elim (Bool-cases (leb n (length s.blocks))) [
    | inl e ↦ rw e (ground arith)
    | inr e ↦ rw (e, length-append s.blocks, length-replicate) (ground arith)
  ]

  ensure_blocks-shaped :
      (s : RawKvStore X) (n : ℕ)
      → All (HasLayers s.cfg.n_layer) s.blocks
      → All (HasLayers s.cfg.n_layer) (ensure_blocks s n).blocks
  unfolding ensure_blocks
  ensure_blocks-shaped s n h = elim (Bool-cases (leb n (length s.blocks))) [
    | inl e ↦ rw e h
    | inr e ↦ rw e (
        All-append (HasLayers s.cfg.n_layer) s.blocks _ h
          (All-replicate (HasLayers s.cfg.n_layer) _ _ (length-replicate s.cfg.n_layer new_layer)))
  ]

  pub cfg-ensure_blocks : (s : RawKvStore X) (n : ℕ) → (ensure_blocks s n).cfg ≡ s.cfg
  unfolding ensure_blocks
  cfg-ensure_blocks s n = elim (Bool-cases (leb n (length s.blocks))) [
    | inl e ↦ rw e refl
    | inr e ↦ rw e refl
  ]

module _ {X F : Type 0} where
  -- Every block has all layers.
  abbrev pub IsShaped : RawKvIo X F → Type 0
  IsShaped s = All (HasLayers s.store.cfg.n_layer) s.store.blocks

  pub layer_of_block :
      (s : RawKvIo X F) (bid il : ℕ) (b : List (LayerBlk X))
      → get_elem? s.store.blocks bid ≡ some b
      → layer_at s bid il ≡ get_elem? b il
  layer_of_block s bid il b e = rw (e, layers_of) refl

  abbrev pub changed : RawKvIo X F → Chunk → ℕ → (LayerBlk X → LayerBlk X) → RawKvIo X F
  changed s c il f = modify_layer (with_blocks c s) c.bid il f

  pub changed-IsShaped :
      (s : RawKvIo X F) (c : Chunk) (il : ℕ) (f : LayerBlk X → LayerBlk X)
      → IsShaped s
      → IsShaped (changed s c il f)
  changed-IsShaped s c il f h =
      let same = cfg-ensure_blocks s.store (add32 c.bid 1) in
      rw same (
        All-modify (HasLayers s.store.cfg.n_layer) c.bid (λ layers. modify layers il f) _
          (λ b e. length-modify b il f ∙ e) (ensure_blocks-shaped s.store (add32 c.bid 1) h))

  -- A round leaves the layers of other blocks alone.
  pub changed_other :
      (s : RawKvIo X F) (c : Chunk) (bid il : ℕ) (f : LayerBlk X → LayerBlk X) (lb : LayerBlk X)
      → c.bid ≢ bid
      → layer_at s bid il ≡ some lb
      → layer_at (changed s c il f) bid il ≡ some lb
  changed_other s c bid il f lb ne h = elim (Option-cases (get_elem? s.store.blocks bid)) [
    | inl e ↦ absurd (let none_there = rw (e, layers_of) at h in cc)
    | inr (b, e) ↦
        let there = get_elem?-ensure_blocks s.store (add32 c.bid 1) bid b e in
        layer_of_block (changed s c il f) bid il b
          (get_elem?-modify_ne _ c.bid bid (λ layers. modify layers il f) ne ∙ there)
        ∙ sym (layer_of_block s bid il b e)
        ∙ h
  ]

  -- A round changes the layer of its block, which is then there.
  pub changed_own :
      (s : RawKvIo X F) (c : Chunk) (il : ℕ) (f : LayerBlk X → LayerBlk X)
      → IsShaped s
      → il < s.store.cfg.n_layer
      → c.bid + 1 < u32_mod
      → (lb : LayerBlk X) × (layer_at (changed s c il f) c.bid il ≡ some (f lb))
  changed_own s c il f v h small =
      let s' = ensure_blocks s.store (add32 c.bid 1) in
      let long : suc c.bid ≤ length s'.blocks =
        omega (arith, length-ensure_blocks s.store (add32 c.bid 1)) in
      let (b, e) = get_elem?-found s'.blocks c.bid long in
      let whole =
        All-found (HasLayers s.store.cfg.n_layer) c.bid b s'.blocks
          (ensure_blocks-shaped s.store (add32 c.bid 1) v) e in
      let (lb, e') = get_elem?-found b il (omega arith) in
      (
        lb,
        layer_of_block (changed s c il f) c.bid il _
              (get_elem?-modify_self s'.blocks c.bid (λ layers. modify layers il f) b e)
            ∙ get_elem?-modify_self b il f lb e',
      )
