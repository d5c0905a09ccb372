-- ===== src/Host/Raw/Flush/Spilled.antt =====
-- A flush of a block's keys to the SSD does not change what reads of the block give.
use kvmem_test.Common.{
  ℕ, ◌*◌, ◌≤◌, ◌<◌, ◌≡◌, refl, sym, ap, ◌∙◌, Bool, true, false, not, ◌&&◌, ◌||◌, List, Option, none,
  some, if◌then◌else◌, ltb, leb, ◌==◌, length, get_elem?, modify, take, min, mul64, u64_mod, arith,
  Bool-cases, Option-cases, inl, inr, ok, ◌>>=◌, returned, kept, branches, length-take, take-take,
  get_elem?-modify_self,
}
use native.Mathlib.Nat.{mul-le-mul_right}
use kvmem_test.Tier.Nvme.{FileOps, NvmeKvTier, enabled, write_block, read_block}
use kvmem_test.Tier.Nvme.Invariant.{IsPool}
use kvmem_test.Tier.Nvme.Data.{FileLaws, write_block-read_block, write_block-IsWritten}
use kvmem_test.Host.Raw.{
  RawKvStoreConfig, LayerBlk, empty, nvme_key, k_row_bytes, k_slot_bytes, layers_of,
}
use kvmem_test.Host.Raw.Bytes.{FloatArith, capture_mean_f16}
use kvmem_test.Host.Raw.Io.{
  RawKvIo, nvme_enabled, tier_enabled, modify_layer, layer_at, caught, load_nvme, load_k_nvme,
  write_nvme,
}
use kvmem_test.Host.Raw.Flush.{k_spilled, with_sum, flush_k, k_due, maybe_flush_k}
use kvmem_test.Host.Raw.Thread.{wait_k}
use kvmem_test.Host.Raw.Read.{taken, source_k, copy_rows, copy_k_rows}

either :
    {A B : Type 0} (f : A → B) (b : Bool) (x y : A) {v : B}
    → f x ≡ v
    → f y ≡ v
    → f (if b then x else y) ≡ v
either f true x y h k = h
either f false x y h k = k

both_true : (b c : Bool) → (b && c) ≡ true → c ≡ true
both_true b c h = ground arith

due_parts :
    (a b c d e : Bool)
    → (not (a || b || c || d) && e) ≡ true
    → (b ≡ false) × (c ≡ false) × (e ≡ true)
due_parts a b c d e h = ground arith

-- The rows that a read takes fit the bytes of the block.
widths :
    (n tokens : ℕ) (c : RawKvStoreConfig)
    → tokens ≤ c.block_tokens
    → c.block_tokens * k_row_bytes c < u64_mod
    → mul64 (min n tokens) (k_row_bytes c) ≤ k_slot_bytes c
unfolding k_slot_bytes
widths n tokens c block small =
    let row = k_row_bytes c in
    let rows : min n tokens * row ≤ c.block_tokens * row = mul-le-mul_right row (omega arith) in
    omega (arith, rows)

module _ {X : Type 0} where
  k_due-facts :
      (c : RawKvStoreConfig) (lb : LayerBlk X)
      → k_due c lb ≡ true
      → (lb.k_flushing ≡ false) × (empty lb.k ≡ false) × (k_slot_bytes c ≤ length lb.k)
  unfolding k_due
  k_due-facts c lb h =
      let (settled, filled, long) =
        due_parts lb.k_on_nvme lb.k_flushing (empty lb.k) (ltb lb.n_tokens c.block_tokens)
          (leb (k_slot_bytes c) (length lb.k)) h in
      (settled, filled, ground (arith, long))

module _ {X : Type 0} (a : FloatArith X) where
  -- What a read looks at is kept when the sum of the keys is made.
  capture_keeps :
      {B : Type 0} (f : LayerBlk X → B) (c : RawKvStoreConfig) (lb : LayerBlk X)
      → ((sums : List X) (n : ℕ) → f (record lb { k_sum = sums; mean_tokens = n }) ≡ f lb)
      → f (capture_mean_f16 a c lb) ≡ f lb
  unfolding capture_mean_f16
  capture_keeps f c lb h = either f _ lb _ refl (either f (lb.n_tokens == 0) lb _ refl (h _ _))

  with_sum_keeps :
      {B : Type 0} (f : LayerBlk X → B) (c : RawKvStoreConfig) (lb : LayerBlk X)
      → ((sums : List X) (n : ℕ) → f (record lb { k_sum = sums; mean_tokens = n }) ≡ f lb)
      → f (with_sum a c lb) ≡ f lb
  with_sum_keeps f c lb h = either f _ (capture_mean_f16 a c lb) lb (capture_keeps f c lb h) refl

module _ {X F : Type 0} where
  layer_at-modify_layer :
      (s : RawKvIo X F) (bid il : ℕ) (f : LayerBlk X → LayerBlk X) (lb : LayerBlk X)
      → layer_at s bid il ≡ some lb
      → layer_at (modify_layer s bid il f) bid il ≡ some (f lb)
  layer_at-modify_layer s bid il f lb h = elim (Option-cases (get_elem? s.store.blocks bid)) [
    | inl e ↦ absurd (let no_layer = rw (e, layers_of) at h in cc)
    | inr (b, e) ↦
        let there : get_elem? b il ≡ some lb = rw (e, layers_of) at h in
        let block = get_elem?-modify_self s.store.blocks bid (λ layers. modify layers il f) b e in
        rw (block, layers_of) (get_elem?-modify_self b il f lb there)
  ]

  module _ (o : FileOps F) where
    -- A read of a layer that no write is under way for.
    copy_k_rows-settled :
        (s : RawKvIo X F) (bid il n : ℕ) (lb : LayerBlk X)
        → layer_at s bid il ≡ some lb
        → lb.k_flushing ≡ false
        → ((n == 0) || (k_row_bytes s.store.cfg == 0)) ≡ false
        → copy_k_rows o s bid il n
          ≡ ok
              (taken (mul64 (min n lb.n_tokens) (k_row_bytes s.store.cfg)) (source_k o s bid il lb))
    unfolding copy_k_rows wait_k copy_rows
    copy_k_rows-settled s bid il n lb e settled reads =
        rw (reads, e, wait_k, settled) (rw (e, copy_rows) refl)

    copy_k_rows-nothing :
        (s : RawKvIo X F) (bid il n : ℕ)
        → ((n == 0) || (k_row_bytes s.store.cfg == 0)) ≡ true
        → copy_k_rows o s bid il n ≡ ok (s, none)
    unfolding copy_k_rows
    copy_k_rows-nothing s bid il n h = rw h refl

    source_k-kept :
        (s : RawKvIo X F) (bid il : ℕ) (lb : LayerBlk X)
        → empty lb.k ≡ false
        → source_k o s bid il lb ≡ (s, some lb.k)
    unfolding source_k
    source_k-kept s bid il lb h = rw h refl

    write_nvme-ok :
        (s s' : RawKvIo X F) (t : NvmeKvTier F) (key : ℕ) (data' : List ℕ)
        → s.nvme ≡ some t
        → write_nvme o s key data' ≡ ok s'
        → (t' : NvmeKvTier F) × (write_block o t key data' ≡ ok t')
          × (s' ≡ record s { nvme = some t' })
    unfolding write_nvme
    write_nvme-ok s s' t key data' e h =
        let h' = rw (e, write_nvme) at h in
        let (t', wrote, same) = returned (write_block o t key data') _ h' in (t', wrote, cc)

    module _ (a : FloatArith X) where
      -- What an inline flush that returns leaves of the layer and of the tier.
      flush_k-inline :
          (s s' : RawKvIo X F) (t : NvmeKvTier F) (bid il nbytes : ℕ) (k : List ℕ) (lb : LayerBlk X)
          → s.threaded ≡ false
          → s.nvme ≡ some t
          → layer_at s bid il ≡ some lb
          → flush_k o a s bid il nbytes k ≡ ok s'
          → (t' : NvmeKvTier F) × (write_block o t
                (nvme_key s.store.cfg bid il false)
                (take nbytes k)
              ≡ ok t')
            × (s'.nvme ≡ some t')
            × (s'.store.cfg ≡ s.store.cfg)
            × (layer_at s' bid il ≡ some (k_spilled (with_sum a s.store.cfg lb)))
      unfolding flush_k
      flush_k-inline s s' t bid il nbytes k lb inline e there h =
          let s₁ = modify_layer s bid il (with_sum a s.store.cfg) in
          let h₁ = rw (inline, flush_k) at h in
          let (s₂, wrote, h₂) =
            returned (write_nvme o s₁ (nvme_key s.store.cfg bid il false) (take nbytes k)) _ h₁ in
          let (t', written, same) = write_nvme-ok s₁ s₂ t _ (take nbytes k) e wrote in
          let there₁ = layer_at-modify_layer s bid il (with_sum a s.store.cfg) lb there in
          let there₂ : layer_at s₂ bid il ≡ some (with_sum a s.store.cfg lb) = rw same there₁ in
          let there₃ = layer_at-modify_layer s₂ bid il k_spilled _ there₂ in
          let (nvme, cfg, layer) =
            kept
              (λ (x : RawKvIo X F).
                (x.nvme ≡ some t')
                × (x.store.cfg ≡ s.store.cfg)
                × (layer_at x bid il ≡ some (k_spilled (with_sum a s.store.cfg lb))))
              h₂ (ap (λ x. x.nvme) same, ap (λ x. x.store.cfg) same, there₃) in
          (t', written, nvme, cfg, layer)

      load_nvme-enabled :
          (s : RawKvIo X F) (t : NvmeKvTier F) (key n : ℕ)
          → s.nvme ≡ some t
          → enabled t ≡ true
          → load_nvme o s key n ≡ caught o s (read_block o t key n)
      unfolding load_nvme nvme_enabled
      load_nvme-enabled s t key n e on =
          let on' : nvme_enabled s ≡ true = ap tier_enabled e ∙ on in
          loaded_if s.nvme (nvme_enabled s) e on'
        where
          loaded_if :
              (m : Option (NvmeKvTier F)) (b : Bool)
              → m ≡ some t
              → b ≡ true
              → elim m [
                | none ↦ (s, none)
                | some u ↦ if not b then (s, none) else caught o s (read_block o u key n)
              ]
                ≡ caught o s (read_block o t key n)
          loaded_if none b e h = cc
          loaded_if (some u) true e h =
              let same : u ≡ t = cc in ap (λ x. caught o s (read_block o x key n)) same
          loaded_if (some u) false e h = cc

      -- The keys of a spilled layer come back from the tier.
      source_k-spilled :
          (laws : FileLaws o) (s s' : RawKvIo X F) (t t' : NvmeKvTier F) (bid il : ℕ) (k : List ℕ)
          (lb : LayerBlk X)
          → IsPool t
          → k_slot_bytes s.store.cfg ≤ length k
          → write_block o t (nvme_key s.store.cfg bid il false) (take (k_slot_bytes s.store.cfg) k)
            ≡ ok t'
          → s'.nvme ≡ some t'
          → s'.store.cfg ≡ s.store.cfg
          → (s'' : RawKvIo X F) × (source_k o s' bid il (k_spilled lb)
              ≡ (s'', some (take (k_slot_bytes s.store.cfg) k)))
      unfolding source_k load_k_nvme
      source_k-spilled laws s s' t t' bid il k lb v long wrote e same =
          let nbytes = k_slot_bytes s.store.cfg in
          let w = write_block-IsWritten o t t' _ (take nbytes k) v wrote in
          let same_count : t'.slot_count ≡ t.slot_count = ap (λ x. x.slot_count) w.same in
          let same_open : t'.is_open ≡ t.is_open = ap (λ x. x.is_open) w.same in
          let on : enabled t' ≡ true = rw (same_open, same_count) w.on in
          let (t'', read) = write_block-read_block o laws t t' _ (take nbytes k) v wrote in
          let size : length (take nbytes k) ≡ nbytes = omega (arith, length-take nbytes k) in
          let key = nvme_key s.store.cfg bid il false in
          let read' : read_block o t' key nbytes ≡ ok (t'', take nbytes k) =
            ap (λ n. read_block o t' key n) (sym size) ∙ read in
          let at_key : load_k_nvme o s' bid il ≡ load_nvme o s' key nbytes =
            ap (λ c. load_nvme o s' (nvme_key c bid il false) (k_slot_bytes c)) same in
          (
            record s' { nvme = some t'' },
            at_key ∙ load_nvme-enabled s' t' key nbytes e on ∙ ap (caught o s') read',
          )

    module _ (laws : FileLaws o) (a : FloatArith X) where
      -- The two reads of a block that is flushed, the flush done.
      flushed_reads :
          (s s' : RawKvIo X F) (t : NvmeKvTier F) (bid il n : ℕ) (lb : LayerBlk X)
          → s.threaded ≡ false
          → s.nvme ≡ some t
          → IsPool t
          → layer_at s bid il ≡ some lb
          → lb.n_tokens ≤ s.store.cfg.block_tokens
          → s.store.cfg.block_tokens * k_row_bytes s.store.cfg < u64_mod
          → k_due s.store.cfg lb ≡ true
          → ((n == 0) || (k_row_bytes s.store.cfg == 0)) ≡ false
          → flush_k o a s bid il (k_slot_bytes s.store.cfg) lb.k ≡ ok s'
          → (copy_k_rows o s' bid il n >>= λ r. ok r.1) ≡ (copy_k_rows o s bid il n >>= λ r. ok r.1)
      flushed_reads s s' t bid il n lb inline e v there block small due reads h =
          let cfg = s.store.cfg in
          let nbytes = k_slot_bytes cfg in
          let (t', wrote, e', same, there') =
            flush_k-inline a s s' t bid il nbytes lb.k lb inline e there h in
          let lb' = k_spilled (with_sum a cfg lb) in
          let (settled, filled, long) = k_due-facts cfg lb due in
          let settled' : lb'.k_flushing ≡ false =
            with_sum_keeps a (λ x. x.k_flushing) cfg lb (λ sums n. refl) ∙ settled in
          let tokens' : lb'.n_tokens ≡ lb.n_tokens =
            with_sum_keeps a (λ x. x.n_tokens) cfg lb (λ sums n. refl) in
          let (s'', source) =
            source_k-spilled a laws s s' t t' bid il lb.k (with_sum a cfg lb) v long wrote e'
              same in
          let left = copy_k_rows-settled s' bid il n lb' there' settled' (rw same reads) in
          let right = copy_k_rows-settled s bid il n lb there settled reads in
          let width = mul64 (min n lb.n_tokens) (k_row_bytes cfg) in
          let within : width ≤ nbytes = widths n lb.n_tokens cfg block small in
          let same_width : mul64 (min n lb'.n_tokens) (k_row_bytes s'.store.cfg) ≡ width =
            ap (λ c. mul64 (min n lb'.n_tokens) (k_row_bytes c)) same
            ∙ ap (λ m. mul64 (min n m) (k_row_bytes cfg)) tokens' in
          let read_spilled : copy_k_rows o s' bid il n
              ≡ ok (s'', some (take width (take nbytes lb.k))) =
            left
            ∙ ap (λ r. ok (taken (mul64 (min n lb'.n_tokens) (k_row_bytes s'.store.cfg)) r)) source
            ∙ ap (λ w. ok (s'', some (take w (take nbytes lb.k)))) same_width in
          let read_kept : copy_k_rows o s bid il n ≡ ok (s, some (take width lb.k)) =
            right ∙ ap (λ x. ok (taken width x)) (source_k-kept s bid il lb filled) in
          let same_rows : take width (take nbytes lb.k) ≡ take width lb.k =
            take-take width nbytes lb.k within in
          ap (λ x. x >>= λ r. ok r.1) read_spilled
          ∙ ap (λ rows. ok (some rows)) same_rows
          ∙ sym (ap (λ x. x >>= λ r. ok r.1) read_kept)

-- Take a store that writes to an SSD tier at once, whose tier is a slot pool, and a layer with at most
-- a block of tokens and no job under way, where a block of key rows is counted in 64 bits. If
-- `maybe_flush_k` returns, `copy_k_rows` gives of that layer the rows that it gave before, or still
-- none.
pub copy_k_rows-maybe_flush_k :
    {X F : Type 0} (o : FileOps F) (laws : FileLaws o) (a : FloatArith X) (s s' : RawKvIo X F)
    (t : NvmeKvTier F) (bid il n : ℕ) (lb : LayerBlk X)
    → s.threaded ≡ false
    → s.nvme ≡ some t
    → IsPool t
    → layer_at s bid il ≡ some lb
    → lb.n_tokens ≤ s.store.cfg.block_tokens
    → s.store.cfg.block_tokens * k_row_bytes s.store.cfg < u64_mod
    → maybe_flush_k o a s bid il ≡ ok s'
    → (copy_k_rows o s' bid il n >>= λ r. ok r.1) ≡ (copy_k_rows o s bid il n >>= λ r. ok r.1)
unfolding maybe_flush_k
copy_k_rows-maybe_flush_k o laws a s s' t bid il n lb inline e v there block small h =
    let h' = rw (there, maybe_flush_k) at h in
    elim (branches (nvme_enabled s && k_due s.store.cfg lb)
      (flush_k o a s bid il (k_slot_bytes s.store.cfg) lb.k) (ok s) h') [
        | inr (idle, kept_as_is) ↦
            let same : s ≡ s' = cc in ap (λ x. copy_k_rows o x bid il n >>= λ r. ok r.1) (sym same)
        | inl (due, flushed) ↦ elim (Bool-cases ((n == 0) || (k_row_bytes s.store.cfg == 0))) [
          | inl nothing ↦
              let (t', wrote, e', same, there') =
                flush_k-inline o a s s' t bid il (k_slot_bytes s.store.cfg) lb.k lb inline e there
                  flushed in
              ap (λ x. x >>= λ r. ok r.1)
                (copy_k_rows-nothing o s' bid il n
                  (ap (λ c. (n == 0) || (k_row_bytes c == 0)) same ∙ nothing))
              ∙ sym (ap (λ x. x >>= λ r. ok r.1) (copy_k_rows-nothing o s bid il n nothing))
          | inr reads ↦
              flushed_reads o laws a s s' t bid il n lb inline e v there block small
                (both_true (nvme_enabled s) (k_due s.store.cfg lb) due) reads flushed
        ]
      ]
