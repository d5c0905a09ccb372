-- ===== src/Host/Raw/Write/Reach.antt =====
-- The packed keys that `write_layer_k_gpu` stores are those that `copy_k_gpu` gives.
use kvmem_test.Common.{
  ℕ, zero, suc, ◌+◌, ◌-◌, ◌*◌, ◌≤◌, ◌<◌, ◌≡◌, ◌≢◌, ◌⊎◌, refl, sym, ap, ◌∙◌, false, ◌||◌, List, some,
  ltb, leb, ◌==◌, length, slice, min, add32, u32_mod, u64_mod, arith, Bool-cases, inl, inr, Result,
  ok, subst,
}
use native.Mathlib.Nat.{mul-le-mul_right}
use kvmem_test.Tier.Nvme.Separate.{slot_end}
use kvmem_test.Host.Raw.{LayerBlk}
use kvmem_test.Host.Raw.Key.{same_multiple, remainders}
use kvmem_test.Host.Raw.Io.{RawKvIo, layer_at}
use kvmem_test.Host.Raw.Read.{copy_k_gpu}
use kvmem_test.Host.Raw.Write.{
  Chunk, chunk_at, write_chunks, put_k_gpu, k_gpu_chunk, write_layer_k_gpu, writes_nothing,
}
use kvmem_test.Host.Raw.Write.Cover.{
  chunk_at-IsChunk, IsShaped, changed, changed-IsShaped, changed_other, changed_own,
  cfg-ensure_blocks, write_chunks_none, write_chunks_more, write_chunks_over,
}
use kvmem_test.Host.Raw.Write.PackedRows.{HasRows, put_k_gpu-HasRows, copied}

blocks_apart : (bid b bt off at : ℕ) → b * bt + off ≡ at → off < bt → bid * bt + bt ≤ at → b ≢ bid
blocks_apart bid b bt off at same less far b_is =
    let moved : bid * bt + off ≡ at = ap (λ x. x * bt + off) (sym b_is) ∙ same in omega arith

-- A chunk that starts at the block has its first `m` tokens, and ends with it or with the range.
own_chunk :
    (n m bt start pos0 bid done off count : ℕ)
    → done ≡ start
    → off ≡ 0
    → count ≡ min (n - done) (bt - off)
    → start + m ≤ n
    → m ≤ bt
    → pos0 + start ≡ bid * bt
    → (m ≤ count) × (count ≤ bt) × ((bid * bt + bt ≤ pos0 + (done + count)) ⊎ (n ≤ done + count))
own_chunk n m bt start pos0 bid done off count e z c ends block at = (
  omega arith,
  omega arith,
  elim (Bool-cases (leb (n - done) bt)) [
    | inl last ↦ let short : n - done ≤ bt = ground arith in inr (omega arith)
    | inr more ↦ let long : bt ≤ n - done = ground arith in inl (omega arith)
  ],
)

-- A chunk before the block does not pass its start.
earlier_chunk :
    (b bid bt off count done start pos0 : ℕ)
    → b * bt + off ≡ pos0 + done
    → off + count ≤ bt
    → pos0 + start ≡ bid * bt
    → done < start
    → done + count ≤ start
earlier_chunk b bid bt off count done start pos0 here within at before =
    elim (Bool-cases (ltb b bid)) [
      | inl lower ↦ let next = slot_end b bid bt (ground arith) in omega (arith, next)
      | inr higher ↦
          let over : bid * bt ≤ b * bt = mul-le-mul_right bt (ground arith) in
          absurd (omega (arith, over))
    ]

module _ {X F : Type 0} (il n m bid pos0 : ℕ) (k : List ℕ) where
  -- The rounds of the loop from `done` on.
  abbrev rounds : ℕ → ℕ → ℕ → RawKvIo X F → Result (RawKvIo X F)
  rounds bt fuel done s = write_chunks (k_gpu_chunk il k) bt pos0 n fuel done s

  abbrev after : Chunk → RawKvIo X F → RawKvIo X F
  after c s = changed s c il (put_k_gpu s.store.cfg c k)

  rounds_step :
      (bt fuel done : ℕ) (s : RawKvIo X F)
      → done < n
      → n < u32_mod
      → rounds bt (suc fuel) done s
        ≡ rounds bt fuel
            (done + (chunk_at bt pos0 n done).count)
            (after (chunk_at bt pos0 n done) s)
  unfolding k_gpu_chunk
  rounds_step bt fuel done s more fits =
      let next : add32 done (chunk_at bt pos0 n done).count
          ≡ done + (chunk_at bt pos0 n done).count =
        omega arith in
      write_chunks_more (k_gpu_chunk il k) bt pos0 n fuel done s more
      ∙ ap (λ d. rounds bt fuel d (after (chunk_at bt pos0 n done) s)) next

  -- Rounds past a block leave its layer.
  rounds_past :
      (bt fuel done : ℕ) (s : RawKvIo X F) (lb : LayerBlk X)
      → 0 < bt
      → pos0 + n < u32_mod
      → (bid * bt + bt ≤ pos0 + done) ⊎ (n ≤ done)
      → layer_at s bid il ≡ some lb
      → (t : RawKvIo X F) × (rounds bt fuel done s ≡ ok t)
        × (layer_at t bid il ≡ some lb)
        × (t.store.cfg ≡ s.store.cfg)
  rounds_past bt zero done s lb h fits past e =
      (s, write_chunks_none (k_gpu_chunk il k) bt pos0 n done s, e, refl)
  rounds_past bt (suc fuel) done s lb h fits past e = elim (Bool-cases (leb n done)) [
    | inl over ↦ (
      s,
      write_chunks_over (k_gpu_chunk il k) bt pos0 n (suc fuel) done s (ground arith),
      e,
      refl,
    )
    | inr more ↦
        let c = chunk_at bt pos0 n done in
        let far : bid * bt + bt ≤ pos0 + done = ground arith in
        let v = chunk_at-IsChunk bt pos0 n done h fits (ground arith) in
        let left =
          changed_other s c bid il (put_k_gpu s.store.cfg c k) lb
            (blocks_apart bid c.bid bt c.off (pos0 + done) v.at v.inside far) e in
        let (t, ran, there, same) =
          rounds_past bt fuel (done + c.count) (after c s) lb h fits (inl (omega arith)) left in
        (
          t,
          rounds_step bt fuel done s (ground arith) (omega arith) ∙ ran,
          there,
          same ∙ cfg-ensure_blocks s.store (add32 c.bid 1),
        )
  ]

  -- The loop reaches the block and leaves its rows.
  rounds_reach :
      (bt fuel done start : ℕ) (s : RawKvIo X F)
      → IsShaped s
      → il < s.store.cfg.n_layer
      → s.store.cfg.block_tokens ≡ bt
      → 0 < bt
      → bt < u32_mod
      → pos0 + n < u32_mod
      → length k ≡ n * s.store.cfg.k_gpu_row_bytes
      → n * s.store.cfg.k_gpu_row_bytes < u64_mod
      → s.store.cfg.block_tokens * s.store.cfg.k_gpu_row_bytes < u64_mod
      → pos0 + start ≡ bid * bt
      → done ≤ start
      → start + m ≤ n
      → 0 < m
      → m ≤ bt
      → n ≤ done + fuel
      → (t : RawKvIo X F) × (lb : LayerBlk X) × (rounds bt fuel done s ≡ ok t)
        × (layer_at t bid il ≡ some lb)
        × (t.store.cfg ≡ s.store.cfg)
        × HasRows m s.store.cfg.k_gpu_row_bytes
            (slice (start * s.store.cfg.k_gpu_row_bytes) (m * s.store.cfg.k_gpu_row_bytes) k)
            lb
  rounds_reach bt zero done start s v inside eb h h' fits len small small' at before ends some_rows
        block enough =
      absurd (omega arith)
  rounds_reach bt (suc fuel) done start s v inside eb h h' fits len small small' at before ends
        some_rows block enough =
      let c = chunk_at bt pos0 n done in
      let w = chunk_at-IsChunk bt pos0 n done h fits (omega arith) in
      let same = cfg-ensure_blocks s.store (add32 c.bid 1) in
      let step = rounds_step bt fuel done s (omega arith) (omega arith) in
      elim (Bool-cases (done == start)) [
        | inl e ↦
            let here : c.bid * bt + c.off ≡ bid * bt + 0 = ground (arith, w.at, at) in
            let is_bid : c.bid ≡ bid = same_multiple c.bid bid bt c.off 0 w.inside h here in
            let at_start : c.off ≡ 0 = remainders c.bid bid bt c.off 0 is_bid here in
            let (old, there) = changed_own s c il (put_k_gpu s.store.cfg c k) v inside w.small in
            let lb = put_k_gpu s.store.cfg c k old in
            let there' : layer_at (after c s) bid il ≡ some lb =
              ap (λ b. layer_at (after c s) b il) (sym is_bid) ∙ there in
            let (fits_m, fits_bt, past) =
              own_chunk n m bt start pos0 bid done c.off c.count (ground arith) at_start w.maximal
                ends block at in
            let rows =
              put_k_gpu-HasRows s.store.cfg n m c k old len small small' (rw eb h') at_start fits_m
                (rw eb fits_bt) w.ends in
            let (t, ran, found, kept) =
              rounds_past bt fuel (done + c.count) (after c s) lb h fits past there' in
            let done_is : done ≡ start = ground arith in
            let row = s.store.cfg.k_gpu_row_bytes in
            (
              t,
              lb,
              step ∙ ran,
              found,
              kept ∙ same,
              subst (λ d. HasRows m row (slice (d * row) (m * row) k) lb) done_is rows,
            )
        | inr e ↦
            let early =
              earlier_chunk c.bid bid bt c.off c.count done start pos0 w.at w.within at
                (ground arith) in
            let v' = changed-IsShaped s c il (put_k_gpu s.store.cfg c k) v in
            let progress = w.positive in
            let (t, lb, ran, found, kept, rows) =
              rounds_reach bt fuel (done + c.count) start (after c s) v' (rw same inside)
                (rw same eb) h h' fits (rw same len) (rw same small) (rw same small') at early ends
                some_rows block (omega arith) in
            (t, lb, step ∙ ran, found, kept ∙ same, rw same at rows)
      ]

-- Let all blocks have all layers, and let `k` hold `n` rows of packed keys that together, as a block
-- of rows, are counted in 64 bits. If the positions from `pos0` on fit 32 bits, `write_layer_k_gpu`
-- returns, and then `copy_k_gpu` of the first `m` tokens of a block, all of them among those written,
-- gives their rows of `k`.
pub copy_k_gpu-write_layer_k_gpu :
    {X F : Type 0} (s : RawKvIo X F) (pos0 n il bid m start : ℕ) (k : List ℕ)
    → IsShaped s
    → il < s.store.cfg.n_layer
    → 0 < s.store.cfg.block_tokens
    → s.store.cfg.block_tokens < u32_mod
    → 0 < s.store.cfg.k_gpu_row_bytes
    → pos0 + n < u32_mod
    → length k ≡ n * s.store.cfg.k_gpu_row_bytes
    → n * s.store.cfg.k_gpu_row_bytes < u64_mod
    → s.store.cfg.block_tokens * s.store.cfg.k_gpu_row_bytes < u64_mod
    → pos0 + start ≡ bid * s.store.cfg.block_tokens
    → start + m ≤ n
    → 0 < m
    → m ≤ s.store.cfg.block_tokens
    → (t : RawKvIo X F) × (write_layer_k_gpu s pos0 n il (some k) ≡ ok t)
      × (copy_k_gpu t bid il m
          ≡ some (slice (start * s.store.cfg.k_gpu_row_bytes) (m * s.store.cfg.k_gpu_row_bytes) k))
unfolding write_layer_k_gpu
copy_k_gpu-write_layer_k_gpu s pos0 n il bid m start k v inside h h' rows fits len small small' at
      ends some_rows block =
    let row = s.store.cfg.k_gpu_row_bytes in
    let bt = s.store.cfg.block_tokens in
    let writes : (writes_nothing s n il || (row == 0)) ≡ false = ground arith in
    let (t, lb, ran, found, kept, has) =
      rounds_reach il n m bid pos0 k bt n 0 start s v inside refl h h' fits len small small' at
        (omega arith) ends some_rows block (omega arith) in
    let upto : m * row ≤ n * row = mul-le-mul_right row (omega arith) in
    (
      t,
      rw writes ran,
      copied t lb bid il m row _ some_rows rows (omega arith) found
          (ap (λ c. c.k_gpu_row_bytes) kept) has,
    )
