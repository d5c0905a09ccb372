-- ===== src/Host/Raw/Thread.antt =====
-- The worker thread of kvmem/src/host/raw_kv_store.cpp: one turn of its loop takes the whole queue,
-- and writes it in the order of the slots. A call that waits for the thread takes its turn.
use kvmem_test.Common.{
  ℕ, Bool, true, false, ◌&&◌, List, [], ◌∷◌, none, some, if◌then◌else◌, ltb, ◌==◌, length,
  get_elem?, take, copy_into, replicate, range, is_nonneg, add64, Result, ok, ◌>>=◌,
}
use kvmem_test.Tier.Nvme.{FileOps, NvmeKvTier, place_block, place_block_locked, slot_index}
use kvmem_test.Tier.Nvme.Spans.{NvmeIoSpan, write_spans}
use kvmem_test.Host.Raw.{LayerBlk, empty}
use kvmem_test.Host.Raw.Io.{IoJob, RawKvIo, nvme_enabled, modify_layer, layer_at}

abbrev pub slot_at : List NvmeIoSpan → ℕ → ℕ
slot_at spans i = elim (get_elem? spans i) [ none ↦ 0 | some span ↦ slot_index span.slot ]

-- std::sort of indices by their slots, which differ.
unfoldable pub insert_index : List NvmeIoSpan → ℕ → List ℕ → List ℕ
insert_index spans i [] = i ∷ []
insert_index spans i (j ∷ order) =
    let rest = insert_index spans i order in
    if ltb (slot_at spans j) (slot_at spans i) then j ∷ rest else i ∷ j ∷ order

unfoldable pub sort_indices : List NvmeIoSpan → List ℕ → List ℕ
unfolding insert_index
sort_indices spans [] = []
sort_indices spans (i ∷ order) = insert_index spans i (sort_indices spans order)

-- The bytes of job `idx` go to the slab for span `idx`.
unfoldable pub lay_out :
    List IoJob → List NvmeIoSpan → List ℕ → ℕ → List ℕ → List NvmeIoSpan × List ℕ
unfolding copy_into
lay_out batch spans [] off slab = ([], slab)
lay_out batch spans (idx ∷ order) off slab = elim (get_elem? spans idx) [
  | none ↦ ([], slab)
  | some span ↦ elim (get_elem? batch idx) [
    | none ↦ ([], slab)
    | some job ↦
        let (sorted, slab') =
          lay_out batch spans order (add64 off job.bytes)
            (copy_into off (take job.bytes job.data') slab) in
        (record span { buffer_offset = off } ∷ sorted, slab')
  ]
]

module _ {X : Type 0} where
  abbrev pub written_out : Bool → LayerBlk X → LayerBlk X
  written_out true lb = record lb { v_flushing = false; v_on_nvme = true }
  written_out false lb = record lb { k_flushing = false; k_on_nvme = true }

module _ {F : Type 0} where
  -- A span for each job that gets a slot, and the size of the slab.
  unfoldable pub place_jobs : NvmeKvTier F → List IoJob → ℕ → NvmeKvTier F × (List NvmeIoSpan × ℕ)
  unfolding place_block_locked
  place_jobs t [] slab_bytes = (t, ([], slab_bytes))
  place_jobs t (job ∷ batch) slab_bytes =
      let (t', p) = place_block t job.key in
      elim (is_nonneg p.slot) [
        | false ↦ place_jobs t' batch slab_bytes
        | true ↦
            let (t'', (spans, total)) = place_jobs t' batch (add64 slab_bytes job.bytes) in
            (
              t'',
              (
                record { slot = p.slot; buffer_offset = slab_bytes; bytes = job.bytes } ∷ spans,
                total,
              ),
            )
      ]

  module _ (o : FileOps F) where
    -- A batch on the tier: the tier after it and the number of system calls.
    unfoldable pub write_batch : NvmeKvTier F → List IoJob → Result (NvmeKvTier F × ℕ)
    unfolding place_jobs sort_indices lay_out write_spans
    write_batch t batch =
        let (t', (spans, slab_bytes)) = place_jobs t batch 0 in
        let order = sort_indices spans (range 0 (length spans)) in
        let (sorted, slab) = lay_out batch spans order 0 (replicate slab_bytes 0) in
        write_spans o t' sorted slab >>= λ r. ok (r.0, if r.1 == 0 then length sorted else r.1)

module _ {X F : Type 0} where
  -- The layer of a job is marked as written, if it is still there.
  unfoldable pub finish_job : RawKvIo X F → IoJob → RawKvIo X F
  finish_job s job = elim (layer_at s job.block_id job.il) [
    | none ↦ s
    | some lb ↦ record (modify_layer s job.block_id job.il (written_out job.is_v)) {
      nvme_k_bytes = if job.is_v then s.nvme_k_bytes else add64 s.nvme_k_bytes job.bytes;
      nvme_v_bytes = if job.is_v then add64 s.nvme_v_bytes job.bytes else s.nvme_v_bytes;
    }
  ]

  unfoldable pub finish_jobs : RawKvIo X F → List IoJob → RawKvIo X F
  unfolding finish_job
  finish_jobs s [] = s
  finish_jobs s (job ∷ batch) = finish_jobs (finish_job s job) batch

  module _ (o : FileOps F) where
    unfoldable pub io_turn : RawKvIo X F → Result (RawKvIo X F)
    unfolding write_batch finish_jobs
    io_turn s =
        let batch = s.q in
        if empty batch then ok s else elim s.nvme [
          | none ↦ ok (record s { q = [] })
          | some t ↦ write_batch o t batch >>= λ r. ok (
              finish_jobs
                (record s { q = []; nvme = some r.0; nvme_syscalls = add64 s.nvme_syscalls r.1 })
                batch)
        ]

    unfoldable pub wait_writes : RawKvIo X F → Result (RawKvIo X F)
    unfolding io_turn nvme_enabled
    wait_writes s = if nvme_enabled s && s.threaded then io_turn s else ok s

    -- cv_.wait for a layer's keys, or its values.
    unfoldable pub wait_k : RawKvIo X F → ℕ → ℕ → Result (RawKvIo X F)
    unfolding io_turn
    wait_k s block_id il = elim (layer_at s block_id il) [
      | none ↦ ok s
      | some lb ↦ if lb.k_flushing then io_turn s else ok s
    ]

    unfoldable pub wait_v : RawKvIo X F → ℕ → ℕ → Result (RawKvIo X F)
    unfolding io_turn
    wait_v s block_id il = elim (layer_at s block_id il) [
      | none ↦ ok s
      | some lb ↦ if lb.v_flushing then io_turn s else ok s
    ]
