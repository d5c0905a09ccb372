-- ===== src/Adapter/Batch/Cell.antt =====
-- The cell of one row in llama-kvmem-batch.cpp.
use kvmem_test.Common.{
  ℕ, zero, suc, ◌+◌, ◌-◌, ◌*◌, ◌/◌, ◌%◌, ◌^◌, ◌≤◌, ◌<◌, ◌≡◌, refl, ◌∙◌, subst, pos, false, some,
  List, [], ◌∷◌, leb, get_elem?, add32, sub32, sub32_small, arith, u32_mod, int32_of_bits,
}
use kvmem_test.Store.Types.{KvMemBlock, KvMemStore, orig_pos_end}
use kvmem_test.Store.Table.{block_id_containing}
use kvmem_test.Store.Table.Layout.{Laid, IsLaid, Laid-start-le}
use kvmem_test.Store.Table.Locate.{block_id_containing-IsLaid}
use kvmem_test.Adapter.Batch.{cell_in, cell_of}

pub quotient_le : (p bt : ℕ) → 0 < bt → p / bt * bt ≤ p
quotient_le p bt h = grind arith

pub rest_lt : (p bt : ℕ) → 0 < bt → p - p / bt * bt < bt
rest_lt p bt h = grind arith

quotient_small : (p bt : ℕ) → 0 < bt → p / bt ≤ p
quotient_small p bt h = grind arith

int32_small : (n : ℕ) → n < 2 ^ 31 → int32_of_bits n ≡ pos n
int32_small n h = ground arith

-- The cell of an offset in a block whose slot ends within the pool.
in_slot :
    (bt kv slot off : ℕ) → slot * bt + bt ≤ kv → kv < u32_mod → off < bt → slot * bt + off < kv
in_slot bt kv slot off h k l = omega arith

add_small : (a off kv : ℕ) → a + off < kv → kv < u32_mod → add32 (a % u32_mod) off ≡ a + off
add_small a off kv h k = omega arith

module _ {D : Type 0} where
  -- Block `id + k` of the table starts at its number times the block size.
  Laid-at :
      (bt id start total : ℕ) (bs : List (KvMemBlock D)) (k : ℕ) (b : KvMemBlock D)
      → Laid bt id start bs total
      → get_elem? bs k ≡ some b
      → (b.orig_pos_start ≡ (id + k) * bt)
        × (b.n_tokens ≤ bt)
        × (b.orig_pos_start + b.n_tokens ≤ total)
  Laid-at bt id start total [] k b h e = cc
  Laid-at bt id start total (c ∷ bs) zero b h e =
      let same : c ≡ b = cc in
      let end = Laid-start-le bt (id + 1) (start + c.n_tokens) bs total h.5 in
      subst
        (λ x.
          (x.orig_pos_start ≡ (id + 0) * bt)
          × (x.n_tokens ≤ bt)
          × (x.orig_pos_start + x.n_tokens ≤ total))
        same (omega arith, omega arith, omega arith)
  Laid-at bt id start total (c ∷ bs) (suc k) b h e =
      let (at, fits, within) = Laid-at bt (id + 1) (start + c.n_tokens) total bs k b h.5 e in
      (omega arith, fits, within)

  -- A position's cell in the block that holds it.
  cell_in-pos :
      (bt kv p slot : ℕ) (b : KvMemBlock D)
      → b.orig_pos_start ≤ p
      → p < b.orig_pos_start + b.n_tokens
      → b.n_tokens ≤ bt
      → p < u32_mod
      → slot * bt + bt ≤ kv
      → kv < u32_mod
      → cell_in bt kv p b (pos slot) ≡ some (slot * bt + (p - b.orig_pos_start))
  unfolding cell_in
  cell_in-pos bt kv p slot b lo hi fits small pool wide =
      let off : sub32 p b.orig_pos_start ≡ p - b.orig_pos_start =
        sub32_small p b.orig_pos_start lo small in
      let held : leb b.n_tokens (p - b.orig_pos_start) ≡ false = ground arith in
      let whole : leb bt (p - b.orig_pos_start) ≡ false = ground arith in
      let inside : slot * bt + (p - b.orig_pos_start) < kv =
        in_slot bt kv slot (p - b.orig_pos_start) pool wide (omega arith) in
      let cell = add_small (slot * bt) (p - b.orig_pos_start) kv inside wide in
      let within : leb kv (slot * bt + (p - b.orig_pos_start)) ≡ false = ground arith in
      rw (off, held, whole, cell, within) refl

  -- The block of a position of a laid table is found, and starts at its number times the size.
  pub block_of-IsLaid :
      (s : KvMemStore D) (p : ℕ) (b : KvMemBlock D)
      → IsLaid s
      → p < s.total_tokens
      → p < 2 ^ 31
      → get_elem? s.blocks (p / s.block_tokens) ≡ some b
      → (block_id_containing s p ≡ pos (p / s.block_tokens))
        × (b.orig_pos_start ≡ p / s.block_tokens * s.block_tokens)
  block_of-IsLaid s p b v h small e =
      let bt = s.block_tokens in
      let (c, found, found_at, i, below, above) = block_id_containing-IsLaid s p v h in
      let (at, fits, within) = Laid-at bt 0 0 s.total_tokens s.blocks (p / bt) b v.laid e in
      let number : int32_of_bits (p / bt) ≡ pos (p / bt) =
        int32_small (p / bt) (omega (arith, quotient_small p bt v.positive)) in
      (found ∙ number, omega arith)

  -- A position of a laid table whose block has a slot in the pool has its cell in that slot.
  pub cell_of-IsLaid :
      (s : KvMemStore D) (kv p slot : ℕ) (b : KvMemBlock D)
      → IsLaid s
      → p < s.total_tokens
      → p < 2 ^ 31
      → get_elem? s.blocks (p / s.block_tokens) ≡ some b
      → b.gpu_slot ≡ pos slot
      → slot * s.block_tokens + s.block_tokens ≤ kv
      → kv < u32_mod
      → cell_of s s.block_tokens kv (pos p)
        ≡ some (slot * s.block_tokens + (p - p / s.block_tokens * s.block_tokens))
  unfolding cell_of
  cell_of-IsLaid s kv p slot b v h small e on pool wide =
      let bt = s.block_tokens in
      let (c, found, found_at, i, below, above) = block_id_containing-IsLaid s p v h in
      let same : c ≡ b = cc in
      let (at, fits, within) = Laid-at bt 0 0 s.total_tokens s.blocks (p / bt) b v.laid e in
      let lo : b.orig_pos_start ≤ p = subst (λ x. x.orig_pos_start ≤ p) same below in
      let hi : p < orig_pos_end b = subst (λ x. p < orig_pos_end x) same above in
      let bounded = v.bounded in
      let hi' : p < b.orig_pos_start + b.n_tokens = omega arith in
      let (number, start) = block_of-IsLaid s p b v h small e in
      let cell = cell_in-pos bt kv p slot b lo hi' fits (omega arith) pool wide in
      rw (number, cell_of, e, on, cell, start) refl
