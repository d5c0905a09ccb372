-- ===== src/Store/Table/History.antt =====
-- Histories of `register_append` and `truncate_to` from an empty store: the table depends on the
-- token count alone, whatever calls led to it.
use kvmem_test.Common.{
  ℕ, ◌+◌, ◌<◌, ◌≡◌, refl, List, [], ◌∷◌, arith, ap, u32_mod, min, Option, some, none, ◌∙◌, sym,
}
use kvmem_test.Store.Types.{DoubleOps, KvMemStore, KvMemStoreConfig, new_store}
use kvmem_test.Store.Table.{register_append, truncate_to}
use kvmem_test.Store.Table.Layout.{Laid, IsLaid, Laid-geometry, geometry}
use kvmem_test.Store.Table.Append.{register_append-IsLaid}
use kvmem_test.Store.Table.Truncate.{truncate_to-IsLaid, truncate_to-cfg}

-- A call that changes the table.
pub data TableCall : Type 0 where
  appends truncates : ℕ → TableCall

-- The token count after the calls.
unfoldable pub tokens_after : ℕ → List TableCall → ℕ
tokens_after t [] = t
tokens_after t (TableCall.appends n ∷ cs) = tokens_after (t + n) cs
tokens_after t (TableCall.truncates p ∷ cs) = tokens_after (min t p) cs

-- No append takes the count out of 32 bits.
abbrev pub Fits : ℕ → List TableCall → Type 0
Fits t [] = Unit {0}
Fits t (TableCall.appends n ∷ cs) = (t + n < u32_mod) × Fits (t + n) cs
Fits t (TableCall.truncates p ∷ cs) = Fits (min t p) cs

module _ {D : Type 0} where
  unfoldable pub call_table : DoubleOps D → KvMemStore D → TableCall → Option (KvMemStore D)
  call_table o s (TableCall.appends n) = register_append o s n
  call_table o s (TableCall.truncates p) = some (truncate_to s p).0

  abbrev after_call :
      DoubleOps D
      → List TableCall
      → (DoubleOps D → KvMemStore D → Option (KvMemStore D))
      → Option (KvMemStore D)
      → Option (KvMemStore D)
  after_call o cs run none = none
  after_call o cs run (some s) = run o s

  unfoldable pub run_table : List TableCall → DoubleOps D → KvMemStore D → Option (KvMemStore D)
  unfolding call_table
  run_table [] o s = some s
  run_table (c ∷ cs) o s = after_call o cs (run_table cs) (call_table o s c)

  new_store-IsLaid : (c : KvMemStoreConfig D) → 0 < c.block_tokens → IsLaid (new_store c)
  unfolding new_store
  new_store-IsLaid c h = record { positive = h; bounded = omega arith; laid = refl }

  -- Every history that fits returns a laid table with the specified number of tokens.
  pub run_table-IsLaid :
      (o : DoubleOps D) (cs : List TableCall) (s : KvMemStore D)
      → IsLaid s
      → Fits s.total_tokens cs
      → (s' : KvMemStore D) × (run_table cs o s ≡ some s')
        × IsLaid s'
        × (s'.total_tokens ≡ tokens_after s.total_tokens cs)
        × (s'.cfg ≡ s.cfg)
  unfolding run_table tokens_after
  run_table-IsLaid o [] s v f = (s, refl, v, refl, refl)
  run_table-IsLaid o (TableCall.appends n ∷ cs) s v f =
      let (s₁, e, v₁, t₁, c₁) = register_append-IsLaid o s n v f.0 in
      let f₁ : Fits s₁.total_tokens cs = rw t₁ f.1 in
      let (s', r, v', t', c') = run_table-IsLaid o cs s₁ v₁ f₁ in
      (s', rw e r, v', t' ∙ ap (λ t. tokens_after t cs) t₁, c' ∙ c₁)
  run_table-IsLaid o (TableCall.truncates p ∷ cs) s v f =
      let (v₁, t₁, _, _) = truncate_to-IsLaid s p v in
      let f₁ : Fits (truncate_to s p).0.total_tokens cs = rw t₁ f in
      let (s', r, v', t', c') = run_table-IsLaid o cs (truncate_to s p).0 v₁ f₁ in
      (s', r, v', t' ∙ ap (λ t. tokens_after t cs) t₁, c' ∙ truncate_to-cfg s p)

  -- Two histories of an empty store that fit and end at the same token count both return, and
  -- their tables have the same blocks: the same numbers, first tokens and token counts.
  pub run_table-geometry :
      (o : DoubleOps D) (c : KvMemStoreConfig D) (cs ds : List TableCall)
      → 0 < c.block_tokens
      → Fits 0 cs
      → Fits 0 ds
      → tokens_after 0 cs ≡ tokens_after 0 ds
      → (s t : KvMemStore D) × (run_table cs o (new_store c) ≡ some s)
        × (run_table ds o (new_store c) ≡ some t)
        × (geometry s.blocks ≡ geometry t.blocks)
  unfolding new_store
  run_table-geometry o c cs ds h f g e =
      let v = new_store-IsLaid c h in
      let (s, r, w, n, k) = run_table-IsLaid o cs (new_store c) v f in
      let (t, r', w', n', k') = run_table-IsLaid o ds (new_store c) v g in
      let bt : t.block_tokens ≡ s.block_tokens = ap (λ x. x.block_tokens) (k' ∙ sym k) in
      let total : t.total_tokens ≡ s.total_tokens = n' ∙ sym e ∙ sym n in
      let laid : Laid s.block_tokens 0 0 t.blocks s.total_tokens = rw (← bt, ← total) w'.laid in
      (s, t, r, r', Laid-geometry s.block_tokens 0 0 s.blocks t.blocks s.total_tokens w.laid laid)
