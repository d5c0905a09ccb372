-- ===== src/Common/Throw.antt =====
-- Exceptions as values: the `throw` statements of the stores and the tiers.
use mathlib.Core.Path.{◌≡◌, refl, subst}
use mathlib.Core.Bool.{Bool, true, false}
use mathlib.Core.Logic.{◌⊎◌, inl, inr}
use kvmem_test.Common.Tests.{if◌then◌else◌}

-- One constructor for each message.
pub data Error : Type 0 where
  budget_exceeds_maximum budget_not_block_multiple budget_below_keep : Error
  zero_block_tokens budget_below_block : Error
  sink_blocks_and_tokens recent_blocks_and_tokens : Error
  allocation_too_large allocation_overflows keep_exceeds_budget : Error
  mandatory_exceeds_budget : Error
  spans_scores_mismatch : Error
  skip_and_refresh : Error
  tier_disabled exceeds_slot_size invalid_slot range_exceeds_slot_size : Error
  attached_read_only tier_full not_resident not_direct_mapped : Error
  io_failed : Error
  invalid_checkpoint : Error
  span_exceeds_buffer : Error

pub data Result {ℓ} (A : Type ℓ) : Type ℓ where
  ok : A → Result A
  throw : Error → Result A

-- if (b) throw e;
abbrev pub throw_if : Bool → Error → Result (Unit {0})
throw_if false e = ok tt
throw_if true e = throw e

module _ {ℓ κ} {A : Type ℓ} {B : Type κ} where
  infixl 5 ◌>>=◌
  -- A statement and what follows it.
  abbrev pub ◌>>=◌ : Result A → (A → Result B) → Result B
  throw e >>= next = throw e
  ok x >>= next = next x

  -- If the whole returns, so did the statement, and then what follows.
  pub returned :
      (first : Result A) (next : A → Result B) {y : B}
      → (first >>= next) ≡ ok y
      → (x : A) × (first ≡ ok x) × (next x ≡ ok y)
  returned (throw e) next h = cc
  returned (ok x) next h = (x, refl, h)

module _ {κ} {B : Type κ} where
  infixl 5 ◌>>◌
  abbrev pub ◌>>◌ : Result (Unit {0}) → Result B → Result B
  first >> next = first >>= λ done. next

pub throw_if-ok : (b : Bool) (e : Error) {u : Unit {0}} → throw_if b e ≡ ok u → b ≡ false
throw_if-ok true e h = cc
throw_if-ok false e h = refl

-- What holds of a returned value holds of the result.
pub kept : {A : Type 0} (P : A → Type 0) {x y : A} → ok x ≡ ok y → P x → P y
kept P {x} {y} h p = let same : x ≡ y = cc in subst P same p

-- A test that returns has returned one of its branches.
pub branches :
    {A : Type 0} (b : Bool) (x y : Result A) {z : A}
    → (if b then x else y) ≡ ok z
    → ((b ≡ true) × (x ≡ ok z)) ⊎ ((b ≡ false) × (y ≡ ok z))
branches true x y h = inl (refl, h)
branches false x y h = inr (refl, h)
