-- ===== src/Base/Maps.antt =====
-- A Go map with string keys, as the function that reads it.
use mathlib.Core.Path.{◌≡◌, refl, sym, ◌∙◌}
use mathlib.Core.Logic.{◌≢◌, inl, inr}
use mathlib.Core.Bool.{false, true≢false}
use probavi.Base.Tests.{if◌then◌else◌, Bool-cases}
use probavi.Base.Lists.{Bytes, beq, beq_iff, beq_refl}

pub beq-false : (a b : Bytes) → a ≢ b → beq a b ≡ false
beq-false a b n = elim (Bool-cases (beq a b)) [ inl t ↦ absurd (n ((beq_iff a b).0 t)) | inr f ↦ f ]

pub ne_of_beq : (a b : Bytes) → beq a b ≡ false → a ≢ b
ne_of_beq a b f e = true≢false (sym ((beq_iff a b).1 e) ∙ f)

pub beq_comm : (a b : Bytes) → beq a b ≡ beq b a
beq_comm a b = elim (Bool-cases (beq a b)) [
  | inl t ↦ rw ((beq_iff a b).0 t) refl
  | inr f ↦ f ∙ sym (beq-false b a (λ e. ne_of_beq a b f (sym e)))
]

module _ {ℓ} {A : Type ℓ} where
  -- `m[k] = v`.
  unfoldable pub put : Bytes → A → (Bytes → A) → Bytes → A
  put k v m x = if beq k x then v else m x

  pub put_same : (k : Bytes) (v : A) (m : Bytes → A) → put k v m k ≡ v
  unfolding put
  put_same k v m = rw (beq_refl k) refl

  pub put_other : (k x : Bytes) (v : A) (m : Bytes → A) → k ≢ x → put k v m x ≡ m x
  unfolding put
  put_other k x v m n = rw (beq-false k x n) refl
