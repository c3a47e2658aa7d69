-- ===== src/Prelude/Maps.antt =====
-- Finite memory regions as functions from addresses or indices.
use Prim.Native.Nat.{ℕ}
use mathlib.Core.Path.{◌≡◌, refl, ap, ◌∙◌}
use mathlib.Core.Logic.{◌≢◌, inl, inr}
use native.Mathlib.Omega.{arith}
use architecture_evolution_f.Prelude.Tests.{◌==◌, if◌then◌else◌, Bool-cases}

-- The map with one place overwritten.
abbrev pub update {ℓ} : {A : Type ℓ} → (ℕ → A) → ℕ → A → ℕ → A
update f p v q = if q == p then v else f q

pub update_self {ℓ} : {A : Type ℓ} (f : ℕ → A) (p : ℕ) (v : A) → update f p v p ≡ v
update_self f p v = ground arith

pub update_ne {ℓ} : {A : Type ℓ} (f : ℕ → A) (p q : ℕ) (v : A) → q ≢ p → update f p v q ≡ f q
update_ne f p q v h = ground arith

-- What a write at a place leaves of a view of the values, if the value written has the same view.
pub update-view {ℓ} :
    {A B : Type ℓ} (view : A → B) (f : ℕ → A) (p : ℕ) (v : A)
    → view v ≡ view (f p)
    → (q : ℕ) → view (update f p v q) ≡ view (f q)
update-view view f p v h q = elim (Bool-cases (q == p)) [
  | inl same ↦ let at : p ≡ q = ground arith in rw same (h ∙ ap (λ r. view (f r)) at)
  | inr other ↦ rw other refl
]
