-- ===== src/Prelude/Perms.antt =====
-- Rearrangements keep what a list has.
use mathlib.Core.Path.{◌≡◌, refl, ◌∙◌}
use mathlib.Core.Logic.{∥∥₁_elim}
use mathlib.Core.Bool.{Bool-set}
use mathlib.Core.List.{List, ◌∷◌, Perm, Permᴰ}
use mathlib.Core.List.Permᴰ.{nil, cons, swap, trans}
use Prim.Native.Nat.{ℕ}
use native.Mathlib.Omega.{arith}
use architecture_evolution_f.Prelude.Lists.{has}

has-cons :
    (a x y : ℕ) (xs ys : List ℕ) → x ≡ y → has a xs ≡ has a ys → has a (x ∷ xs) ≡ has a (y ∷ ys)
has-cons a x y xs ys e h = rw (e, h) refl

has-Permᴰ : (a : ℕ) {xs ys : List ℕ} → Permᴰ xs ys → has a xs ≡ has a ys
has-Permᴰ a nil = refl
has-Permᴰ a (cons e d) = has-cons a _ _ _ _ e (has-Permᴰ a d)
has-Permᴰ a (swap e e') = rw (e, e') (ground arith)
has-Permᴰ a (trans d d') = has-Permᴰ a d ∙ has-Permᴰ a d'

pub has-perm : (a : ℕ) (xs ys : List ℕ) → Perm xs ys → has a xs ≡ has a ys
has-perm a xs ys p = ∥∥₁_elim p (Bool-set (has a xs) (has a ys)) (λ d. has-Permᴰ a d)
