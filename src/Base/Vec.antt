-- ===== src/Base/Vec.antt =====
-- `Vec::swap_remove`: the item at an index is taken out, and the last item takes its place.
use Prim.Native.Nat.{ℕ, zero, suc, ◌+◌}
use mathlib.Core.Path.{◌≡◌, refl, ap}
use mathlib.Core.List.{List, [], ◌∷◌, Perm}
use mathlib.Core.List.Perm
use mathlib.Core.Option.{some}
use native.Mathlib.Omega.{arith}
use camera_adapter.Base.Lists.{length, get_elem?, sum_of, All, take}

module _ {ℓ} {A : Type ℓ} where
  -- The last item of `x ∷ xs`, moved to the front.
  abbrev last_of : A → List A → A
  last_of x [] = x
  last_of x (y ∷ ys) = last_of y ys

  abbrev init_of : A → List A → List A
  init_of x [] = []
  init_of x (y ∷ ys) = x ∷ init_of y ys

  abbrev last_first : List A → List A
  last_first [] = []
  last_first (x ∷ xs) = last_of x xs ∷ init_of x xs

  unfoldable pub swap_remove : ℕ → List A → List A
  swap_remove i [] = []
  swap_remove zero (x ∷ xs) = last_first xs
  swap_remove (suc i) (x ∷ xs) = x ∷ swap_remove i xs

  init_last-perm : (x : A) (xs : List A) → Perm (x ∷ xs) (last_of x xs ∷ init_of x xs)
  init_last-perm x [] = Perm.refl _
  init_last-perm x (y ∷ ys) =
      Perm.trans (Perm.cons x (init_last-perm y ys)) (Perm.swap (last_of y ys) x _)

  last_first-perm : (xs : List A) → Perm xs (last_first xs)
  last_first-perm [] = Perm.refl _
  last_first-perm (x ∷ xs) = init_last-perm x xs

  -- Taking an item out keeps every other item, as often as before.
  pub swap_remove-perm :
      (xs : List A) (i : ℕ) (x : A) → get_elem? xs i ≡ some x → Perm xs (x ∷ swap_remove i xs)
  unfolding swap_remove
  swap_remove-perm [] i x h = cc
  swap_remove-perm (y ∷ ys) zero x h =
      Perm.trans (Perm.cons y (last_first-perm ys)) (Perm.cons' (ground arith) Perm.rfl)
  swap_remove-perm (y ∷ ys) (suc i) x h =
      Perm.trans (Perm.cons y (swap_remove-perm ys i x h)) (Perm.swap x y _)

  length-init : (x : A) (xs : List A) → length (init_of x xs) ≡ length xs
  length-init x [] = refl
  length-init x (y ∷ ys) = ap suc (length-init y ys)

  sum_of-init :
      (f : A → ℕ) (x : A) (xs : List A)
      → f (last_of x xs) + sum_of f (init_of x xs) ≡ f x + sum_of f xs
  sum_of-init f x [] = refl
  sum_of-init f x (y ∷ ys) = omega (arith, sum_of-init f y ys)

  pub sum_of-swap_remove :
      (f : A → ℕ) (xs : List A) (i : ℕ) (x : A)
      → get_elem? xs i ≡ some x
      → f x + sum_of f (swap_remove i xs) ≡ sum_of f xs
  unfolding swap_remove
  sum_of-swap_remove f [] i x h = cc
  sum_of-swap_remove f (y ∷ []) zero x h = ground arith
  sum_of-swap_remove f (y ∷ z ∷ zs) zero x h = ground (arith, sum_of-init f z zs)
  sum_of-swap_remove f (y ∷ ys) (suc i) x h = omega (arith, sum_of-swap_remove f ys i x h)

  All-init {κ} :
      (P : A → Type κ) (x : A) (xs : List A)
      → P x
      → All P xs
      → P (last_of x xs) × All P (init_of x xs)
  All-init P x [] hx h = (hx, tt)
  All-init P x (y ∷ ys) hx h = let r = All-init P y ys h.0 h.1 in (r.0, (hx, r.1))

  pub All-swap_remove {κ} :
      (P : A → Type κ) (xs : List A) (i : ℕ) → All P xs → All P (swap_remove i xs)
  unfolding swap_remove
  All-swap_remove P [] i h = h
  All-swap_remove P (x ∷ []) zero h = tt
  All-swap_remove P (x ∷ y ∷ ys) zero h = All-init P y ys h.1.0 h.1.1
  All-swap_remove P (x ∷ xs) (suc i) h = (h.0, All-swap_remove P xs i h.1)

  pub length-swap_remove :
      (xs : List A) (i : ℕ) (x : A)
      → get_elem? xs i ≡ some x
      → suc (length (swap_remove i xs)) ≡ length xs
  unfolding swap_remove
  length-swap_remove [] i x h = cc
  length-swap_remove (y ∷ []) zero x h = refl
  length-swap_remove (y ∷ z ∷ zs) zero x h = ap suc (ap suc (length-init z zs))
  length-swap_remove (y ∷ ys) (suc i) x h = ap suc (length-swap_remove ys i x h)

  pub take-swap_remove : (xs : List A) (i : ℕ) → take i (swap_remove i xs) ≡ take i xs
  unfolding swap_remove
  take-swap_remove [] i = refl
  take-swap_remove (x ∷ xs) zero = refl
  take-swap_remove (x ∷ xs) (suc i) = ap (◌∷◌ x) (take-swap_remove xs i)
