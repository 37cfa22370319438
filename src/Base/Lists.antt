-- ===== src/Base/Lists.antt =====
-- Lists measured and indexed by native numbers, and predicates on their items.
use Prim.Native.Nat.{ℕ, zero, suc, ◌+◌, ◌≤◌}
use mathlib.Core.Path.{◌≡◌, subst}
use mathlib.Core.Bool.{Bool}
use mathlib.Core.List.{List, [], ◌∷◌, ◌++◌, Mem, mem-cons, not-mem-nil}
use mathlib.Core.Logic.Or
use mathlib.Core.Option.{Option, none, some}
use native.Mathlib.Omega.{arith}
use camera_adapter.Base.Tests.{if◌then◌else◌}

module _ {ℓ} {A : Type ℓ} where
  abbrev pub length : List A → ℕ
  length [] = 0
  length (x ∷ xs) = suc (length xs)

  abbrev pub get_elem? : List A → ℕ → Option A
  get_elem? [] i = none
  get_elem? (x ∷ xs) zero = some x
  get_elem? (x ∷ xs) (suc i) = get_elem? xs i

  -- A write out of bounds changes nothing.
  abbrev pub set : List A → ℕ → A → List A
  set [] i v = []
  set (x ∷ xs) zero v = v ∷ xs
  set (x ∷ xs) (suc i) v = x ∷ set xs i v

  abbrev pub get_or : List A → ℕ → A → A
  get_or [] i d = d
  get_or (x ∷ xs) zero d = x
  get_or (x ∷ xs) (suc i) d = get_or xs i d

  -- The sum of a measure over the items.
  abbrev pub sum_of : (A → ℕ) → List A → ℕ
  sum_of f [] = 0
  sum_of f (x ∷ xs) = f x + sum_of f xs

  -- How many items pass a test.
  abbrev pub count : (A → Bool) → List A → ℕ
  count p = sum_of (λ x. if p x then 1 else 0)

  abbrev pub All {κ} : (A → Type κ) → List A → Type κ
  All P [] = Unit
  All P (x ∷ xs) = P x × All P xs

  pub length-append : (xs ys : List A) → length (xs ++ ys) ≡ length xs + length ys
  length-append [] ys = omega arith
  length-append (x ∷ xs) ys = omega (arith, length-append xs ys)

  pub sum_of-append : (f : A → ℕ) (xs ys : List A) → sum_of f (xs ++ ys) ≡ sum_of f xs + sum_of f ys
  sum_of-append f [] ys = omega arith
  sum_of-append f (x ∷ xs) ys = omega (arith, sum_of-append f xs ys)

  pub count-le-length : (p : A → Bool) (xs : List A) → count p xs ≤ length xs
  count-le-length p [] = omega arith
  count-le-length p (x ∷ xs) = ground (arith, count-le-length p xs)

  pub All-append {κ} : (P : A → Type κ) (xs ys : List A) → All P xs → All P ys → All P (xs ++ ys)
  All-append P [] ys hx hy = hy
  All-append P (x ∷ xs) ys hx hy = (hx.0, All-append P xs ys hx.1 hy)

  -- A write moves the sum by the difference of the two items.
  pub sum_of-set :
      (f : A → ℕ) (xs : List A) (i : ℕ) (x v : A)
      → get_elem? xs i ≡ some x
      → sum_of f (set xs i v) + f x ≡ sum_of f xs + f v
  sum_of-set f [] i x v h = ground arith
  sum_of-set f (y ∷ ys) zero x v h = ground arith
  sum_of-set f (y ∷ ys) (suc i) x v h = omega (arith, sum_of-set f ys i x v h)

  pub All-Mem {κ} :
      (P : A → Type κ)
      → ((a : A) → IsProp (P a))
      → (xs : List A) (x : A) → All P xs
      → Mem x xs
      → P x
  All-Mem P prop [] x h m = absurd (not-mem-nil m)
  All-Mem P prop (y ∷ ys) x h m =
      Or.elim (prop x) (mem-cons.0 m) (λ e. rw e h.0) (All-Mem P prop ys x h.1)

  pub get_elem?-mem : (xs : List A) (i : ℕ) (x : A) → get_elem? xs i ≡ some x → Mem x xs
  get_elem?-mem [] i x h = cc
  get_elem?-mem (y ∷ ys) zero x h = mem-cons.1 (Or.inl (ground arith))
  get_elem?-mem (y ∷ ys) (suc i) x h = mem-cons.1 (Or.inr (get_elem?-mem ys i x h))

  abbrev pub take : ℕ → List A → List A
  take zero xs = []
  take (suc n) [] = []
  take (suc n) (x ∷ xs) = x ∷ take n xs

  pub All-take-suc {κ} :
      (P : A → Type κ) (i : ℕ) (xs : List A) (x : A)
      → All P (take i xs)
      → get_elem? xs i ≡ some x
      → P x
      → All P (take (suc i) xs)
  All-take-suc P i [] x h e px = tt
  All-take-suc P zero (y ∷ ys) x h e px = (subst P (ground arith) px, tt)
  All-take-suc P (suc i) (y ∷ ys) x h e px = (h.0, All-take-suc P i ys x h.1 e px)

  pub All-take-All {κ} :
      (P : A → Type κ) (i : ℕ) (xs : List A) → length xs ≤ i → All P (take i xs) → All P xs
  All-take-All P i [] l h = tt
  All-take-All P zero (x ∷ xs) l h = absurd (omega arith)
  All-take-All P (suc i) (x ∷ xs) l h = (h.0, All-take-All P i xs (omega arith) h.1)

  pub get_elem?-none : (xs : List A) (i : ℕ) → get_elem? xs i ≡ none → length xs ≤ i
  get_elem?-none [] i h = omega arith
  get_elem?-none (x ∷ xs) zero h = cc
  get_elem?-none (x ∷ xs) (suc i) h = omega (arith, get_elem?-none xs i h)

  -- One item of a sum.
  pub part-le-sum_of :
      (f : A → ℕ) (xs : List A) (i : ℕ) (x : A) → get_elem? xs i ≡ some x → f x ≤ sum_of f xs
  part-le-sum_of f [] i x h = cc
  part-le-sum_of f (y ∷ ys) zero x h = ground arith
  part-le-sum_of f (y ∷ ys) (suc i) x h = omega (arith, part-le-sum_of f ys i x h)
