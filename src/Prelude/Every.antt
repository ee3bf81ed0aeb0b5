-- ===== src/Prelude/Every.antt =====
-- Tests that every element of a list passes, through permutations, prefixes, filters and maps.
use mathlib.Core.List.{Perm, Permᴰ}
use mathlib.Core.Path.{◌≡◌, refl, ◌∙◌}
use mathlib.Core.Logic.{∥∥₁_elim}
use mathlib.Core.Bool.{Bool, true, ◌&&◌, Bool-set}
use mathlib.Core.List.{List, [], ◌∷◌, map}
use Prim.Native.Nat.{ℕ, zero, suc}
use native.Mathlib.Omega.{arith}
use go_blueprint.Prelude.Lists.{take, select, contains}

-- A property of every element, as a test: a proposition, so that it goes through a permutation.
abbrev pub all {ℓ} : {A : Type ℓ} → (A → Bool) → List A → Bool
all p [] = true
all p (x ∷ xs) = p x && all p xs

and_swap : (a b c : Bool) → (a && (b && c)) ≡ (b && (a && c))
and_swap a b c = ground arith

pub all-true {ℓ} : {A : Type ℓ} (xs : List A) → all (λ x. true) xs ≡ true
all-true [] = refl
all-true (x ∷ xs) = all-true xs

module _ {A : Type 0} (p : A → Bool) where
  pub all-Permᴰ : {xs ys : List A} → Permᴰ xs ys → all p xs ≡ all p ys
  all-Permᴰ Permᴰ.nil = refl
  all-Permᴰ (Permᴰ.cons e d) = cc (all-Permᴰ d)
  all-Permᴰ (Permᴰ.swap {a} {b} {a'} {b'} {l} e f) = rw (e, f) (and_swap (p b') (p a') (all p l))
  all-Permᴰ (Permᴰ.trans c d) = all-Permᴰ c ∙ all-Permᴰ d

  pub all-Perm : {xs ys : List A} → Perm xs ys → all p xs ≡ all p ys
  all-Perm d = ∥∥₁_elim d (Bool-set _ _) all-Permᴰ

  pub all-take : (n : ℕ) (xs : List A) → all p xs ≡ true → all p (take n xs) ≡ true
  all-take zero xs h = refl
  all-take (suc n) [] h = refl
  all-take (suc n) (x ∷ xs) h = ground (arith, all-take n xs)

  pub all_mono :
      (q : A → Bool) (xs : List A)
      → ((x : A) → q x ≡ true → p x ≡ true)
      → all q xs ≡ true
      → all p xs ≡ true
  all_mono q [] f h = refl
  all_mono q (x ∷ xs) f h = ground (arith, f x, all_mono q xs f)

  -- What every element has that is in the list and passes the test.
  pub all-select :
      (known q : A → Bool) (xs : List A)
      → ((x : A) → known x ≡ true → q x ≡ true → p x ≡ true)
      → all known xs ≡ true
      → all p (select q xs) ≡ true
  all-select known q [] f h = refl
  all-select known q (x ∷ xs) f h = ground (arith, f x, all-select known q xs f)

  pub all-map : {B : Type 0} (f : B → A) (xs : List B) → all p (map f xs) ≡ all (λ x. p (f x)) xs
  all-map f [] = refl
  all-map f (x ∷ xs) = rw (all-map f xs)

pub all-contains :
    (p : ℕ → Bool) (i : ℕ) (is : List ℕ) → all p is ≡ true → contains i is ≡ true → p i ≡ true
all-contains p i [] h c = ground arith
all-contains p i (j ∷ is) h c = ground (arith, all-contains p i is)
