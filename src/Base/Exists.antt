-- ===== src/Base/Exists.antt =====
-- Lists one of whose elements is such, beside those all of whose are.
use Prim.Native.Nat.{ℕ}
use mathlib.Core.Path.{◌≡◌}
use mathlib.Core.Logic.{◌⊎◌, inl, inr}
use mathlib.Core.Bool.{Bool, true, false}
use mathlib.Core.List.{List, [], ◌∷◌, map}
use estoque_saas.Base.Tests.{Bool-cases}
use estoque_saas.Base.Lists.{All, select, any}

module _ {A : Type 0} where
  -- One of the elements is such.
  abbrev pub Some : (A → Type 0) → List A → Type 0
  Some P [] = ⊥
  Some P (x ∷ xs) = P x ⊎ Some P xs

  pub Some-map : (P Q : A → Type 0) (xs : List A) → ((x : A) → P x → Q x) → Some P xs → Some Q xs
  Some-map P Q [] f s = s
  Some-map P Q (x ∷ xs) f (inl p) = inl (f x p)
  Some-map P Q (x ∷ xs) f (inr s) = inr (Some-map P Q xs f s)

  pub All-map : (P Q : A → Type 0) (xs : List A) → ((x : A) → P x → Q x) → All P xs → All Q xs
  All-map P Q [] f a = tt
  All-map P Q (x ∷ xs) f a = (f x a.0, All-map P Q xs f a.1)

  pub All-every : (P : A → Type 0) (xs : List A) → ((x : A) → P x) → All P xs
  All-every P [] f = tt
  All-every P (x ∷ xs) f = (f x, All-every P xs f)

  pub All-both : (P Q : A → Type 0) (xs : List A) → All P xs → All Q xs → All (λ x. P x × Q x) xs
  All-both P Q [] a b = tt
  All-both P Q (x ∷ xs) a b = ((a.0, b.0), All-both P Q xs a.1 b.1)

  pub Some-both : (P Q : A → Type 0) (xs : List A) → All P xs → Some Q xs → Some (λ x. P x × Q x) xs
  Some-both P Q [] a s = s
  Some-both P Q (x ∷ xs) a (inl q) = inl (a.0, q)
  Some-both P Q (x ∷ xs) a (inr s) = inr (Some-both P Q xs a.1 s)

  pub Some-any : (p : A → Bool) (xs : List A) → any p xs ≡ true → Some (λ x. p x ≡ true) xs
  Some-any p [] h = cc
  Some-any p (x ∷ xs) h = elim (Bool-cases (p x)) [
    | inl e ↦ inl e
    | inr e ↦ inr (Some-any p xs (rw e at h))
  ]

  pub All-any : (p : A → Bool) (xs : List A) → any p xs ≡ false → All (λ x. p x ≡ false) xs
  All-any p [] h = tt
  All-any p (x ∷ xs) h = elim (Bool-cases (p x)) [
    | inl e ↦ cc (rw e at h)
    | inr e ↦ (e, All-any p xs (rw e at h))
  ]

module _ {A : Type 0} (id : A → ℕ) (test : A → Bool) where
  pub All-select :
      (P : ℕ → Type 0) (xs : List A)
      → All P (map id (select test xs))
      → All (λ x. test x ≡ true → P (id x)) xs
  All-select P [] a = tt
  All-select P (x ∷ xs) a = elim (Bool-cases (test x)) [
    | inl e ↦ let b = (rw e at a) in (λ h. b.0, All-select P xs b.1)
    | inr e ↦ ((λ h. cc), All-select P xs (rw e at a))
  ]

  pub Some-select :
      (r : ℕ) (xs : List A)
      → Some (λ (i : ℕ). i ≡ r) (map id (select test xs))
      → Some (λ x. (id x ≡ r) × (test x ≡ true)) xs
  Some-select r [] s = s
  Some-select r (x ∷ xs) s = elim (Bool-cases (test x)) [
    | inl e ↦ elim (rw e at s) [ inl h ↦ inl (h, e) | inr h ↦ inr (Some-select r xs h) ]
    | inr e ↦ inr (Some-select r xs (rw e at s))
  ]
