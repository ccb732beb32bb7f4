-- ===== src/Base/Lists.antt =====
-- Lists over the native numbers.
use Prim.Native.Nat.{ℕ, zero, suc, ◌+◌, ◌≤◌}
use Prim.Native.String
use Prim.Native.String.{String}
use mathlib.Core.Path.{◌≡◌, refl, ap, ◌∙◌}
use mathlib.Core.Bool.{Bool, false, ◌||◌}
use mathlib.Core.List.{List, [], ◌∷◌, ◌++◌}
use native.Mathlib.Omega.{arith}
use text.Mathlib.TextEquality.{eq_iff}
use unifi_mcp.Base.Tests.{str_eq, str_leb, if◌then◌else◌}

module _ {ℓ} {A : Type ℓ} where
  abbrev pub length : List A → ℕ
  length [] = 0
  length (x ∷ xs) = suc (length xs)

  abbrev pub take : ℕ → List A → List A
  take zero xs = []
  take (suc n) [] = []
  take (suc n) (x ∷ xs) = x ∷ take n xs

  pub length-append : (xs ys : List A) → length (xs ++ ys) ≡ length xs + length ys
  length-append [] ys = omega arith
  length-append (x ∷ xs) ys = omega (arith, length-append xs ys)

  pub append_nil : (xs : List A) → xs ++ [] ≡ xs
  append_nil [] = refl
  append_nil (x ∷ xs) = ap (λ ys. x ∷ ys) (append_nil xs)

  pub length-take-le : (n : ℕ) (xs : List A) → length (take n xs) ≤ n
  length-take-le zero xs = omega arith
  length-take-le (suc n) [] = omega arith
  length-take-le (suc n) (x ∷ xs) = omega (arith, length-take-le n xs)

  -- Every element satisfies `P`.
  abbrev pub All {κ} : (A → Type κ) → List A → Type κ
  All P [] = Unit
  All P (x ∷ xs) = P x × All P xs

  pub All-map {κ μ} :
      (P : A → Type κ) (Q : A → Type μ)
      → ((x : A) → P x → Q x)
      → (xs : List A) → All P xs
      → All Q xs
  All-map P Q f [] h = tt
  All-map P Q f (x ∷ xs) h = (f x h.0, All-map P Q f xs h.1)

  pub All-append {κ} : (P : A → Type κ) (xs ys : List A) → All P xs → All P ys → All P (xs ++ ys)
  All-append P [] ys h k = k
  All-append P (x ∷ xs) ys h k = (h.0, All-append P xs ys h.1 k)

  pub All-take {κ} : (P : A → Type κ) (n : ℕ) (xs : List A) → All P xs → All P (take n xs)
  All-take P zero xs h = tt
  All-take P (suc n) [] h = tt
  All-take P (suc n) (x ∷ xs) h = (h.0, All-take P n xs h.1)

-- `x in xs`, on texts.
abbrev pub elem : String → List String → Bool
elem k [] = false
elem k (x ∷ xs) = str_eq x k || elem k xs

-- sorted(set(xs))
abbrev pub insert_sorted : String → List String → List String
insert_sorted x [] = x ∷ []
insert_sorted x (y ∷ ys) =
    let rest = y ∷ insert_sorted x ys in
    if str_eq x y then y ∷ ys else if str_leb x y then x ∷ y ∷ ys else rest

abbrev pub sorted_set : List String → List String
sorted_set [] = []
sorted_set (x ∷ xs) = insert_sorted x (sorted_set xs)

All-insert_sorted {κ} :
    (P : String → Type κ) (x : String) (ys : List String)
    → P x
    → All P ys
    → All P (insert_sorted x ys)
All-insert_sorted P x [] h k = (h, tt)
All-insert_sorted P x (y ∷ ys) h k = ground (arith, h, k, All-insert_sorted P x ys h k.1)

pub All-sorted_set {κ} : (P : String → Type κ) (xs : List String) → All P xs → All P (sorted_set xs)
All-sorted_set P [] h = tt
All-sorted_set P (x ∷ xs) h = All-insert_sorted P x (sorted_set xs) h.0 (All-sorted_set P xs h.1)

length-insert_sorted : (x : String) (ys : List String) → 1 ≤ length (insert_sorted x ys)
length-insert_sorted x [] = omega arith
length-insert_sorted x (y ∷ ys) = ground arith

pub sorted_set-pos : (xs : List String) → 1 ≤ length xs → 1 ≤ length (sorted_set xs)
sorted_set-pos [] h = h
sorted_set-pos (x ∷ xs) h = length-insert_sorted x (sorted_set xs)

elem-insert_sorted :
    (k x : String) (ys : List String) → elem k (insert_sorted x ys) ≡ (str_eq x k || elem k ys)
elem-insert_sorted k x [] = refl
elem-insert_sorted k x (y ∷ ys) =
    ground (arith, eq_iff x y, eq_iff x k, eq_iff y k, elem-insert_sorted k x ys)

-- The same elements.
pub elem-sorted_set : (k : String) (xs : List String) → elem k (sorted_set xs) ≡ elem k xs
elem-sorted_set k [] = refl
elem-sorted_set k (x ∷ xs) =
    elem-insert_sorted k x (sorted_set xs) ∙ ap (λ b. str_eq x k || b) (elem-sorted_set k xs)

-- The parts of an f-string, one after another.
abbrev pub concat : List String → String
concat [] = ""
concat (s ∷ ss) = String.◌++◌ s (concat ss)
