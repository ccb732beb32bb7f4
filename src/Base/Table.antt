-- ===== src/Base/Table.antt =====
-- SQL tables as lists of rows in rowid order, and the statements that the repositories issue.
use Prim.Native.Nat.{ℕ, ◌+◌}
use Prim.Native.String.{String}
use mathlib.Core.Path.{◌≡◌, refl, sym, ap, ◌∙◌}
use Prim.Native.Nat.{◌<◌, ◌≤◌}
use mathlib.Core.Logic.{inl, inr}
use mathlib.Core.Bool.{Bool, true, false, ◌||◌}
use mathlib.Core.Option.{Option, none, some}
use mathlib.Core.List.{List, [], ◌∷◌, ◌++◌}
use native.Mathlib.Omega.{arith}
use unifi_mcp.Base.Tests.{if◌then◌else◌, Bool-cases, str_eq}
use unifi_mcp.Base.Lists.{length, All, elem, append_nil}

module _ {ℓ} {A : Type ℓ} where
  -- SELECT … WHERE
  unfoldable pub select_where : (A → Bool) → List A → List A
  select_where p [] = []
  select_where p (x ∷ xs) = let rest = select_where p xs in if p x then x ∷ rest else rest

  -- UPDATE … SET f WHERE p
  unfoldable pub update_where : (A → Bool) → (A → A) → List A → List A
  update_where p f [] = []
  update_where p f (x ∷ xs) = (if p x then f x else x) ∷ update_where p f xs

  -- DELETE … WHERE
  unfoldable pub delete_where : (A → Bool) → List A → List A
  delete_where p [] = []
  delete_where p (x ∷ xs) = let rest = delete_where p xs in if p x then rest else x ∷ rest

  -- The `rowcount` of such a statement, and SELECT COUNT(*).
  unfoldable pub count_where : (A → Bool) → List A → ℕ
  count_where p [] = 0
  count_where p (x ∷ xs) = (if p x then 1 else 0) + count_where p xs

  -- The first row, as `fetchone` gives it.
  unfoldable pub find_where : (A → Bool) → List A → Option A
  find_where p [] = none
  find_where p (x ∷ xs) = if p x then some x else find_where p xs

  -- ORDER BY, by a test that says whether a row may stand before another.
  unfoldable pub insert_by : (A → A → Bool) → A → List A → List A
  insert_by le x [] = x ∷ []
  insert_by le x (y ∷ ys) = if le x y then x ∷ y ∷ ys else y ∷ insert_by le x ys

  unfoldable pub order_by : (A → A → Bool) → List A → List A
  unfolding insert_by
  order_by le [] = []
  order_by le (x ∷ xs) = insert_by le x (order_by le xs)

  pub All-select_where {κ} :
      (P : A → Type κ) (p : A → Bool) (xs : List A)
      → All P xs
      → All (λ x. (p x ≡ true) × P x) (select_where p xs)
  unfolding select_where
  All-select_where P p [] h = tt
  All-select_where P p (x ∷ xs) h = ground (arith, All-select_where P p xs h.1)

  pub All-update_where {κ} :
      (P Q : A → Type κ) (p : A → Bool) (f : A → A)
      → ((x : A) → p x ≡ true → P x → Q (f x))
      → ((x : A) → p x ≡ false → P x → Q x)
      → (xs : List A) → All P xs
      → All Q (update_where p f xs)
  unfolding update_where
  All-update_where P Q p f hit miss [] h = tt
  All-update_where P Q p f hit miss (x ∷ xs) h =
      ground (arith, hit x, miss x, h.0, All-update_where P Q p f hit miss xs h.1)

  pub All-insert_by {κ} :
      (P : A → Type κ) (le : A → A → Bool) (x : A) (xs : List A)
      → P x
      → All P xs
      → All P (insert_by le x xs)
  unfolding insert_by
  All-insert_by P le x [] hx h = (hx, tt)
  All-insert_by P le x (y ∷ ys) hx h = ground (arith, hx, h, All-insert_by P le x ys hx h.1)

  pub All-order_by {κ} :
      (P : A → Type κ) (le : A → A → Bool) (xs : List A) → All P xs → All P (order_by le xs)
  unfolding order_by
  All-order_by P le [] h = tt
  All-order_by P le (x ∷ xs) h =
      All-insert_by P le x (order_by le xs) h.0 (All-order_by P le xs h.1)

  pub length-update_where :
      (p : A → Bool) (f : A → A) (xs : List A) → length (update_where p f xs) ≡ length xs
  unfolding update_where
  length-update_where p f [] = refl
  length-update_where p f (x ∷ xs) = omega (arith, length-update_where p f xs)

  -- Two updates that set the same, the second of which does not look at what is set.
  pub update_where-update_where :
      (p q : A → Bool) (f : A → A)
      → ((x : A) → f (f x) ≡ f x)
      → ((x : A) → q (f x) ≡ q x)
      → (xs : List A) → update_where q f (update_where p f xs) ≡ update_where (λ x. p x || q x) f xs
  unfolding update_where
  update_where-update_where p q f idem blind [] = refl
  update_where-update_where p q f idem blind (x ∷ xs) =
      ground (arith, idem x, blind x, update_where-update_where p q f idem blind xs)

  pub update_where-none : (f : A → A) (xs : List A) → update_where (λ x. false) f xs ≡ xs
  unfolding update_where
  update_where-none f [] = refl
  update_where-none f (x ∷ xs) = ap (λ ys. x ∷ ys) (update_where-none f xs)

  pub length-select_where :
      (p : A → Bool) (xs : List A) → length (select_where p xs) ≡ count_where p xs
  unfolding select_where count_where
  length-select_where p [] = refl
  length-select_where p (x ∷ xs) = ground (arith, length-select_where p xs)

  pub select_where-append :
      (p : A → Bool) (xs ys : List A)
      → select_where p (xs ++ ys) ≡ select_where p xs ++ select_where p ys
  unfolding select_where
  select_where-append p [] ys = refl
  select_where-append p (x ∷ xs) ys = ground (arith, select_where-append p xs ys)

  -- A condition that no row satisfies selects none.
  pub select_where-miss :
      (p : A → Bool) (xs : List A) → All (λ x. p x ≡ false) xs → select_where p xs ≡ []
  unfolding select_where
  select_where-miss p [] h = refl
  select_where-miss p (x ∷ xs) h = ground (arith, h, select_where-miss p xs h.1)

  -- One that all satisfy selects all.
  pub select_where-hit :
      (p : A → Bool) (xs : List A) → All (λ x. p x ≡ true) xs → select_where p xs ≡ xs
  unfolding select_where
  select_where-hit p [] h = refl
  select_where-hit p (x ∷ xs) h = ground (arith, h, select_where-hit p xs h.1)

  -- What is deleted is not selected, and a selection that is apart from it is not changed.
  pub select_where-delete_self :
      (p : A → Bool) (xs : List A) → select_where p (delete_where p xs) ≡ []
  unfolding select_where delete_where
  select_where-delete_self p [] = refl
  select_where-delete_self p (x ∷ xs) = ground (arith, select_where-delete_self p xs)

  pub select_where-delete_other :
      (p q : A → Bool)
      → ((x : A) → q x ≡ true → p x ≡ false)
      → (xs : List A) → select_where p (delete_where q xs) ≡ select_where p xs
  unfolding select_where delete_where
  select_where-delete_other p q apart [] = refl
  select_where-delete_other p q apart (x ∷ xs) =
      ground (arith, apart x, select_where-delete_other p q apart xs)

  -- Rows that are deleted and written anew: what was written is selected, and a selection that is apart
  -- from both is not changed.
  pub select_where-replaced_own :
      (p : A → Bool) (xs ys : List A)
      → All (λ y. p y ≡ true) ys
      → select_where p (delete_where p xs ++ ys) ≡ ys
  select_where-replaced_own p xs ys own =
      select_where-append p (delete_where p xs) ys
      ∙ (ap (λ l. l ++ select_where p ys) (select_where-delete_self p xs)
          ∙ select_where-hit p ys own)

  pub select_where-replaced_other :
      (p q : A → Bool) (xs ys : List A)
      → ((x : A) → q x ≡ true → p x ≡ false)
      → All (λ y. p y ≡ false) ys
      → select_where p (delete_where q xs ++ ys) ≡ select_where p xs
  select_where-replaced_other p q xs ys apart other =
      select_where-append p (delete_where q xs) ys
      ∙ (ap (λ l. select_where p (delete_where q xs) ++ l) (select_where-miss p ys other)
          ∙ (append_nil (select_where p (delete_where q xs))
              ∙ select_where-delete_other p q apart xs))

  pub All-delete_where {κ} :
      (P : A → Type κ) (p : A → Bool) (xs : List A)
      → All P xs
      → All (λ x. (p x ≡ false) × P x) (delete_where p xs)
  unfolding delete_where
  All-delete_where P p [] h = tt
  All-delete_where P p (x ∷ xs) h = ground (arith, h, All-delete_where P p xs h.1)

  pub count_where-append :
      (p : A → Bool) (xs ys : List A)
      → count_where p (xs ++ ys) ≡ count_where p xs + count_where p ys
  unfolding count_where
  count_where-append p [] ys = omega arith
  count_where-append p (x ∷ xs) ys = omega (arith, count_where-append p xs ys)

  pub count_where_mono :
      (p q : A → Bool)
      → ((x : A) → p x ≡ true → q x ≡ true)
      → (xs : List A) → count_where p xs ≤ count_where q xs
  unfolding count_where
  count_where_mono p q h [] = omega arith
  count_where_mono p q h (x ∷ xs) = ground (arith, h x, count_where_mono p q h xs)

  pub find_where-append_none :
      (p : A → Bool) (xs ys : List A)
      → count_where p xs ≡ 0
      → find_where p (xs ++ ys) ≡ find_where p ys
  unfolding find_where count_where
  find_where-append_none p [] ys h = refl
  find_where-append_none p (x ∷ xs) ys h = ground (arith, find_where-append_none p xs ys)

  pub find_where-append_miss :
      (p : A → Bool) (xs : List A) (y : A)
      → p y ≡ false
      → find_where p (xs ++ y ∷ []) ≡ find_where p xs
  unfolding find_where
  find_where-append_miss p [] y h = ground (arith, h)
  find_where-append_miss p (x ∷ xs) y h = ground (arith, find_where-append_miss p xs y h)

  -- A row that an update misses is found as before.
  pub find_where-update_miss :
      (p q : A → Bool) (f : A → A)
      → ((x : A) → q (f x) ≡ q x)
      → ((x : A) → q x ≡ true → p x ≡ false)
      → (xs : List A) → find_where q (update_where p f xs) ≡ find_where q xs
  unfolding find_where update_where
  find_where-update_miss p q f blind apart [] = refl
  find_where-update_miss p q f blind apart (x ∷ xs) =
      ground (arith, blind x, apart x, find_where-update_miss p q f blind apart xs)

  -- The first row that an update hits is found updated.
  pub find_where-update_hit :
      (p : A → Bool) (f : A → A)
      → ((x : A) → p (f x) ≡ p x)
      → (xs : List A) → 0 < count_where p xs
      → (x : A) × (find_where p xs ≡ some x) × (find_where p (update_where p f xs) ≡ some (f x))
  unfolding find_where update_where count_where
  find_where-update_hit p f blind [] h = absurd (omega arith)
  find_where-update_hit p f blind (x ∷ xs) h = elim (Bool-cases (p x)) [
    | inl hit ↦ (x, ground arith, ground (arith, blind x))
    | inr miss ↦
        let (y, found, updated) = find_where-update_hit p f blind xs (ground arith) in
        (y, ground (arith, found), ground (arith, updated, blind x))
  ]

-- `for row in rows: UPDATE … WHERE id = row.id`
module _ {ℓ} {A : Type ℓ} (key : A → String) (f : A → A) where
  unfoldable pub update_each : List String → List A → List A
  update_each [] table = table
  update_each (i ∷ is) table = update_each is (update_where (λ x. str_eq i (key x)) f table)

  pub update_each-eq-update_where :
      ((x : A) → f (f x) ≡ f x)
      → ((x : A) → key (f x) ≡ key x)
      → (is : List String) (table : List A)
      → update_each is table ≡ update_where (λ x. elem (key x) is) f table
  unfolding update_each
  update_each-eq-update_where idem blind [] table = sym (update_where-none f table)
  update_each-eq-update_where idem blind (i ∷ is) table =
      update_each-eq-update_where idem blind is (update_where (λ x. str_eq i (key x)) f table)
      ∙ update_where-update_where (λ x. str_eq i (key x)) (λ x. elem (key x) is) f idem
          (λ x. ap (λ k. elem k is) (blind x)) table

module _ {ℓ} {A : Type ℓ} where
  pub All-any : (xs : List A) → All (λ x. Unit {0}) xs
  All-any [] = tt
  All-any (x ∷ xs) = (tt, All-any xs)
