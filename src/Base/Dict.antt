-- ===== src/Base/Dict.antt =====
-- Dictionaries with texts as keys, as association lists in insertion order.
use Prim.Native.String.{String}
use mathlib.Core.Path.{◌≡◌, refl, ◌∙◌}
use mathlib.Core.Bool.{Bool, true, false, ◌||◌}
use mathlib.Core.Option.{Option, none, some}
use mathlib.Core.List.{List, [], ◌∷◌}
use native.Mathlib.Omega.{arith}
use text.Mathlib.TextEquality.{eq_iff}
use unifi_mcp.Base.Tests.{str_eq, if◌then◌else◌}

module _ {ℓ} {A : Type ℓ} where
  -- d.get(key)
  unfoldable pub get_item : String → List (String × A) → Option A
  get_item key [] = none
  get_item key ((k, v) ∷ d) = if str_eq k key then some v else get_item key d

  -- key in d
  unfoldable pub has_key : String → List (String × A) → Bool
  has_key key [] = false
  has_key key ((k, v) ∷ d) = str_eq k key || has_key key d

  -- d[key] = value
  unfoldable pub set_item : String → A → List (String × A) → List (String × A)
  set_item key value [] = (key, value) ∷ []
  set_item key value ((k, v) ∷ d) =
      let rest = set_item key value d in if str_eq k key then (k, value) ∷ d else (k, v) ∷ rest

  -- d.update(more)
  unfoldable pub update : List (String × A) → List (String × A) → List (String × A)
  unfolding set_item
  update d [] = d
  update d ((k, v) ∷ more) = update (set_item k v d) more

  -- set(d) & set(other)
  unfoldable pub overlaps : List (String × A) → List (String × A) → Bool
  unfolding has_key
  overlaps d [] = false
  overlaps d ((k, v) ∷ other) = has_key k d || overlaps d other

  pub get_item-set_item :
      (key : String) (value : A) (k : String) (d : List (String × A))
      → get_item k (set_item key value d) ≡ (if str_eq key k then some value else get_item k d)
  unfolding get_item set_item
  get_item-set_item key value k [] = refl
  get_item-set_item key value k ((j, old) ∷ d) =
      ground (arith, eq_iff j key, eq_iff j k, eq_iff key k, get_item-set_item key value k d)

  pub has_key-set_item :
      (key : String) (value : A) (k : String) (d : List (String × A))
      → has_key k (set_item key value d) ≡ (str_eq key k || has_key k d)
  unfolding has_key set_item
  has_key-set_item key value k [] = refl
  has_key-set_item key value k ((j, old) ∷ d) =
      ground (arith, eq_iff j key, eq_iff j k, eq_iff key k, has_key-set_item key value k d)

  pub has_key-update :
      (k : String) (d more : List (String × A))
      → has_key k (update d more) ≡ (has_key k d || has_key k more)
  unfolding update has_key
  has_key-update k d [] = ground arith
  has_key-update k d ((j, v) ∷ more) =
      ground (arith, has_key-update k (set_item j v d) more, has_key-set_item j v k d)

  -- An update keeps what it does not name.
  pub get_item-update_other :
      (k : String) (d more : List (String × A))
      → has_key k more ≡ false
      → get_item k (update d more) ≡ get_item k d
  unfolding update has_key
  get_item-update_other k d [] h = refl
  get_item-update_other k d ((j, v) ∷ more) h =
      get_item-update_other k (set_item j v d) more (ground (arith, h))
      ∙ ground (arith, h, get_item-set_item j v k d)

  -- A key of the one is no key of the other, if they do not overlap.
  pub overlaps-key :
      (k : String) (d other : List (String × A))
      → overlaps d other ≡ false
      → has_key k d ≡ true
      → has_key k other ≡ false
  unfolding overlaps has_key
  overlaps-key k d [] h held = refl
  overlaps-key k d ((j, v) ∷ other) h held =
      ground (arith, h, held, eq_iff j k, overlaps-key k d other)
