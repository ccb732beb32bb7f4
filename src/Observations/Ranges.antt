-- ===== src/Observations/Ranges.antt =====
-- The index of a bucket and its time range.
use unifi_mcp.Base.{
  ℕ, ◌+◌, ◌-◌, ◌*◌, ◌/◌, ◌≤◌, ◌≡◌, refl, sym, inl, inr, Bool, true, ◌&&◌, List, [], ◌∷◌, arith, ltb,
  leb, All, ◌<◌, Bool-cases, ap, ◌∙◌, if◌then◌else◌, All-map,
}
use unifi_mcp.Base.Table.{count_where, All-order_by, All-select_where, All-any}
use native.Mathlib.Nat.{le-div_iff_mul-le}
use unifi_mcp.Observations.{Row, Query, width, index_of, has_sample, selected, selects, sooner}

-- The row has a sample, and its bucket is one of `count` from `index` on.
abbrev pub falls : Query → (index count : ℕ) → Row → Bool
falls q index count r =
    has_sample q r && (leb index (index_of q r) && ltb (index_of q r) (index + count))

-- The row has a sample that was observed from one time on and before the other.
abbrev pub observed : Query → (from until : ℕ) → Row → Bool
observed q from until r =
    has_sample q r && (leb from r.observation.observed_at && ltb r.observation.observed_at until)

abbrev pub Started : Query → Row → Type 0
Started q r = q.start ≤ r.observation.observed_at

leb-shift : (a b c d : ℕ) → (a ≤ b → c ≤ d) → (c ≤ d → a ≤ b) → leb a b ≡ leb c d
leb-shift a b c d f g = elim (Bool-cases (leb a b)) [
  | inl low ↦ elim (Bool-cases (leb c d)) [
    | inl low' ↦ low ∙ sym low'
    | inr high' ↦ let k : c ≤ d = f (ground (arith, low)) in absurd (ground (arith, k, high'))
  ]
  | inr high ↦ elim (Bool-cases (leb c d)) [
    | inl low' ↦ let k : a ≤ b = g (ground (arith, low')) in absurd (ground (arith, k, high))
    | inr high' ↦ high ∙ sym high'
  ]
]

-- The index of a bucket is at least `i` from the start of the i-th bucket on.
index-le : (w start t i : ℕ) → 0 < w → start ≤ t → leb i ((t - start) / w) ≡ leb (start + i * w) t
index-le w start t i positive later =
    leb-shift i ((t - start) / w) (start + i * w) t
      (λ h. omega (arith, later, (le-div_iff_mul-le positive).0 h))
      (λ h. (le-div_iff_mul-le positive).1 (omega (arith, later, h)))

pub falls-observed :
    (q : Query) (i n : ℕ) (r : Row)
    → 0 < width q
    → Started q r
    → falls q i n r ≡ observed q (q.start + i * width q) (q.start + (i + n) * width q) r
falls-observed q i n r positive later =
    let t = r.observation.observed_at in
    let low = index-le (width q) q.start t i positive later in
    let high = index-le (width q) q.start t (i + n) positive later in ground (arith, low, high)

pub count_where-same :
    {A : Type 0} (p q : A → Bool) (xs : List A)
    → All (λ x. p x ≡ q x) xs
    → count_where p xs ≡ count_where q xs
unfolding count_where
count_where-same p q [] h = refl
count_where-same p q (x ∷ xs) h =
    rw h.0 (ap (λ n. (if q x then 1 else 0) + n) (count_where-same p q xs h.1))

pub selected-Started : (q : Query) (table : List Row) → All (Started q) (selected q table)
unfolding selected selects
selected-Started q table = All-order_by (Started q) sooner _ (
    All-map _ _ (λ r h. selects-Started r h.0) _
      (All-select_where (λ r. Unit {0}) (selects q) table (All-any table)))
  where
    selects-Started : (r : Row) → selects q r ≡ true → Started q r
    selects-Started r h = ground arith
