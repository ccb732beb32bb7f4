-- ===== src/NetworkClient/Merged.antt =====
-- clients/network.py: the override that `update_device_ports` writes for each port.
use unifi_mcp.Base.{
  ℕ, ◌≡◌, refl, sym, ap, subst, ◌∙◌, inl, inr, Bool, true, false, not, ◌&&◌, Option, none, some,
  List, [], ◌∷◌, arith, eq_iff, ◌==◌, if◌then◌else◌, Bool-cases, and-true, or-false, raise_if-ok,
  eqb→eq, if-true, if-false, Result, ok, err, bind-ok, length,
}
use unifi_mcp.Base.Table.{find_where}
use unifi_mcp.Base.Json.{arr, nil, Fields, truthy, get_or}
use unifi_mcp.Exceptions.{Raised}
use unifi_mcp.NetworkClient.Merge.{
  Key, absent, whole, below, words, decimal, same_key, is_absent, Indexed, has_index,
  has_duplicates, positioned, patch, writable, new_override, no_such_port, merge_change,
  merge_changes, with_index, refusal, entries, port_table_of, merged_overrides, all_indexed, Record,
}

same_key-eq : (a b : Key) → same_key a b ≡ true → a ≡ b
same_key-eq absent absent h = refl
same_key-eq absent (whole y) h = cc
same_key-eq absent (below y) h = cc
same_key-eq absent (words y) h = cc
same_key-eq absent (decimal y) h = cc
same_key-eq (whole x) absent h = cc
same_key-eq (whole x) (whole y) h = ap whole (eqb→eq x y h)
same_key-eq (whole x) (below y) h = cc
same_key-eq (whole x) (words y) h = cc
same_key-eq (whole x) (decimal y) h = cc
same_key-eq (below x) absent h = cc
same_key-eq (below x) (whole y) h = cc
same_key-eq (below x) (below y) h = ap below (eqb→eq x y h)
same_key-eq (below x) (words y) h = cc
same_key-eq (below x) (decimal y) h = cc
same_key-eq (words x) absent h = cc
same_key-eq (words x) (whole y) h = cc
same_key-eq (words x) (below y) h = cc
same_key-eq (words x) (words y) h = ap words (ground (arith, h, eq_iff x y))
same_key-eq (words x) (decimal y) h = cc
same_key-eq (decimal x) absent h = cc
same_key-eq (decimal x) (whole y) h = cc
same_key-eq (decimal x) (below y) h = cc
same_key-eq (decimal x) (words y) h = cc
same_key-eq (decimal x) (decimal y) h = ap decimal (ground (arith, h, eq_iff x y))

same_key_refl : (a : Key) → same_key a a ≡ true
same_key_refl absent = refl
same_key_refl (whole n) = ground arith
same_key_refl (below n) = ground arith
same_key_refl (words s) = ground (arith, eq_iff s s)
same_key_refl (decimal s) = ground (arith, eq_iff s s)

-- The override of a port, and the change that a request has for it.
abbrev pub override_at : Key → List Indexed → Option Indexed
override_at k os = find_where (positioned k) os

abbrev pub change_for : Key → List Indexed → Option Indexed
change_for k cs = find_where (λ c. same_key c.key k) cs

abbrev pub changed : Indexed → Option Indexed → Option Indexed
changed c none = some (new_override c)
changed c (some o) = some (patch c o)

-- The override of a port after its change, if there is one that has a field besides the index.
abbrev pub expected : Option Indexed → Option Indexed → Option Indexed
expected none o = o
expected (some c) o = if length (writable c.entry) == 0 then o else changed c o

merge_change_own :
    (c : Indexed) (os : List Indexed)
    → is_absent c.key ≡ false
    → override_at c.key (merge_change c os) ≡ changed c (override_at c.key os)
unfolding merge_change find_where new_override
merge_change_own c [] present = rw (present, same_key_refl c.key) refl
merge_change_own c (o ∷ os) present = elim (Bool-cases (positioned c.key o)) [
  | inl yes_o ↦ rw (yes_o, find_where) (if-true (positioned c.key o) _ _ yes_o)
  | inr no_o ↦
      rw (no_o, find_where) (if-false (positioned c.key o) _ _ no_o ∙ merge_change_own c os present)
]

merge_change_hit :
    (k : Key) (c : Indexed) (os : List Indexed)
    → is_absent k ≡ false
    → same_key c.key k ≡ true
    → override_at k (merge_change c os) ≡ changed c (override_at k os)
merge_change_hit k c os present same =
    let eq = same_key-eq c.key k same in
    subst (λ j. override_at j (merge_change c os) ≡ changed c (override_at j os)) eq
      (merge_change_own c os (subst (λ j. is_absent j ≡ false) (sym eq) present))

and_false : (t u : Bool) → u ≡ false → (t && u) ≡ false
and_false true u h = h
and_false false u h = refl

-- An override that takes one change is not the one of another port.
apart :
    (k : Key) (c o : Indexed)
    → same_key c.key k ≡ false
    → positioned c.key o ≡ true
    → positioned k o ≡ false
apart k c o differ at_c =
    let (_, same) = and-true (not (is_absent o.key)) (same_key o.key c.key) at_c in
    let eq = same_key-eq o.key c.key same in
    and_false (not (is_absent o.key)) _ (subst (λ j. same_key j k ≡ false) (sym eq) differ)

merge_change_miss :
    (k : Key) (c : Indexed) (os : List Indexed)
    → same_key c.key k ≡ false
    → override_at k (merge_change c os) ≡ override_at k os
unfolding merge_change find_where new_override
merge_change_miss k c [] differ =
    if-false (positioned k (new_override c)) _ _ (and_false (not (is_absent c.key)) _ differ)
merge_change_miss k c (o ∷ os) differ = elim (Bool-cases (positioned c.key o)) [
  | inl yes_o ↦
      let no_k = apart k c o differ yes_o in
      rw (yes_o, find_where)
        (if-false (positioned k o) _ _ no_k ∙ sym (if-false (positioned k o) _ _ no_k))
  | inr no_o ↦
      rw (no_o, find_where)
        (ap (λ x. if positioned k o then some o else x) (merge_change_miss k c os differ))
]

no_change :
    (k : Key) (c : Indexed) (cs : List Indexed)
    → same_key c.key k ≡ true
    → has_index c.key cs ≡ false
    → change_for k cs ≡ none
unfolding find_where has_index
no_change k c [] same fresh = refl
no_change k c (d ∷ cs) same fresh =
    let (differs, more) = or-false (same_key d.key c.key) (has_index c.key cs) fresh in
    let other = subst (λ j. same_key d.key j ≡ false) (same_key-eq c.key k same) differs in
    if-false (same_key d.key k) _ _ other ∙ no_change k c cs same more

own_step :
    (t : Bool) (k : Key) (c : Indexed) (os : List Indexed)
    → is_absent k ≡ false
    → same_key c.key k ≡ true
    → override_at k (if t then os else merge_change c os)
      ≡ (if t then override_at k os else changed c (override_at k os))
own_step true k c os present same = refl
own_step false k c os present same = merge_change_hit k c os present same

other_step :
    (t : Bool) (k : Key) (c : Indexed) (os : List Indexed)
    → same_key c.key k ≡ false
    → override_at k (if t then os else merge_change c os) ≡ override_at k os
other_step true k c os differ = refl
other_step false k c os differ = merge_change_miss k c os differ

-- A loop over changes of different ports leaves each port with the override that its own change makes.
pub merge_changes-expected :
    (valid cs os : List Indexed) (n : ℕ) (k : Key) {merged : List Indexed} {m : ℕ}
    → merge_changes valid cs os n ≡ ok (merged, m)
    → has_duplicates cs ≡ false
    → is_absent k ≡ false
    → override_at k merged ≡ expected (change_for k cs) (override_at k os)
unfolding merge_changes has_duplicates find_where
merge_changes-expected valid [] os n k h distinct present = ap (override_at k) (sym (ap list_of h))
  where
    list_of : Result Raised (List Indexed × ℕ) → List Indexed
    list_of (ok (is, m)) = is
    list_of (err e) = []
merge_changes-expected valid (c ∷ cs) os n k h distinct present =
    let (_, h1) = raise_if-ok (not (has_index c.key valid)) no_such_port _ h in
    let (fresh, more) = or-false (has_index c.key cs) (has_duplicates cs) distinct in
    let ih = merge_changes-expected valid cs _ _ k h1 more present in
    elim (Bool-cases (same_key c.key k)) [
      | inl same ↦
          let none_left = no_change k c cs same fresh in
          ih ∙ rw (none_left, same) (own_step (length (writable c.entry) == 0) k c os present same)
      | inr differ ↦
          ih
          ∙ rw differ (
              ap (expected (change_for k cs))
                (other_step (length (writable c.entry) == 0) k c os differ))
    ]

-- The overrides that a port update writes: the override of each port index is the one that the device
-- has, with the fields of the change that the request has for the port, if any; a port without an
-- override gets one with just those fields, and a port that the request does not name keeps its own.
pub merged_overrides-expected :
    (device : Fields) (ports : List Record) (k : Key) (merged : List Indexed)
    → merged_overrides device ports ≡ ok merged
    → is_absent k ≡ false
    → (overrides : List Indexed) × (changes : List Indexed) × (entries
          (get_or "port_overrides" (arr nil) device)
          (refusal "Device port overrides are not a writable collection")
        ≡ ok overrides)
      × (all_indexed ports ≡ ok changes)
      × (override_at k merged ≡ expected (change_for k changes) (override_at k overrides))
unfolding merged_overrides
merged_overrides-expected device ports k merged h present =
    let (_, h1) = raise_if-ok (not (truthy (port_table_of device))) _ _ h in
    let (valid, _, h2) = bind-ok (entries (port_table_of device) _) _ h1 in
    let (overrides, h_overrides, h3) =
      bind-ok (entries (get_or "port_overrides" (arr nil) device) _) _ h2 in
    let (_, h4) = raise_if-ok (has_duplicates (with_index overrides)) _ _ h3 in
    let (changes, h_changes, h5) = bind-ok (all_indexed ports) _ h4 in
    let (distinct, h6) = raise_if-ok (has_duplicates changes) _ _ h5 in
    let (m, h_merged, h7) = bind-ok (merge_changes valid changes overrides 0) _ h6 in
    let (_, h8) = raise_if-ok (m.1 == 0) _ _ h7 in
    let same : m.0 ≡ merged = cc h8 in
    (
      overrides,
      changes,
      h_overrides,
      h_changes,
      subst (λ x. override_at k x ≡ expected (change_for k changes) (override_at k overrides)) same
          (merge_changes-expected valid changes overrides 0 k h_merged distinct present),
    )
