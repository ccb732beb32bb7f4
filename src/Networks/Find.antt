-- ===== src/Networks/Find.antt =====
-- `_find_network` of tools/network/sites.py: which network a name or an id resolves to.
use unifi_mcp.Base.{
  ℕ, ◌+◌, ◌≤◌, err, String, ◌≡◌, refl, sym, ap, subst, ◌∙◌, inl, inr, Bool, true, false, Option,
  none, some, List, [], ◌∷◌, arith, if◌then◌else◌, Bool-cases, if-true, if-false, Result, ok, ◌>>=◌,
  bind-ok, length, All, All-map,
}
use unifi_mcp.Base.Table.{find_where}
use unifi_mcp.Verification.Compare.{Record, Python}
use unifi_mcp.Networks.{FindError, ambiguous, named, matching, has_id, only, find_network}

-- How many networks have the name.
abbrev pub count_named : Python → String → List Record → ℕ
count_named py name [] = 0
count_named py name (n ∷ ns) =
    (elim (named py name n) [ ok true ↦ 1 | _ ↦ 0 ]) + count_named py name ns

-- `n` is a member of the list.
pub data Among (n : Record) : List Record → Type 0 where
  here : (ns : List Record) → Among n (n ∷ ns)
  there : (m : Record) (ns : List Record) → Among n ns → Among n (m ∷ ns)

-- `n` is the first of the list that has the id.
pub data First (id : String) (n : Record) : List Record → Type 0 where
  at_head : (ns : List Record) → has_id id n ≡ true → First id n (n ∷ ns)
  later :
      (m : Record) (ns : List Record) → has_id id m ≡ false → First id n ns → First id n (m ∷ ns)

-- What a name or an id stands for among the networks: the first with the id, or, if none has it, what
-- their names say.
pub data Found (py : Python) (name_or_id : String) (ns : List Record)
    : Result FindError (Option Record) → Type 0 where
  by_id : (n : Record) → First name_or_id n ns → Found py name_or_id ns (ok (some n))
  by_name :
      (n : Record)
      → All (λ m. has_id name_or_id m ≡ false) ns
      → Among n ns
      → named py (py.lower (py.strip name_or_id)) n ≡ ok true
      → count_named py (py.lower (py.strip name_or_id)) ns ≡ 1
      → Found py name_or_id ns (ok (some n))
  missing :
      All (λ m. has_id name_or_id m ≡ false) ns
      → count_named py (py.lower (py.strip name_or_id)) ns ≡ 0
      → Found py name_or_id ns (ok none)
  several :
      All (λ m. has_id name_or_id m ≡ false) ns
      → 2 ≤ count_named py (py.lower (py.strip name_or_id)) ns
      → Found py name_or_id ns (err ambiguous)
  unreadable :
      (e : FindError) (m : Record)
      → All (λ m. has_id name_or_id m ≡ false) ns
      → Among m ns
      → named py (py.lower (py.strip name_or_id)) m ≡ err e
      → Found py name_or_id ns (err e)

find_where-First :
    (id : String) (ns : List Record) {n : Record}
    → find_where (has_id id) ns ≡ some n
    → First id n ns
unfolding find_where
find_where-First id [] h = cc
find_where-First id (m ∷ ns) {n} h = elim (Bool-cases (has_id id m)) [
  | inl held ↦
      let found : some m ≡ some n =
        sym (if-true (has_id id m) (some m) (find_where (has_id id) ns) held) ∙ h in
      let same : m ≡ n = cc found in subst (λ x. First id x (m ∷ ns)) same (at_head ns held)
  | inr other ↦ later m ns other (
      find_where-First id ns
        (sym (if-false (has_id id m) (some m) (find_where (has_id id) ns) other) ∙ h))
]

find_where-none :
    (p : Record → Bool) (ns : List Record) → find_where p ns ≡ none → All (λ m. p m ≡ false) ns
unfolding find_where
find_where-none p [] h = tt
find_where-none p (m ∷ ns) h = elim (Bool-cases (p m)) [
  | inl yes_p ↦
      let found : some m ≡ none = sym (if-true (p m) (some m) (find_where p ns) yes_p) ∙ h in
      absurd (cc found)
  | inr no_p ↦
      (no_p, find_where-none p ns (sym (if-false (p m) (some m) (find_where p ns) no_p) ∙ h))
]

module _ (py : Python) (name : String) where
  Match : List Record → Record → Type 0
  Match ns m = (named py name m ≡ ok true) × Among m ns

  matching-Match :
      (ns ms : List Record)
      → matching py name ns ≡ ok ms
      → All (Match ns) ms × (length ms ≡ count_named py name ns)
  unfolding matching Match
  matching-Match [] [] h = (tt, refl)
  matching-Match [] (m ∷ ms) h = cc
  matching-Match (n ∷ ns) ms h =
      let (hit, h_named, h1) = bind-ok (named py name n) _ h in
      let (found, h_found, h2) = bind-ok (matching py name ns) _ h1 in
      let (all, counts) = matching-Match ns found h_found in
      let all' = All-map (Match ns) (Match (n ∷ ns)) (λ m k. (k.0, there n ns k.1)) found all in
      by_hit hit h_named found all' counts (cc h2)
    where
      by_hit :
          (hit : Bool)
          → named py name n ≡ ok hit
          → (found : List Record) → All (Match (n ∷ ns)) found
          → length found ≡ count_named py name ns
          → (if hit then n ∷ found else found) ≡ ms
          → All (Match (n ∷ ns)) ms × (length ms ≡ count_named py name (n ∷ ns))
      by_hit true is_named found all counts same =
          subst (λ l. All (Match (n ∷ ns)) l × (length l ≡ count_named py name (n ∷ ns))) same
            (((is_named, here ns), all), rw is_named (omega arith))
      by_hit false is_named found all counts same =
          subst (λ l. All (Match (n ∷ ns)) l × (length l ≡ count_named py name (n ∷ ns))) same
            (all, rw is_named (omega arith))

  -- A list of names that cannot be read has one that cannot.
  matching-err :
      (ns : List Record) {e : FindError}
      → matching py name ns ≡ err e
      → (m : Record) × Among m ns × (named py name m ≡ err e)
  unfolding matching
  matching-err [] h = cc
  matching-err (n ∷ ns) {e} h = by_head (matching-err ns) (named py name n) refl h
    where
      by_tail :
          (hit : Bool) (r : Result FindError (List Record))
          → matching py name ns ≡ r
          → (matching py name ns ≡ err e → (m : Record) × Among m ns × (named py name m ≡ err e))
          → (r >>= λ found. ok (if hit then n ∷ found else found)) ≡ err e
          → (m : Record) × Among m (n ∷ ns) × (named py name m ≡ err e)
      by_tail hit (ok found) eq more k = cc
      by_tail hit (err e') eq more k =
          let same : e' ≡ e = cc k in
          let (m, among, unread) = more (eq ∙ ap (λ x. err x) same) in (m, there n ns among, unread)

      by_head :
          (matching py name ns ≡ err e → (m : Record) × Among m ns × (named py name m ≡ err e))
          → (r : Result FindError Bool) → named py name n ≡ r
          → (r >>= λ hit. matching py name ns >>= λ found. ok (if hit then n ∷ found else found))
            ≡ err e
          → (m : Record) × Among m (n ∷ ns) × (named py name m ≡ err e)
      by_head more (ok hit) eq k = by_tail hit (matching py name ns) refl more k
      by_head more (err e') eq k =
          let same : e' ≡ e = cc k in (n, here ns, eq ∙ ap (λ x. err x) same)

-- A name or an id always ends in one of five ways: in the first network with that id, if one has it;
-- otherwise in the only network whose name, stripped and in lower case, is the name, in no network
-- if none has the name, in the error of an ambiguous name if several have it, or in the error of a
-- network's name that cannot be read.
pub find_network-Found :
    (py : Python) (ns : List Record) (name_or_id : String)
    → Found py name_or_id ns (find_network py (ok ns) name_or_id)
unfolding find_network Match
find_network-Found py ns name_or_id = by_found (find_where (has_id name_or_id) ns) refl
  where
    by_matches :
        All (λ m. has_id name_or_id m ≡ false) ns
        → (ms : List Record)
        → All (Match py (py.lower (py.strip name_or_id)) ns) ms
          × (length ms ≡ count_named py (py.lower (py.strip name_or_id)) ns)
        → Found py name_or_id ns (only ms)
    by_matches no_id [] (all, counts) = missing no_id (omega (arith, counts))
    by_matches no_id (n ∷ []) (all, counts) =
        by_name n no_id all.0.1 all.0.0 (omega (arith, counts))
    by_matches no_id (n ∷ m ∷ ms) (all, counts) = several no_id (omega (arith, counts))

    by_matching :
        All (λ m. has_id name_or_id m ≡ false) ns
        → (r : Result FindError (List Record)) → matching py (py.lower (py.strip name_or_id)) ns ≡ r
        → Found py name_or_id ns (r >>= only)
    by_matching no_id (ok ms) eq =
        by_matches no_id ms (matching-Match py (py.lower (py.strip name_or_id)) ns ms eq)
    by_matching no_id (err e) eq =
        let (m, among, unread) = matching-err py (py.lower (py.strip name_or_id)) ns eq in
        unreadable e m no_id among unread

    by_found :
        (found : Option Record)
        → find_where (has_id name_or_id) ns ≡ found
        → Found py name_or_id ns (elim found as (λ _. Result FindError (Option Record)) [
          | some network ↦ ok (some network)
          | none ↦ matching py (py.lower (py.strip name_or_id)) ns >>= only
        ])
    by_found none eq =
        by_matching (find_where-none (has_id name_or_id) ns eq)
          (matching py (py.lower (py.strip name_or_id)) ns) refl
    by_found (some n) eq = by_id n (find_where-First name_or_id ns eq)
