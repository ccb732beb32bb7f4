-- ===== src/Plugins/Load/Trust.antt =====
-- Entry points that are not allowlisted have no influence.
use unifi_mcp.Base.{
  ◌+◌, String, ◌≡◌, refl, ap, false, List, [], ◌∷◌, arith, str_eq, if◌then◌else◌, raise_if,
  bind_cong, elem,
}
use unifi_mcp.Base.Table.{count_where}
use unifi_mcp.Plugins.{empty_registry, required_duplicated}
use unifi_mcp.Plugins.Load.{
  EntryPoint, PluginManager, names, duplicates_among, duplicates_of, intersects, duplicate_statuses,
  Policy, visit, visit_all, load,
}

-- Lists that differ only in what entry points do that are not allowlisted.
pub data Alike (allowlist : List String) : List EntryPoint → List EntryPoint → Type 0 where
  empty : Alike allowlist [] []
  same :
      (e : EntryPoint) {xs ys : List EntryPoint}
      → Alike allowlist xs ys
      → Alike allowlist (e ∷ xs) (e ∷ ys)
  untrusted :
      (e e' : EntryPoint) {xs ys : List EntryPoint}
      → e.name ≡ e'.name
      → elem e.name allowlist ≡ false
      → Alike allowlist xs ys
      → Alike allowlist (e ∷ xs) (e' ∷ ys)

names-Alike :
    (allowlist : List String) (xs ys : List EntryPoint)
    → Alike allowlist xs ys
    → names xs ≡ names ys
names-Alike allowlist _ _ empty = refl
names-Alike allowlist _ _ (same e a) = ap (λ ns. e.name ∷ ns) (names-Alike allowlist _ _ a)
names-Alike allowlist _ _ (untrusted e e' n u a) = cc (n, names-Alike allowlist _ _ a)

counts-Alike :
    (allowlist : List String) (n : String) (xs ys : List EntryPoint)
    → Alike allowlist xs ys
    → count_where (λ e. str_eq n e.name) xs ≡ count_where (λ e. str_eq n e.name) ys
unfolding count_where
counts-Alike allowlist n _ _ empty = refl
counts-Alike allowlist n _ _ (same e a) =
    ap (λ k. (if str_eq n e.name then 1 else 0) + k) (counts-Alike allowlist n _ _ a)
counts-Alike allowlist n _ _ (untrusted e e' same_name u a) =
    rw (same_name)
      (ap (λ k. (if str_eq n e'.name then 1 else 0) + k) (counts-Alike allowlist n _ _ a))

duplicates-Alike :
    (allowlist : List String) (xs ys : List EntryPoint)
    → Alike allowlist xs ys
    → (ns : List String) → duplicates_among xs allowlist ns ≡ duplicates_among ys allowlist ns
unfolding duplicates_among
duplicates-Alike allowlist xs ys a [] = refl
duplicates-Alike allowlist xs ys a (n ∷ ns) =
    rw (counts-Alike allowlist n xs ys a, duplicates-Alike allowlist xs ys a ns) refl

visit-untrusted :
    (p : Policy) (duplicates : List String) (e e' : EntryPoint) (m : PluginManager)
    → e.name ≡ e'.name
    → elem e.name p.allowlist ≡ false
    → visit p duplicates e m ≡ visit p duplicates e' m
unfolding visit
visit-untrusted p duplicates e e' m n u = ground (arith, n, u)

visit_all-Alike :
    (p : Policy) (duplicates : List String) (xs ys : List EntryPoint)
    → Alike p.allowlist xs ys
    → (m : PluginManager) → visit_all p duplicates xs m ≡ visit_all p duplicates ys m
unfolding visit_all
visit_all-Alike p duplicates _ _ empty m = refl
visit_all-Alike p duplicates _ _ (same e a) m =
    bind_cong (visit p duplicates e m) _ _ (visit_all-Alike p duplicates _ _ a)
visit_all-Alike p duplicates _ _ (untrusted e e' n u a) m =
    rw (visit-untrusted p duplicates e e' m n u)
      (bind_cong (visit p duplicates e' m) _ _ (visit_all-Alike p duplicates _ _ a))

-- The registry and the statuses after loading, and whether it raises, do not depend on what the
-- entry points do whose names are not allowlisted, but only on those names.
pub load-Alike :
    (p : Policy) (xs ys : List EntryPoint) → Alike p.allowlist xs ys → load p xs ≡ load p ys
unfolding load duplicates_of
load-Alike p xs ys a =
    rw (names-Alike p.allowlist xs ys a, duplicates-Alike p.allowlist xs ys a (names ys))
      (bind_cong
        (raise_if (intersects (duplicates_of ys p.allowlist) p.required) required_duplicated) _ _
        (λ u.
          rw
            (visit_all-Alike p (duplicates_of ys p.allowlist) xs ys a (record {
              registry = empty_registry;
              statuses = duplicate_statuses (duplicates_of ys p.allowlist);
            }))
            refl))
