-- ===== src/Manifest/Allowlist.antt =====
-- internal/manifest/manifest.go, `CheckAllowlist`: what a document without a problem keeps to.
use villa_straylight.Base.{
  ◌≡◌, refl, ◌<◌, Bool, true, false, not, Option, none, some, List, [], ◌∷◌, ◌++◌, arith,
  Bool-cases, inl, inr, ◌⊎◌, All, str_eq, eq_iff, is_blank, is_empty, ◌==◌,
}
use villa_straylight.Manifest.{
  Component, Document, Env, Problem, problem_if, ref_matches_registry, check_component,
  check_components, check_expiry, check_allowlist,
}
use villa_straylight.Pins.{shape_name, is_asset, Entry, find_entry}

-- A component that names one of the table, keeps its registry and its shape, supplies a pin, with a
-- checksum where it is an asset, and an image of the registry where it is none.
pub record IsAllowed (table : List Entry) (c : Component) : Type 0 where
  pub entry : Entry
  pub in_table : find_entry c.id table ≡ some entry
  pub registry : c.registry ≡ entry.registry
  pub shape : c.shape ≡ shape_name entry.shape
  pub pinned : is_blank c.ref ≡ false
  pub checksum : is_asset entry.shape ≡ true → is_blank c.checksum ≡ false
  pub host : (c.ref ≡ "") ⊎ (ref_matches_registry entry.shape c.ref entry.registry ≡ true)

no_problem :
    (b : Bool) (p : Problem) (rest : List Problem)
    → problem_if b p ++ rest ≡ []
    → (b ≡ false) × (rest ≡ [])
unfolding problem_if
no_problem true p rest h = ground (arith, h)
no_problem false p rest h = (refl, h)

last_problem : (b : Bool) (p : Problem) → problem_if b p ≡ [] → b ≡ false
unfolding problem_if
last_problem true p h = ground (arith, h)
last_problem false p h = refl

not-false : (b : Bool) → not b ≡ false → b ≡ true
not-false b h = ground arith

no_problems : (xs ys : List Problem) → xs ++ ys ≡ [] → (xs ≡ []) × (ys ≡ [])
no_problems [] ys h = (refl, h)
no_problems (x ∷ xs) ys h = ground (arith, h)

check_component-IsAllowed :
    (table : List Entry) (c : Component) (o : Option Entry)
    → find_entry c.id table ≡ o
    → check_component c o ≡ []
    → IsAllowed table c
unfolding check_component
check_component-IsAllowed table c none e h = absurd (ground (arith, h))
check_component-IsAllowed table c (some entry) e h =
    let (a, h1) = no_problem _ _ _ h in
    let (b, h2) = no_problem _ _ _ h1 in
    let (p, h3) = no_problem _ _ _ h2 in
    let (k, h4) = no_problem _ _ _ h3 in
    let m = last_problem _ _ h4 in
    record {
      entry = entry;
      in_table = e;
      registry = (eq_iff c.registry entry.registry).0 (not-false _ a);
      shape = (eq_iff c.shape (shape_name entry.shape)).0 (not-false _ b);
      pinned = p;
      checksum = λ asset. ground (arith, k, asset);
      host = elim (Bool-cases (str_eq c.ref "")) [
        | inl empty ↦ inl ((eq_iff c.ref "").0 empty)
        | inr named ↦ inr (ground (arith, m, named))
      ];
    }

check_components-IsAllowed :
    (table : List Entry) (cs : List Component)
    → check_components table cs ≡ []
    → All (IsAllowed table) cs
unfolding check_components
check_components-IsAllowed table [] h = tt
check_components-IsAllowed table (c ∷ cs) h =
    let (first, rest) = no_problems (check_component c (find_entry c.id table)) _ h in
    (
      check_component-IsAllowed table c (find_entry c.id table) refl first,
      check_components-IsAllowed table cs rest,
    )

-- A document that the allowlist accepts.
pub record IsWithinAllowlist (env : Env) (doc : Document) : Type 0 where
  pub allowed : All (IsAllowed env.table) doc.components
  pub has_serial : 0 < doc.serial
  pub has_components : is_empty doc.components ≡ false

pub check_allowlist-IsWithin :
    (env : Env) (doc : Document) → check_allowlist env doc ≡ [] → IsWithinAllowlist env doc
unfolding check_allowlist
check_allowlist-IsWithin env doc h =
    let (components, h1) = no_problems (check_components env.table doc.components) _ h in
    let (serial, h2) = no_problem (doc.serial == 0) _ _ h1 in
    let (expiry, h3) =
      no_problems (check_expiry doc.valid_until (env.parse_time doc.valid_until)) _ h2 in
    record {
      allowed = check_components-IsAllowed env.table doc.components components;
      has_serial = ground (arith, serial);
      has_components = last_problem _ _ h3;
    }
