-- ===== src/Prelude/Assoc.antt =====
-- Go maps as association lists with one entry for a key; a range over a map goes through the list.
use thrust_oauth2id_server.Prelude.Tests.{Eq, ◌==◌, if◌then◌else◌}
use mathlib.Core.Path.{◌≡◌, refl}
use mathlib.Core.Option.{Option, none, some}
use mathlib.Core.List.{List, [], ◌∷◌}
use native.Mathlib.Omega.{arith}

abbrev pub Assoc {ℓ κ} : Type ℓ → Type κ → Type (ℓ ⊔ κ)
Assoc K V = List (K × V)

module _ {ℓ κ} {K : Type ℓ} {V : Type κ} ⦃e : Eq K⦄ where
  -- v, ok := m[key]
  unfoldable pub lookup : K → Assoc K V → Option V
  lookup key [] = none
  lookup key ((held, v) ∷ m) = let rest = lookup key m in if held == key then some v else rest

  -- m[key] = v
  unfoldable pub insert : K → V → Assoc K V → Assoc K V
  insert key v [] = (key, v) ∷ []
  insert key v ((held, old) ∷ m) =
      let rest = insert key v m in if held == key then (held, v) ∷ m else (held, old) ∷ rest

  -- delete(m, key)
  unfoldable pub remove : K → Assoc K V → Assoc K V
  remove key [] = []
  remove key ((held, v) ∷ m) =
      let rest = remove key m in if held == key then rest else (held, v) ∷ rest

  pub lookup-insert :
      (key asked : K) (v : V) (m : Assoc K V)
      → lookup asked (insert key v m) ≡ (if key == asked then some v else lookup asked m)
  unfolding lookup insert
  lookup-insert key asked v [] = refl
  lookup-insert key asked v ((held, old) ∷ m) =
      let rest = lookup-insert key asked v m in
      ground (arith, rest, e.equals_iff held key, e.equals_iff held asked, e.equals_iff key asked)

  pub lookup-remove :
      (key asked : K) (m : Assoc K V)
      → lookup asked (remove key m) ≡ (if key == asked then none else lookup asked m)
  unfolding lookup remove
  lookup-remove key asked [] = ground arith
  lookup-remove key asked ((held, v) ∷ m) =
      let rest = lookup-remove key asked m in
      ground (arith, rest, e.equals_iff held key, e.equals_iff held asked, e.equals_iff key asked)

pub ruleset assoc_laws = (lookup-insert, lookup-remove)
