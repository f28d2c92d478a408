-- ===== src/Prelude/Maps.antt =====
-- Go's `map[string]V` as an association list.
use Prim.Native.Nat.{ℕ, suc, ◌≤◌}
use mathlib.Core.Path.{◌≡◌, refl}
use mathlib.Core.Logic.{inl, inr}
use mathlib.Core.Bool.{Bool, true, false}
use mathlib.Core.List.{List, [], ◌∷◌}
use mathlib.Core.Option.{Option, none, some}
use native.Mathlib.Omega.{arith}
use sqlguard.Prelude.Tests.{if◌then◌else◌, Bool-cases}
use sqlguard.Prelude.Lists.{length, All}
use sqlguard.Prelude.Text.{Bytes, equal, equal_iff}

abbrev pub Map {ℓ} : Type ℓ → Type ℓ
Map V = List (Bytes × V)

module _ {ℓ} {V : Type ℓ} where
  unfoldable pub lookup : Bytes → Map V → Option V
  lookup key [] = none
  lookup key ((other, value) ∷ entries) = if equal other key then some value else lookup key entries

  unfoldable pub insert : Bytes → V → Map V → Map V
  insert key value [] = (key, value) ∷ []
  insert key value ((other, old) ∷ entries) =
      if equal other key then (key, value) ∷ entries else (other, old) ∷ insert key value entries

  -- `delete` of every entry whose value passes the test.
  unfoldable pub delete_if : (V → Bool) → Map V → Map V
  delete_if p [] = []
  delete_if p ((j, v) ∷ m) = let rest = delete_if p m in if p v then rest else (j, v) ∷ rest

  pub lookup-insert :
      (key sought : Bytes) (value : V) (entries : Map V)
      → lookup sought (insert key value entries)
        ≡ (if equal key sought then some value else lookup sought entries)
  unfolding lookup insert
  lookup-insert key sought value [] = refl
  lookup-insert key sought value ((other, old) ∷ entries) = ground (
    arith,
    lookup-insert key sought value entries,
    equal_iff other sought,
    equal_iff other key,
    equal_iff key sought,
  )

  abbrev pub size : Map V → ℕ
  size = length

  -- Only a new key makes the map larger.
  pub size-insert_new :
      (k : Bytes) (v : V) (m : Map V) → lookup k m ≡ none → size (insert k v m) ≡ suc (size m)
  unfolding lookup insert
  size-insert_new k v [] h = refl
  size-insert_new k v ((j, w) ∷ m) h = ground (arith, size-insert_new k v m)

  pub size-insert_old :
      (k : Bytes) (v : V) {u : V} (m : Map V) → lookup k m ≡ some u → size (insert k v m) ≡ size m
  unfolding lookup insert
  size-insert_old k v {u} [] h = cc
  size-insert_old k v {u} ((j, w) ∷ m) h = ground (arith, size-insert_old k v {u = u} m)

  pub size-delete_if : (p : V → Bool) (m : Map V) → size (delete_if p m) ≤ size m
  unfolding delete_if
  size-delete_if p [] = omega arith
  size-delete_if p ((j, v) ∷ m) = ground (arith, size-delete_if p m)

  -- No key occurs twice.
  abbrev pub IsUnique : Map V → Type ℓ
  IsUnique [] = Unit
  IsUnique ((j, v) ∷ m) = (lookup j m ≡ none) × IsUnique m

  pub lookup-delete_if-none :
      (k : Bytes) (p : V → Bool) (m : Map V) → lookup k m ≡ none → lookup k (delete_if p m) ≡ none
  unfolding lookup delete_if
  lookup-delete_if-none k p [] h = refl
  lookup-delete_if-none k p ((j, v) ∷ m) h = ground (arith, lookup-delete_if-none k p m)

  -- What is left of an entry after a sweep.
  abbrev pub survivor : (V → Bool) → Option V → Option V
  survivor p none = none
  survivor p (some v) = if p v then none else some v

  pub lookup-delete_if :
      (k : Bytes) (p : V → Bool) (m : Map V)
      → IsUnique m
      → lookup k (delete_if p m) ≡ survivor p (lookup k m)
  unfolding lookup delete_if
  lookup-delete_if k p [] u = refl
  lookup-delete_if k p ((j, v) ∷ m) (fresh, u) =
      ground (arith, equal_iff j k, lookup-delete_if k p m u, lookup-delete_if-none j p m fresh)

  pub IsUnique-insert : (k : Bytes) (v : V) (m : Map V) → IsUnique m → IsUnique (insert k v m)
  unfolding lookup insert
  IsUnique-insert k v [] u = ground arith
  IsUnique-insert k v ((j, w) ∷ m) (fresh, u) =
      ground (arith, equal_iff j k, equal_iff k j, lookup-insert k j v m, IsUnique-insert k v m u)

  pub IsUnique-delete_if : (p : V → Bool) (m : Map V) → IsUnique m → IsUnique (delete_if p m)
  unfolding delete_if
  IsUnique-delete_if p [] u = u
  IsUnique-delete_if p ((j, v) ∷ m) (fresh, u) =
      ground (arith, lookup-delete_if-none j p m fresh, IsUnique-delete_if p m u)

-- What holds of the entries holds of them behind an insertion.
pub All-insert {ℓ κ} :
    {V : Type ℓ} (P : Bytes × V → Type κ) (k : Bytes) (v : V) (m : Map V)
    → P (k, v)
    → All P m
    → All P (insert k v m)
unfolding insert
All-insert P k v [] p all = (p, tt)
All-insert P k v ((j, w) ∷ m) p (q, all) = elim (Bool-cases (equal j k)) [
  | inl same ↦ rw same (p, all)
  | inr other ↦ rw other (q, All-insert P k v m p all)
]

-- Go's `map[string]bool` read as a set: a missing key is false.
unfoldable pub has : Map Bool → Bytes → Bool
unfolding lookup
has m k = elim (lookup k m) [ none ↦ false | some b ↦ b ]

pub has-cons :
    (k j : Bytes) (v : Bool) (m : Map Bool)
    → has ((k, v) ∷ m) j ≡ (if equal k j then v else has m j)
unfolding has
has-cons k j v m = ground arith

pub has-insert :
    (k j : Bytes) (m : Map Bool) → has (insert k true m) j ≡ (if equal k j then true else has m j)
unfolding has
has-insert k j m = ground (arith, lookup-insert k j true m)
