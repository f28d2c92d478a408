-- ===== src/Middleware/Dedup/Keys.antt =====
-- The keys of the deduper and the bound on its map (middleware/dedup.go).
use sqlguard.Prelude.{
  ℕ, ◌≤◌, ◌≡◌, ◌≢◌, refl, subst, Bool-cases, inl, inr, [], ◌∷◌, ◌++◌, Option, none, some, Bytes,
  arith, lookup, size, IsUnique, size-insert_new, size-insert_old, size-delete_if, IsUnique-insert,
  IsUnique-delete_if, ℤ, All, passed, is_positive,
}
use sqlguard.Middleware.Dedup.{Deduper, new_deduper, finding_key, sweep, admit, allow_key, allow}

-- The text holds no NUL byte, as no rule name does.
abbrev pub NoNul : Bytes → Type 0
NoNul s = All (λ c. c ≢ 0) s

not-NoNul : (s t : Bytes) → NoNul (s ++ (0 ∷ t)) → ⊥
not-NoNul [] t h = h.0 refl
not-NoNul (c ∷ s) t h = not-NoNul s t h.1

-- Two findings share a key only if they are of one fingerprint and one rule, where the rule
-- names hold no NUL byte; the fingerprints may hold any bytes.
pub finding_key-injective :
    (f f' r r' : Bytes)
    → NoNul r
    → NoNul r'
    → finding_key f r ≡ finding_key f' r'
    → (f ≡ f') × (r ≡ r')
finding_key-injective [] [] r r' h h' e = (refl, cc)
finding_key-injective [] (c ∷ f') r r' h h' e =
    let tails : r ≡ f' ++ (0 ∷ r') = cc in absurd (not-NoNul f' r' (subst NoNul tails h))
finding_key-injective (c ∷ f) [] r r' h h' e =
    let tails : r' ≡ f ++ (0 ∷ r) = cc in absurd (not-NoNul f r (subst NoNul tails h'))
finding_key-injective (c ∷ f) (c' ∷ f') r r' h h' e =
    let (same, rules) = finding_key-injective f f' r r' h h' (cc) in
    let heads : c ≡ c' = cc in (cc, rules)

pub record Inv (d : Deduper) : Type 0 where
  pub unique : IsUnique d.seen
  pub bounded : size d.seen ≤ d.max_keys

pub new_deduper-Inv : (window : ℤ) → Inv (new_deduper window)
new_deduper-Inv window = record { unique = tt; bounded = omega arith }

sweep-Inv : (d : Deduper) (now : ℕ) → Inv d → Inv (sweep d now)
unfolding sweep
sweep-Inv d now i =
    let p = λ (last : ℕ). passed now last d.window in
    ground (arith, IsUnique-delete_if p d.seen i.unique, size-delete_if p d.seen)

admit-Inv :
    (d : Deduper) (now : ℕ) (k : Bytes) (o : Option ℕ)
    → lookup k d.seen ≡ o
    → Inv d
    → Inv (admit d now k o).0
unfolding admit
admit-Inv d now k none h i =
    ground (arith, IsUnique-insert k now d.seen i.unique, size-insert_new k now d.seen h)
admit-Inv d now k (some last) h i =
    ground (arith, IsUnique-insert k now d.seen i.unique, size-insert_old k now d.seen h)

pub allow_key-Inv : (d : Deduper) (k : Bytes) (now : ℕ) → Inv d → Inv (allow_key d k now).0
unfolding allow_key
allow_key-Inv d k now i = admit-Inv (sweep d now) now k _ refl (sweep-Inv d now i)

-- A call keeps the deduper's map within its capacity and its keys distinct.
pub allow-Inv : (d : Deduper) (f r : Bytes) (now : ℕ) → Inv d → Inv (allow d f r now).0
unfolding allow
allow-Inv d f r now i = elim (Bool-cases (is_positive d.window)) [
  | inl on ↦ rw on (allow_key-Inv d (finding_key f r) now i)
  | inr off ↦ rw off i
]
