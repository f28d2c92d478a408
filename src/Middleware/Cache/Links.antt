-- ===== src/Middleware/Cache/Links.antt =====
-- The list of middleware/cache.go by address and by key.
use sqlguard.Prelude.{
  ℕ, ◌≡◌, refl, sym, ap, ◌∙◌, subst, Bool-cases, true, false, List, [], ◌∷◌, Option, none, some,
  inl, inr, Bytes, Map, lookup, equal, equal_iff, ◌==◌, if◌then◌else◌, arith, map,
}
use sqlguard.Analyzer.Types.{Result}
use sqlguard.Middleware.Cache.{Element, find, remove}

-- The element with a key.
unfoldable pub find_by_key : Bytes → List Element → Option Element
find_by_key k [] = none
find_by_key k (e ∷ ll) = if equal e.key k then some e else find_by_key k ll

-- No address and no key occurs twice.
abbrev pub Distinct : List Element → Type 0
Distinct [] = Unit
Distinct (e ∷ ll) = (find e.address ll ≡ none) × (find_by_key e.key ll ≡ none) × Distinct ll

-- The keys and results in the order of the list.
abbrev pub view : List Element → Map (List Result)
view = map (λ (e : Element). (e.key, e.results))

unfoldable pub without : Bytes → Map (List Result) → Map (List Result)
without k [] = []
without k ((j, r) ∷ m) = let rest = without k m in if equal j k then rest else (j, r) ∷ rest

pub lookup-view :
    (k : Bytes) (ll : List Element)
    → lookup k (view ll) ≡ elim (find_by_key k ll) [ none ↦ none | some e ↦ some e.results ]
unfolding lookup find_by_key
lookup-view k [] = refl
lookup-view k (x ∷ ll) = elim (Bool-cases (equal x.key k)) [
  | inl same ↦ rw same refl
  | inr differ ↦ rw differ (lookup-view k ll)
]

pub find_by_key_key :
    (k : Bytes) (ll : List Element) (e : Element) → find_by_key k ll ≡ some e → e.key ≡ k
unfolding find_by_key
find_by_key_key k [] e h = ground arith
find_by_key_key k (x ∷ ll) e h = elim (Bool-cases (equal x.key k)) [
  | inl same ↦
      let there : some x ≡ some e = rw same at h in
      let keys : x.key ≡ e.key = cc in sym keys ∙ (equal_iff x.key k).0 same
  | inr differ ↦
      let further : find_by_key k ll ≡ some e = rw differ at h in find_by_key_key k ll e further
]

find_address : (a : ℕ) (ll : List Element) (e : Element) → find a ll ≡ some e → e.address ≡ a
unfolding find
find_address a [] e h = ground arith
find_address a (x ∷ ll) e h = elim (Bool-cases (x.address == a)) [
  | inl same ↦
      let there : some x ≡ some e = rw same at h in
      let at : x.address ≡ e.address = cc in ground arith
  | inr differ ↦ let further : find a ll ≡ some e = rw differ at h in find_address a ll e further
]

apart_address :
    (b a : ℕ) (ll : List Element) (e : Element)
    → find b ll ≡ none
    → find a ll ≡ some e
    → (b == a) ≡ false
apart_address b a ll e gone there = elim (Bool-cases (b == a)) [
  | inl same ↦
      let at : b ≡ a = ground arith in
      let bad : none ≡ some e = sym (subst (λ c. find c ll ≡ none) at gone) ∙ there in ground arith
  | inr differ ↦ differ
]

-- What the key leads to, its address leads to.
pub find-address :
    (k : Bytes) (ll : List Element) (e : Element)
    → Distinct ll
    → find_by_key k ll ≡ some e
    → find e.address ll ≡ some e
unfolding find find_by_key
find-address k [] e d h = ground arith
find-address k (x ∷ ll) e (apart, _, d) h = elim (Bool-cases (equal x.key k)) [
  | inl same ↦
      let there : some x ≡ some e = rw same at h in
      let at : x.address ≡ e.address = cc in
      let here : (x.address == e.address) ≡ true = ground arith in rw here there
  | inr differ ↦
      let further : find_by_key k ll ≡ some e = rw differ at h in
      let below = find-address k ll e d further in
      let other : (x.address == e.address) ≡ false =
        apart_address x.address e.address ll e apart below in
      rw other below
]

remove-none : (a : ℕ) (ll : List Element) → find a ll ≡ none → remove a ll ≡ ll
unfolding find remove
remove-none a [] h = refl
remove-none a (x ∷ ll) h = ground (arith, remove-none a ll)

pub without-none :
    (k : Bytes) (ll : List Element) → find_by_key k ll ≡ none → without k (view ll) ≡ view ll
unfolding find_by_key without
without-none k [] h = refl
without-none k (x ∷ ll) h = ground (arith, without-none k ll)

-- Removing the address of a key's element removes the key.
pub view-remove :
    (k : Bytes) (ll : List Element) (e : Element)
    → Distinct ll
    → find_by_key k ll ≡ some e
    → view (remove e.address ll) ≡ without k (view ll)
unfolding find_by_key remove without
view-remove k [] e d h = refl
view-remove k (x ∷ ll) e (apart, fresh, d) h = elim (Bool-cases (equal x.key k)) [
  | inl same ↦
      let there : some x ≡ some e = rw same at h in
      let at : x.address ≡ e.address = cc in
      let here : (x.address == e.address) ≡ true = ground arith in
      let names : x.key ≡ k = (equal_iff x.key k).0 same in
      rw (here, same)
        (ap view (remove-none e.address ll (subst (λ a. find a ll ≡ none) at apart))
          ∙ sym (without-none k ll (subst (λ j. find_by_key j ll ≡ none) names fresh)))
  | inr differ ↦
      let further : find_by_key k ll ≡ some e = rw differ at h in
      let below = find-address k ll e d further in
      let other : (x.address == e.address) ≡ false =
        apart_address x.address e.address ll e apart below in
      rw (other, differ) (ap (λ rest. (x.key, x.results) ∷ rest) (view-remove k ll e d further))
]

find-remove-none : (b a : ℕ) (ll : List Element) → find b ll ≡ none → find b (remove a ll) ≡ none
unfolding find remove
find-remove-none b a [] h = refl
find-remove-none b a (x ∷ ll) h = ground (arith, find-remove-none b a ll)

find_by_key-remove-none :
    (j : Bytes) (a : ℕ) (ll : List Element)
    → find_by_key j ll ≡ none
    → find_by_key j (remove a ll) ≡ none
unfolding find_by_key remove
find_by_key-remove-none j a [] h = refl
find_by_key-remove-none j a (x ∷ ll) h = ground (arith, find_by_key-remove-none j a ll)

pub Distinct-remove : (a : ℕ) (ll : List Element) → Distinct ll → Distinct (remove a ll)
unfolding remove
Distinct-remove a [] d = tt
Distinct-remove a (x ∷ ll) (apart, fresh, d) = elim (Bool-cases (x.address == a)) [
  | inl same ↦ rw same (Distinct-remove a ll d)
  | inr differ ↦ rw differ (
    find-remove-none x.address a ll apart,
    find_by_key-remove-none x.key a ll fresh,
    Distinct-remove a ll d,
  )
]

pub find-remove_same : (a : ℕ) (ll : List Element) → find a (remove a ll) ≡ none
unfolding find remove
find-remove_same a [] = refl
find-remove_same a (x ∷ ll) = ground (arith, find-remove_same a ll)

-- Removing a key's element leaves the other keys.
pub find_by_key-remove :
    (k j : Bytes) (ll : List Element) (e : Element)
    → Distinct ll
    → find_by_key k ll ≡ some e
    → find_by_key j (remove e.address ll) ≡ (if equal k j then none else find_by_key j ll)
unfolding find_by_key remove
find_by_key-remove k j [] e d h = ground arith
find_by_key-remove k j (x ∷ ll) e (apart, fresh, d) h = elim (Bool-cases (equal x.key k)) [
  | inl same ↦
      let there : some x ≡ some e = rw same at h in
      let at : x.address ≡ e.address = cc in
      let here : (x.address == e.address) ≡ true = ground arith in
      let names : x.key ≡ k = (equal_iff x.key k).0 same in
      let gone : find_by_key k ll ≡ none = subst (λ i. find_by_key i ll ≡ none) names fresh in
      rw here (
        ap (find_by_key j) (remove-none e.address ll (subst (λ a. find a ll ≡ none) at apart))
        ∙ ground (arith, equal_iff k j, equal_iff x.key j, names, gone))
  | inr differ ↦
      let further : find_by_key k ll ≡ some e = rw differ at h in
      let below = find-address k ll e d further in
      let other = apart_address x.address e.address ll e apart below in
      let rest = find_by_key-remove k j ll e d further in
      rw other (ground (arith, rest, equal_iff k j, equal_iff x.key j, equal_iff x.key k))
]
