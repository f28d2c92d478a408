-- ===== src/Middleware/Cache/Recency.antt =====
-- The cache of middleware/cache.go as what it promises: a list of queries and results, the most
-- recently used first, of bounded length; and a look into it.
use sqlguard.Prelude.{
  ℕ, ◌<◌, ◌≤◌, ◌≡◌, refl, sym, ap, ◌∙◌, subst, Bool-cases, Option-cases, true, false, List, [], ◌∷◌,
  Option, none, some, inl, inr, Bytes, Map, lookup, equal, equal_iff, length, take, ◌==◌, All,
  arith,
}
use sqlguard.Analyzer.Types.{Result}
use sqlguard.Middleware.Cache.{Element, AnalysisCache, find, remove, get_element, find_key, get}
use sqlguard.Middleware.Cache.Links.{
  find_by_key, Distinct, view, without, lookup-view, find_by_key_key, find-address, view-remove,
  Distinct-remove, find-remove_same, find_by_key-remove,
}

-- Using a query brings it to the front.
abbrev pub touch : Bytes → Map (List Result) → Map (List Result) × Option (List Result)
touch query m = elim (lookup query m) [
  | none ↦ (m, none)
  | some r ↦ ((query, r) ∷ without query m, some r)
]

-- Storing results brings them to the front, and what is over the capacity is dropped.
abbrev pub store : ℕ → Bytes → List Result → Map (List Result) → Map (List Result)
store capacity query r m = take capacity ((query, r) ∷ without query m)

abbrev pub address_of : Option Element → Option ℕ
address_of none = none
address_of (some e) = some e.address

-- The map leads to the list's elements, each by its key, and no address is used twice.
pub record Linked (c : AnalysisCache) : Type 0 where
  pub keyed : (k : Bytes) → lookup k c.items ≡ address_of (find_by_key k c.ll)
  pub distinct : Distinct c.ll
  pub fresh : All (λ (e : Element). e.address < c.next) c.ll

pub record Inv (c : AnalysisCache) : Type 0 where
  pub linked : Linked c
  pub bounded : length c.ll ≤ c.capacity

pub find_key-find_by_key :
    (c : AnalysisCache) (q : Bytes) → Linked c → find_key c q ≡ find_by_key q c.ll
find_key-find_by_key c q i = elim (Option-cases (find_by_key q c.ll)) [
  | inl gone ↦
      let out : lookup q c.items ≡ none = i.keyed q ∙ ap address_of gone in
      rw (out, find_key) (sym gone)
  | inr (e, there) ↦
      let at : lookup q c.items ≡ some e.address = i.keyed q ∙ ap address_of there in
      rw (at, find_key) (find-address q c.ll e i.distinct there ∙ sym there)
]

find-All :
    (P : Element → Type 0) (k : Bytes) (ll : List Element) (e : Element)
    → All P ll
    → find_by_key k ll ≡ some e
    → P e
unfolding find_by_key
find-All P k [] e h there = ground arith
find-All P k (x ∷ ll) e (h, hs) there = elim (Bool-cases (equal x.key k)) [
  | inl same ↦ let it : some x ≡ some e = rw same at there in subst P (cc) h
  | inr differ ↦
      let further : find_by_key k ll ≡ some e = rw differ at there in find-All P k ll e hs further
]

All-remove : (P : Element → Type 0) (a : ℕ) (ll : List Element) → All P ll → All P (remove a ll)
unfolding remove
All-remove P a [] h = tt
All-remove P a (x ∷ ll) (h, hs) = elim (Bool-cases (x.address == a)) [
  | inl same ↦ rw same (All-remove P a ll hs)
  | inr differ ↦ rw differ (h, All-remove P a ll hs)
]

length-remove_le : (a : ℕ) (ll : List Element) → length (remove a ll) ≤ length ll
unfolding remove
length-remove_le a [] = omega arith
length-remove_le a (x ∷ ll) = ground (arith, length-remove_le a ll)

length-remove :
    (a : ℕ) (ll : List Element) (e : Element)
    → find a ll ≡ some e
    → length (remove a ll) < length ll
unfolding remove find
length-remove a [] e h = ground arith
length-remove a (x ∷ ll) e h = elim (Bool-cases (x.address == a)) [
  | inl same ↦ rw same (omega (arith, length-remove_le a ll))
  | inr differ ↦
      let further : find a ll ≡ some e = rw differ at h in
      rw differ (omega (arith, length-remove a ll e further))
]

-- An element moves to the front, perhaps with other results.
pub move-Inv :
    (c : AnalysisCache) (k : Bytes) (e : Element) (r : List Result)
    → Inv c
    → find_by_key k c.ll ≡ some e
    → Inv (record c { ll = record e { results = r } ∷ remove e.address c.ll })
unfolding find_by_key
move-Inv c k e r i there = record {
  linked = record {
    keyed = λ j. i.linked.keyed j ∙ keys j;
    distinct = (
      find-remove_same e.address c.ll,
      find_by_key-remove k e.key c.ll e i.linked.distinct there ∙ rw own refl,
      Distinct-remove e.address c.ll i.linked.distinct,
    );
    fresh = (
      find-All (λ x. x.address < c.next) k c.ll e i.linked.fresh there,
      All-remove (λ x. x.address < c.next) e.address c.ll i.linked.fresh,
    );
  };
  bounded = omega (
    arith,
    i.bounded,
    length-remove e.address c.ll e (find-address k c.ll e i.linked.distinct there),
  );
}
  where
    key : e.key ≡ k
    key = find_by_key_key k c.ll e there

    own : equal k e.key ≡ true
    own = (equal_iff k e.key).1 (sym key)

    keys :
        (j : Bytes)
        → address_of (find_by_key j c.ll)
          ≡ address_of (find_by_key j (record e { results = r } ∷ remove e.address c.ll))
    keys j = elim (Bool-cases (equal e.key j)) [
      | inl same ↦
          let names : k ≡ j = sym key ∙ (equal_iff e.key j).0 same in
          rw same (ap address_of (subst (λ n. find_by_key n c.ll ≡ some e) names there))
      | inr differ ↦
          let other : equal k j ≡ false = subst (λ n. equal n j ≡ false) key differ in
          rw differ (
            ap address_of
              (sym (find_by_key-remove k j c.ll e i.linked.distinct there ∙ rw other refl)))
    ]

pub view-move :
    (c : AnalysisCache) (k : Bytes) (e : Element) (r : List Result)
    → Linked c
    → find_by_key k c.ll ≡ some e
    → view (record e { results = r } ∷ remove e.address c.ll) ≡ (k, r) ∷ without k (view c.ll)
view-move c k e r i there =
    ap (λ rest. (e.key, r) ∷ rest) (view-remove k c.ll e i.distinct there)
    ∙ ap (λ j. (j, r) ∷ without k (view c.ll)) (find_by_key_key k c.ll e there)

-- What a look for a query gives, from the element with its key.
get_element_lem :
    (c : AnalysisCache) (q : Bytes) (o : Option Element)
    → Inv c
    → find_by_key q c.ll ≡ o
    → Inv (get_element c o).0
      × (view (get_element c o).0.ll ≡ (touch q (view c.ll)).0)
      × ((get_element c o).1 ≡ (touch q (view c.ll)).1)
unfolding get_element
get_element_lem c q none i there =
    let out : lookup q (view c.ll) ≡ none = lookup-view q c.ll ∙ rw there refl in
    (i, rw (out, touch) refl, rw (out, touch) refl)
get_element_lem c q (some e) i there =
    let found : lookup q (view c.ll) ≡ some e.results = lookup-view q c.ll ∙ rw there refl in
    (
      move-Inv c q e e.results i there,
      rw (found, touch) (view-move c q e e.results i.linked there),
      rw (found, touch) refl,
    )

-- On a cache whose map and list agree, within its capacity, a look gives the results that the
-- recency list holds for the query and brings the query to its front, and keeps the agreement.
pub get-touch :
    (c : AnalysisCache) (q : Bytes)
    → Inv c
    → Inv (get c q).0
      × (view (get c q).0.ll ≡ (touch q (view c.ll)).0)
      × ((get c q).1 ≡ (touch q (view c.ll)).1)
unfolding get
get-touch c q i = get_element_lem c q (find_key c q) i (sym (find_key-find_by_key c q i.linked))
