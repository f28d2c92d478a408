-- ===== src/Middleware/Cache.antt =====
-- The cache of analyses of middleware/cache.go. An element of the list has the identity that its
-- allocation gives it, by which the map points to it; a call is one step under the mutex.
pub mod Points
pub mod Sound
pub mod Links
pub mod Back
pub mod Recency
pub mod Eviction
pub mod Runs
use sqlguard.Prelude.{
  ℕ, suc, Bool, true, false, List, [], ◌∷◌, Option, none, some, Bytes, Map, lookup, insert, equal,
  length, ltb, ◌==◌, if◌then◌else◌,
}
use sqlguard.Analyzer.Types.{Result}

-- A list element and the `cacheEntry` behind it.
pub record Element : Type 0 where
  pub address : ℕ
  pub key : Bytes
  pub results : List Result

-- `next` is the address of the next allocation.
pub record AnalysisCache : Type 0 where
  pub ll : List Element
  pub items : Map ℕ
  pub capacity : ℕ
  pub next : ℕ

abbrev pub new_analysis_cache : ℕ → AnalysisCache
new_analysis_cache capacity = record { ll = []; items = []; capacity = capacity; next = 0 }

-- The element at an address.
unfoldable pub find : ℕ → List Element → Option Element
find a [] = none
find a (e ∷ ll) = if e.address == a then some e else find a ll

unfoldable pub remove : ℕ → List Element → List Element
remove a [] = []
remove a (e ∷ ll) = let rest = remove a ll in if e.address == a then rest else e ∷ rest

-- The back of the list, and the list without it.
unfoldable pub split_back : Element → List Element → List Element × Element
split_back e [] = ([], e)
split_back e (e' ∷ ll) = let (front, last) = split_back e' ll in (e ∷ front, last)

unfoldable pub forget : Bytes → Map ℕ → Map ℕ
forget key [] = []
forget key ((other, a) ∷ items) =
    let rest = forget key items in if equal other key then rest else (other, a) ∷ rest

-- What `get` does with the element that the map names. An address that is in the map is in the
-- list.
pub get_element : AnalysisCache → Option Element → AnalysisCache × Option (List Result)
unfolding remove
get_element c none = (c, none)
get_element c (some e) = (record c { ll = e ∷ remove e.address c.ll }, some e.results)

abbrev pub find_key : AnalysisCache → Bytes → Option Element
find_key c query = elim (lookup query c.items) [ none ↦ none | some a ↦ find a c.ll ]

unfoldable pub get : AnalysisCache → Bytes → AnalysisCache × Option (List Result)
unfolding get_element find lookup
get c query = get_element c (find_key c query)

-- The eviction, where the list is not empty.
pub evict_oldest : AnalysisCache → Element → List Element → AnalysisCache
unfolding split_back forget
evict_oldest c e ll =
    if ltb c.capacity (length c.ll)
    then (let (front, oldest) = split_back e ll in
        record c { ll = front; items = forget oldest.key c.items })
    else c

pub put_element : AnalysisCache → Bytes → List Result → Option Element → AnalysisCache
unfolding evict_oldest insert remove
put_element c query results none =
    let e : Element = record { address = c.next; key = query; results = results } in
    evict_oldest
      (record c { ll = e ∷ c.ll; items = insert query c.next c.items; next = suc c.next }) e c.ll
put_element c query results (some e) = record c {
  ll = record e { results = results } ∷ remove e.address c.ll;
}

unfoldable pub put : AnalysisCache → Bytes → List Result → AnalysisCache
unfolding put_element find lookup
put c query results = put_element c query results (find_key c query)
