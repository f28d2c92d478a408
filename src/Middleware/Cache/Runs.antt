-- ===== src/Middleware/Cache/Runs.antt =====
-- Runs of calls of the cache of middleware/cache.go.
use sqlguard.Prelude.{
  ℕ, suc, ◌≡◌, refl, ap, ◌∙◌, Bool-cases, List, [], ◌∷◌, Option, none, some, inl, inr, Bytes, Map,
  insert, length, ltb,
}
use sqlguard.Analyzer.Types.{Result}
use sqlguard.Middleware.Cache.{
  Element, AnalysisCache, new_analysis_cache, get_element, find_key, get, evict_oldest, put_element,
  put,
}
use sqlguard.Middleware.Cache.Links.{view}
use sqlguard.Middleware.Cache.Recency.{touch, store, Inv, get-touch}
use sqlguard.Middleware.Cache.Eviction.{put-store, new_analysis_cache-Inv}

-- The calls of a cache.
pub data CacheCall : Type 0 where
  get_call : Bytes → CacheCall
  put_call : Bytes → List Result → CacheCall

-- What the looks of a run give, from the cache and from a recency list.
unfoldable pub run_cache : AnalysisCache → List CacheCall → List (Option (List Result))
unfolding get put
run_cache c [] = []
run_cache c (get_call q ∷ calls) = let (c', found) = get c q in found ∷ run_cache c' calls
run_cache c (put_call q r ∷ calls) = run_cache (put c q r) calls

abbrev pub run_recency : ℕ → Map (List Result) → List CacheCall → List (Option (List Result))
run_recency capacity m [] = []
run_recency capacity m (get_call q ∷ calls) =
    let (m', found) = touch q m in found ∷ run_recency capacity m' calls
run_recency capacity m (put_call q r ∷ calls) = run_recency capacity (store capacity q r m) calls

get-capacity : (c : AnalysisCache) (q : Bytes) → (get c q).0.capacity ≡ c.capacity
unfolding get
get-capacity c q = go (find_key c q)
  where
    go : (o : Option Element) → (get_element c o).0.capacity ≡ c.capacity
    go none = unfold get_element in refl
    go (some e) = unfold get_element in refl

evict_oldest-capacity :
    (c : AnalysisCache) (e : Element) (ll : List Element)
    → (evict_oldest c e ll).capacity ≡ c.capacity
unfolding evict_oldest
evict_oldest-capacity c e ll = elim (Bool-cases (ltb c.capacity (length c.ll))) [
  | inl full ↦ rw full refl
  | inr room ↦ rw room refl
]

put-capacity : (c : AnalysisCache) (q : Bytes) (r : List Result) → (put c q r).capacity ≡ c.capacity
unfolding put
put-capacity c q r = go (find_key c q)
  where
    go : (o : Option Element) → (put_element c q r o).capacity ≡ c.capacity
    go none =
        unfold put_element in
        (let e : Element = record { address = c.next; key = q; results = r } in
          evict_oldest-capacity
            (record c { ll = e ∷ c.ll; items = insert q c.next c.items; next = suc c.next }) e c.ll)
    go (some e) = unfold put_element in refl

run_cache_lem :
    (c : AnalysisCache) (calls : List CacheCall)
    → Inv c
    → run_cache c calls ≡ run_recency c.capacity (view c.ll) calls
unfolding run_cache
run_cache_lem c [] i = refl
run_cache_lem c (get_call q ∷ calls) i =
    let (i', shown, found) = get-touch c q i in
    ap (λ rest. (get c q).1 ∷ rest) (run_cache_lem (get c q).0 calls i')
    ∙ ap (λ n. (get c q).1 ∷ run_recency n (view (get c q).0.ll) calls) (get-capacity c q)
    ∙ ap (λ m. (get c q).1 ∷ run_recency c.capacity m calls) shown
    ∙ ap (λ o. o ∷ run_recency c.capacity (touch q (view c.ll)).0 calls) found
run_cache_lem c (put_call q r ∷ calls) i =
    let (i', shown) = put-store c q r i in
    run_cache_lem (put c q r) calls i'
    ∙ ap (λ n. run_recency n (view (put c q r).ll) calls) (put-capacity c q r)
    ∙ ap (λ m. run_recency c.capacity m calls) shown

-- Over any run of calls, a new cache answers as a recency list of its capacity: a look brings its
-- query to the front, a store does so with the new results and drops what is last over the
-- capacity.
pub run_cache-new_analysis_cache :
    (capacity : ℕ) (calls : List CacheCall)
    → run_cache (new_analysis_cache capacity) calls ≡ run_recency capacity [] calls
run_cache-new_analysis_cache capacity calls =
    run_cache_lem (new_analysis_cache capacity) calls (new_analysis_cache-Inv capacity)
