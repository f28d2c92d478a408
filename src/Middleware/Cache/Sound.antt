-- ===== src/Middleware/Cache/Sound.antt =====
-- The cache of middleware/cache.go answers with what was stored for the query asked.
use sqlguard.Prelude.{
  ℕ, suc, ◌<◌, ◌≢◌, ◌≡◌, refl, sym, ap, ◌∙◌, Bool-cases, Option-cases, true, false, List, ◌∷◌,
  Option, none, some, inl, inr, Bytes, lookup, insert, length, ltb, ◌==◌, All, arith,
}
use sqlguard.Analyzer.Types.{Result}
use sqlguard.Middleware.Cache.{
  Element, AnalysisCache, new_analysis_cache, find, remove, split_back, get_element, find_key, get,
  evict_oldest, put_element, put,
}
use sqlguard.Middleware.Cache.Points.{
  Points, some-injective, find-Holds, remove-Holds, find-remove, split_back-Holds, find-split_back,
  lookup-Points, insert-Points, forget-Points, Points-change,
}

-- Every element holds the analysis `f` of its key, and the map points to its keys.
pub record IsSound (f : Bytes → List Result) (c : AnalysisCache) : Type 0 where
  pub holds : All (λ (e : Element). e.results ≡ f e.key) c.ll
  pub points : All (Points c.ll c.next) c.items

-- The element that the map names for a query.
find_key_lem :
    (f : Bytes → List Result) (c : AnalysisCache) (q : Bytes) (e : Element)
    → IsSound f c
    → find_key c q ≡ some e
    → (e.key ≡ q) × (e.results ≡ f q) × (find e.address c.ll ≡ some e)
find_key_lem f c q e s k = elim (Option-cases (lookup q c.items)) [
  | inl gone ↦ let bad : none ≡ some e = rw (gone, find_key) at k in ground arith
  | inr (a, there) ↦
      let k' : find a c.ll ≡ some e = rw (there, find_key) at k in
      let (lt, key) = lookup-Points c.ll c.next q a c.items s.points there in
      let (res, at) = find-Holds f a c.ll e s.holds k' in
      (key e k', res ∙ ap f (key e k'), ap (λ b. find b c.ll) at ∙ k')
]

-- An element of the list moves to its front, with the same address and key.
move-IsSound :
    (f : Bytes → List Result) (c : AnalysisCache) (e e' : Element)
    → IsSound f c
    → find e.address c.ll ≡ some e
    → e'.address ≡ e.address
    → e'.key ≡ e.key
    → e'.results ≡ f e'.key
    → IsSound f (record c { ll = e' ∷ remove e.address c.ll })
unfolding find
move-IsSound f c e e' s there at same res = record {
  holds = (res, remove-Holds f e.address c.ll s.holds);
  points =
      Points-change c.ll (e' ∷ remove e.address c.ll) c.next c.next (omega arith) old c.items
        s.points;
}
  where
    old :
        (a : ℕ) (x : Element)
        → a < c.next
        → find a (e' ∷ remove e.address c.ll) ≡ some x
        → (x' : Element) × ((find a c.ll ≡ some x') × (x'.key ≡ x.key))
    old a x lt k = elim (Bool-cases (e'.address == a)) [
      | inl here ↦
          let k' : some e' ≡ some x = rw here at k in
          let place : e.address ≡ a = ground arith in
          (
            e,
            (
              ap (λ b. find b c.ll) (sym place) ∙ there,
              sym same ∙ ap (λ (y : Element). y.key) (some-injective k'),
            ),
          )
      | inr other ↦
          let k' : find a (remove e.address c.ll) ≡ some x = rw other at k in
          let apart : e.address ≢ a = ground arith in
          (x, (sym (find-remove e.address a c.ll apart) ∙ k', refl))
    ]

get_element_lem :
    (f : Bytes → List Result) (c : AnalysisCache) (q : Bytes) (o : Option Element)
    → IsSound f c
    → find_key c q ≡ o
    → IsSound f (get_element c o).0 × ((r : List Result) → (get_element c o).1 ≡ some r → r ≡ f q)
unfolding get_element
get_element_lem f c q none s k = (s, λ r h. ground arith)
get_element_lem f c q (some e) s k =
    let (key, res, there) = find_key_lem f c q e s k in
    (
      move-IsSound f c e e s there refl refl (res ∙ ap f (sym key)),
      λ r h. let same : e.results ≡ r = cc in sym same ∙ res,
    )

-- A look into a cache that holds `f` keeps it so, and a hit is `f` of the query.
pub get_lem :
    (f : Bytes → List Result) (c : AnalysisCache) (q : Bytes)
    → IsSound f c
    → IsSound f (get c q).0 × ((r : List Result) → (get c q).1 ≡ some r → r ≡ f q)
unfolding get
get_lem f c q s = get_element_lem f c q (find_key c q) s refl

evict_oldest-IsSound :
    (f : Bytes → List Result) (c : AnalysisCache) (e : Element) (ll : List Element)
    → c.ll ≡ e ∷ ll
    → IsSound f c
    → IsSound f (evict_oldest c e ll)
unfolding evict_oldest
evict_oldest-IsSound f c e ll same s = elim (Bool-cases (ltb c.capacity (length c.ll))) [
  | inr room ↦ rw room s
  | inl full ↦ rw full (record {
    holds = split_back-Holds f e ll (rw same at (s.holds));
    points = forget-Points (split_back e ll).0 c.next (split_back e ll).1.key c.items (
        Points-change c.ll (split_back e ll).0 c.next c.next (omega arith)
          (λ a x lt k. (x, (ap (find a) same ∙ find-split_back a e x ll k, refl))) c.items
          s.points);
  })
]

put_element-IsSound :
    (f : Bytes → List Result) (c : AnalysisCache) (q : Bytes) (o : Option Element)
    → IsSound f c
    → find_key c q ≡ o
    → IsSound f (put_element c q (f q) o)
unfolding put_element find
put_element-IsSound f c q (some e) s k =
    let (key, res, there) = find_key_lem f c q e s k in
    move-IsSound f c e (record e { results = f q }) s there refl refl (ap f (sym key))
put_element-IsSound f c q none s k =
    let e : Element = record { address = c.next; key = q; results = f q } in
    evict_oldest-IsSound f
      (record c { ll = e ∷ c.ll; items = insert q c.next c.items; next = suc c.next }) e c.ll refl
      (record {
        holds = (refl, s.holds);
        points =
            insert-Points (e ∷ c.ll) (suc c.next) q c.next c.items
              (Points-change c.ll (e ∷ c.ll) c.next (suc c.next) (omega arith)
                (λ a x lt h.
                  let apart : (c.next == a) ≡ false = ground arith in
                  let h' : find a c.ll ≡ some x = rw apart at h in (x, (h', refl)))
                c.items s.points)
              (
                omega arith,
                λ x h.
                    let here : (c.next == c.next) ≡ true = ground arith in
                    let h' : some e ≡ some x = rw here at h in
                    ap (λ (y : Element). y.key) (sym (some-injective h')),
              );
      })

-- Storing `f` of a query keeps that the cache holds `f`.
pub put-IsSound :
    (f : Bytes → List Result) (c : AnalysisCache) (q : Bytes)
    → IsSound f c
    → IsSound f (put c q (f q))
unfolding put
put-IsSound f c q s = put_element-IsSound f c q (find_key c q) s refl

pub new_analysis_cache-IsSound :
    (f : Bytes → List Result) (capacity : ℕ) → IsSound f (new_analysis_cache capacity)
new_analysis_cache-IsSound f capacity = record { holds = tt; points = tt }
