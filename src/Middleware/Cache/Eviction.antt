-- ===== src/Middleware/Cache/Eviction.antt =====
-- Storing in the cache of middleware/cache.go, and the eviction.
use sqlguard.Prelude.{
  ℕ, zero, suc, ◌<◌, ◌≤◌, ◌≡◌, refl, sym, ap, ◌∙◌, subst, Bool-cases, List, [], ◌∷◌, Option, none,
  some, inl, inr, Bytes, lookup, insert, lookup-insert, equal, length, take, ltb, if◌then◌else◌,
  All, arith,
}
use sqlguard.Analyzer.Types.{Result}
use sqlguard.Middleware.Cache.{
  Element, AnalysisCache, new_analysis_cache, find, remove, split_back, forget, find_key,
  evict_oldest, put_element, put,
}
use sqlguard.Middleware.Cache.Links.{find_by_key, Distinct, view, without-none}
use sqlguard.Middleware.Cache.Back.{
  lookup-forget, length-split_back, view-split_back, Distinct-split_back, All-split_back,
  find_by_key-split_back,
}
use sqlguard.Middleware.Cache.Recency.{
  store, address_of, Linked, Inv, find_key-find_by_key, move-Inv, view-move,
}

take_all {ℓ} : {A : Type ℓ} (n : ℕ) (xs : List A) → length xs ≤ n → take n xs ≡ xs
take_all zero [] h = refl
take_all zero (x ∷ xs) h = absurd (omega (arith, h))
take_all (suc n) [] h = refl
take_all (suc n) (x ∷ xs) h = ap (◌∷◌ x) (take_all n xs (omega arith))

length-view : (ll : List Element) → length (view ll) ≡ length ll
length-view [] = refl
length-view (e ∷ ll) = ap suc (length-view ll)

evicted-Linked :
    (c : AnalysisCache) (e : Element) (ll : List Element)
    → c.ll ≡ e ∷ ll
    → Linked c
    → let (front, oldest) = split_back e ll in
      Linked (record c { ll = front; items = forget oldest.key c.items })
evicted-Linked c e ll same i = record {
  keyed = keys;
  distinct = Distinct-split_back e ll whole;
  fresh =
      All-split_back (λ x. x.address < c.next) e ll
        (subst (All (λ (x : Element). x.address < c.next)) same i.fresh);
}
  where
    whole : Distinct (e ∷ ll)
    whole = subst Distinct same i.distinct

    keys :
        (j : Bytes)
        → lookup j (forget (split_back e ll).1.key c.items)
          ≡ address_of (find_by_key j (split_back e ll).0)
    keys j = elim (Bool-cases (equal (split_back e ll).1.key j)) [
      | inl out ↦
          let front : find_by_key j (split_back e ll).0 ≡ none =
            find_by_key-split_back j e ll whole ∙ rw out refl in
          lookup-forget (split_back e ll).1.key j c.items ∙ rw out (ap address_of (sym front))
      | inr other ↦
          let front : find_by_key j (split_back e ll).0 ≡ find_by_key j (e ∷ ll) =
            find_by_key-split_back j e ll whole ∙ rw other refl in
          lookup-forget (split_back e ll).1.key j c.items
          ∙ rw other
              (i.keyed j ∙ ap (λ l. address_of (find_by_key j l)) same ∙ ap address_of (sym front))
    ]

evict_oldest-Inv :
    (c : AnalysisCache) (e : Element) (ll : List Element)
    → c.ll ≡ e ∷ ll
    → length ll ≤ c.capacity
    → Linked c
    → Inv (evict_oldest c e ll) × (view (evict_oldest c e ll).ll ≡ take c.capacity (view c.ll))
unfolding evict_oldest
evict_oldest-Inv c e ll same small i =
    let size : length c.ll ≡ suc (length ll) = ap (λ (l : List Element). length l) same in
    elim (Bool-cases (ltb c.capacity (length c.ll))) [
      | inl full ↦
          let full' : length ll ≡ c.capacity = ground arith in
          rw full (
            record {
              linked = evicted-Linked c e ll same i;
              bounded = omega (arith, length-split_back e ll);
            },
            view-split_back e ll
                ∙ ap (λ n. take n (view (e ∷ ll))) full'
                ∙ ap (λ l. take c.capacity (view l)) (sym same),
          )
      | inr room ↦
          let fits : length c.ll ≤ c.capacity = ground arith in
          rw room (
            record { linked = i; bounded = fits },
            sym (take_all c.capacity (view c.ll) (omega (arith, fits, length-view c.ll))),
          )
    ]

find_fresh :
    (a : ℕ) (ll : List Element) → All (λ (e : Element). e.address < a) ll → find a ll ≡ none
unfolding find
find_fresh a [] h = refl
find_fresh a (x ∷ ll) (h, hs) = ground (arith, find_fresh a ll hs)

weaken_fresh :
    (a : ℕ) (ll : List Element)
    → All (λ (e : Element). e.address < a) ll
    → All (λ (e : Element). e.address < suc a) ll
weaken_fresh a [] h = tt
weaken_fresh a (x ∷ ll) (h, hs) = (omega arith, weaken_fresh a ll hs)

pushed-Linked :
    (c : AnalysisCache) (q : Bytes) (r : List Result)
    → Linked c
    → find_by_key q c.ll ≡ none
    → let e : Element = record { address = c.next; key = q; results = r } in
      Linked (record c { ll = e ∷ c.ll; items = insert q c.next c.items; next = suc c.next })
unfolding find_by_key
pushed-Linked c q r i gone = record {
  keyed = λ j. lookup-insert q j c.next c.items ∙ keys j;
  distinct = (find_fresh c.next c.ll i.fresh, gone, i.distinct);
  fresh = (omega arith, weaken_fresh c.next c.ll i.fresh);
}
  where
    e : Element
    e = record { address = c.next; key = q; results = r }

    keys :
        (j : Bytes)
        → (if equal q j then some c.next else lookup j c.items)
          ≡ address_of (find_by_key j (e ∷ c.ll))
    keys j = elim (Bool-cases (equal q j)) [
      | inl same ↦ rw same refl
      | inr differ ↦ rw differ (i.keyed j)
    ]

put_element_lem :
    (c : AnalysisCache) (q : Bytes) (r : List Result) (o : Option Element)
    → Inv c
    → find_by_key q c.ll ≡ o
    → Inv (put_element c q r o) × (view (put_element c q r o).ll ≡ store c.capacity q r (view c.ll))
unfolding put_element
put_element_lem c q r (some e) i there =
    let moved = move-Inv c q e r i there in
    let ll = record e { results = r } ∷ remove e.address c.ll in
    (
      moved,
      sym (take_all c.capacity (view ll) (omega (arith, moved.bounded, length-view ll)))
          ∙ ap (take c.capacity) (view-move c q e r i.linked there),
    )
put_element_lem c q r none i there =
    let e : Element = record { address = c.next; key = q; results = r } in
    let c' = record c { ll = e ∷ c.ll; items = insert q c.next c.items; next = suc c.next } in
    let (inv, shown) =
      evict_oldest-Inv c' e c.ll refl i.bounded (pushed-Linked c q r i.linked there) in
    (inv, shown ∙ ap (λ m. take c.capacity ((q, r) ∷ m)) (sym (without-none q c.ll there)))

-- On a cache whose map and list agree, within its capacity, storing brings the results to the
-- front of the recency list and drops what is then over the capacity, and keeps the agreement.
pub put-store :
    (c : AnalysisCache) (q : Bytes) (r : List Result)
    → Inv c
    → Inv (put c q r) × (view (put c q r).ll ≡ store c.capacity q r (view c.ll))
unfolding put
put-store c q r i = put_element_lem c q r (find_key c q) i (sym (find_key-find_by_key c q i.linked))

pub new_analysis_cache-Inv : (capacity : ℕ) → Inv (new_analysis_cache capacity)
unfolding lookup find_by_key
new_analysis_cache-Inv capacity = record {
  linked = record { keyed = λ k. refl; distinct = tt; fresh = tt };
  bounded = omega arith;
}
