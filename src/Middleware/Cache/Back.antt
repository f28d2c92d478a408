-- ===== src/Middleware/Cache/Back.antt =====
-- The back of the list of middleware/cache.go, and what the eviction leaves.
use sqlguard.Prelude.{
  ℕ, suc, ◌≡◌, refl, ap, false, List, [], ◌∷◌, none, Bytes, Map, lookup, equal, equal_iff, length,
  take, if◌then◌else◌, All, arith,
}
use sqlguard.Middleware.Cache.{Element, find, split_back, forget}
use sqlguard.Middleware.Cache.Links.{find_by_key, Distinct, view}

pub lookup-forget :
    (k j : Bytes) (items : Map ℕ)
    → lookup j (forget k items) ≡ (if equal k j then none else lookup j items)
unfolding lookup forget
lookup-forget k j [] = ground arith
lookup-forget k j ((i, a) ∷ items) =
    ground (arith, lookup-forget k j items, equal_iff i k, equal_iff i j, equal_iff k j)

pub length-split_back : (e : Element) (ll : List Element) → length (split_back e ll).0 ≡ length ll
unfolding split_back
length-split_back e [] = refl
length-split_back e (x ∷ ll) = ap suc (length-split_back x ll)

pub view-split_back :
    (e : Element) (ll : List Element) → view (split_back e ll).0 ≡ take (length ll) (view (e ∷ ll))
unfolding split_back
view-split_back e [] = refl
view-split_back e (x ∷ ll) = ap (◌∷◌ (e.key, e.results)) (view-split_back x ll)

pub find-split_back-none :
    (a : ℕ) (e : Element) (ll : List Element)
    → find a (e ∷ ll) ≡ none
    → find a (split_back e ll).0 ≡ none
unfolding split_back find
find-split_back-none a e [] h = refl
find-split_back-none a e (x ∷ ll) h = ground (arith, find-split_back-none a x ll)

find_by_key-split_back-none :
    (k : Bytes) (e : Element) (ll : List Element)
    → find_by_key k (e ∷ ll) ≡ none
    → find_by_key k (split_back e ll).0 ≡ none
unfolding split_back find_by_key
find_by_key-split_back-none k e [] h = refl
find_by_key-split_back-none k e (x ∷ ll) h = ground (arith, find_by_key-split_back-none k x ll)

pub Distinct-split_back :
    (e : Element) (ll : List Element) → Distinct (e ∷ ll) → Distinct (split_back e ll).0
unfolding split_back
Distinct-split_back e [] d = tt
Distinct-split_back e (x ∷ ll) (apart, fresh, d) = (
  find-split_back-none e.address x ll apart,
  find_by_key-split_back-none e.key x ll fresh,
  Distinct-split_back x ll d,
)

pub All-split_back :
    (P : Element → Type 0) (e : Element) (ll : List Element)
    → All P (e ∷ ll)
    → All P (split_back e ll).0
unfolding split_back
All-split_back P e [] h = tt
All-split_back P e (x ∷ ll) (h, hs) = (h, All-split_back P x ll hs)

-- The last element's key is one of the list's.
back_key :
    (k : Bytes) (e : Element) (ll : List Element)
    → find_by_key k (e ∷ ll) ≡ none
    → equal (split_back e ll).1.key k ≡ false
unfolding split_back find_by_key
back_key k e [] h = ground arith
back_key k e (x ∷ ll) h = ground (arith, back_key k x ll)

-- Dropping the last element drops its key, and no other.
pub find_by_key-split_back :
    (j : Bytes) (e : Element) (ll : List Element)
    → Distinct (e ∷ ll)
    → find_by_key j (split_back e ll).0
      ≡ (if equal (split_back e ll).1.key j then none else find_by_key j (e ∷ ll))
unfolding split_back find_by_key
find_by_key-split_back j e [] d = ground arith
find_by_key-split_back j e (x ∷ ll) (apart, fresh, d) = ground (
  arith,
  find_by_key-split_back j x ll d,
  back_key e.key x ll fresh,
  equal_iff e.key j,
  equal_iff (split_back x ll).1.key j,
  equal_iff (split_back x ll).1.key e.key,
)
