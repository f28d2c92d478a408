-- ===== src/Middleware/Cache/Points.antt =====
-- The pointers of middleware/cache.go from its map to its list.
use sqlguard.Prelude.{
  ℕ, ◌<◌, ◌≤◌, ◌≢◌, ◌≡◌, refl, sym, ◌∙◌, subst, Bool-cases, List, [], ◌∷◌, some, inl, inr, Bytes,
  Map, lookup, insert, equal, equal_iff, ◌==◌, All, arith,
}
use sqlguard.Analyzer.Types.{Result}
use sqlguard.Middleware.Cache.{Element, find, remove, split_back, forget}

-- An address in the map was allocated, and an element that it leads to has the map's key.
abbrev pub Points : List Element → ℕ → Bytes × ℕ → Type 0
Points ll next (key, a) = (a < next) × ((e : Element) → find a ll ≡ some e → e.key ≡ key)

pub some-injective : {x y : Element} → some x ≡ some y → x ≡ y
some-injective e = cc

abbrev pub Holds : (Bytes → List Result) → List Element → Type 0
Holds f ll = All (λ (e : Element). e.results ≡ f e.key) ll

pub find-Holds :
    (f : Bytes → List Result) (a : ℕ) (ll : List Element) (e : Element)
    → Holds f ll
    → find a ll ≡ some e
    → (e.results ≡ f e.key) × (e.address ≡ a)
unfolding find
find-Holds f a [] e h k = ground arith
find-Holds f a (x ∷ ll) e (hx, h) k = elim (Bool-cases (x.address == a)) [
  | inl same ↦
      let there : some x ≡ some e = rw same at k in
      let at : x.address ≡ a = ground arith in
      subst (λ (y : Element). (y.results ≡ f y.key) × (y.address ≡ a)) (some-injective there)
        (hx, at)
  | inr other ↦ let further : find a ll ≡ some e = rw other at k in find-Holds f a ll e h further
]

pub remove-Holds :
    (f : Bytes → List Result) (a : ℕ) (ll : List Element) → Holds f ll → Holds f (remove a ll)
unfolding remove
remove-Holds f a [] h = h
remove-Holds f a (x ∷ ll) (hx, h) = ground (arith, remove-Holds f a ll h)

pub find-remove : (a b : ℕ) (ll : List Element) → a ≢ b → find b (remove a ll) ≡ find b ll
unfolding find remove
find-remove a b [] h = refl
find-remove a b (x ∷ ll) h = ground (arith, find-remove a b ll h)

pub split_back-Holds :
    (f : Bytes → List Result) (e : Element) (ll : List Element)
    → Holds f (e ∷ ll)
    → Holds f (split_back e ll).0
unfolding split_back
split_back-Holds f e [] h = tt
split_back-Holds f e (x ∷ ll) (he, h) = (he, split_back-Holds f x ll h)

pub find-split_back :
    (a : ℕ) (e x : Element) (ll : List Element)
    → find a (split_back e ll).0 ≡ some x
    → find a (e ∷ ll) ≡ some x
unfolding split_back find
find-split_back a e x [] h = ground arith
find-split_back a e x (e' ∷ ll) h = ground (arith, find-split_back a e' x ll)

pub lookup-Points :
    (ll : List Element) (next : ℕ) (q : Bytes) (a : ℕ) (items : Map ℕ)
    → All (Points ll next) items
    → lookup q items ≡ some a
    → Points ll next (q, a)
unfolding lookup
lookup-Points ll next q a [] h k = ground arith
lookup-Points ll next q a ((other, b) ∷ items) (hb, h) k = elim (Bool-cases (equal other q)) [
  | inl same ↦
      let there : some b ≡ some a = rw same at k in
      let names : other ≡ q = (equal_iff other q).0 same in
      let places : b ≡ a = cc in subst (λ (p : Bytes × ℕ). Points ll next p) (cc) hb
  | inr differ ↦
      let further : lookup q items ≡ some a = rw differ at k in
      lookup-Points ll next q a items h further
]

pub insert-Points :
    (ll : List Element) (next : ℕ) (q : Bytes) (a : ℕ) (items : Map ℕ)
    → All (Points ll next) items
    → Points ll next (q, a)
    → All (Points ll next) (insert q a items)
unfolding insert
insert-Points ll next q a [] h p = (p, tt)
insert-Points ll next q a ((other, b) ∷ items) (hb, h) p = elim (Bool-cases (equal other q)) [
  | inl same ↦ rw same (p, h)
  | inr differ ↦ rw differ (hb, insert-Points ll next q a items h p)
]

pub forget-Points :
    (ll : List Element) (next : ℕ) (q : Bytes) (items : Map ℕ)
    → All (Points ll next) items
    → All (Points ll next) (forget q items)
unfolding forget
forget-Points ll next q [] h = tt
forget-Points ll next q ((other, b) ∷ items) (hb, h) = elim (Bool-cases (equal other q)) [
  | inl same ↦ rw same (forget-Points ll next q items h)
  | inr differ ↦ rw differ (hb, forget-Points ll next q items h)
]

-- Points survive where every element that is found was found before, with its key.
pub Points-change :
    (ll ll' : List Element) (next next' : ℕ)
    → next ≤ next'
    → ((a : ℕ) (e : Element)
        → a < next
        → find a ll' ≡ some e
        → (e' : Element) × ((find a ll ≡ some e') × (e'.key ≡ e.key)))
    → (items : Map ℕ) → All (Points ll next) items
    → All (Points ll' next') items
Points-change ll ll' next next' le old [] h = tt
Points-change ll ll' next next' le old ((key, a) ∷ items) ((lt, p), h) = (
  (omega arith, λ e k. let (e', (k', same)) = old a e lt k in sym same ∙ p e' k'),
  Points-change ll ll' next next' le old items h,
)
