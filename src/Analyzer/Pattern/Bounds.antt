-- ===== src/Analyzer/Pattern/Bounds.antt =====
-- Where the matches of a pattern lie.
use sqlguard.Prelude.{
  ℕ, zero, suc, max, ◌+◌, ◌≤◌, ◌<◌, ◌≡◌, refl, ap, subst, true, false, Bool-cases, Option-cases,
  inl, inr, List, [], ◌∷◌, ◌++◌, Option, none, some, Bytes, length, All, ltb, ◌==◌, arith,
}
use sqlguard.Analyzer.Pattern.{
  Class, Pattern, empty, char, seq, alt, opt, many, repeat, boundary, start, group, Thread, advance,
  run_many, bind_all, run_repeat, close_groups, runs, Match, thread, first_match, match_at,
  find_all_from, find_all, at_boundary, at_start,
}

-- A thread goes on in the same text: nothing is lost between the index and the bytes behind.
abbrev Follows : Thread → Thread → Type 0
Follows t u = (t.index ≤ u.index) × (u.index + length u.rest ≡ t.index + length t.rest)

advance-Follows : (n : ℕ) (t : Thread) → Follows t (advance n t)
unfolding advance
advance-Follows zero t = omega arith
advance-Follows (suc n) t = go t.rest refl (advance-Follows n)
  where
    go :
        (rest : Bytes)
        → t.rest ≡ rest
        → ((u : Thread) → Follows u (advance n u))
        → Follows t (advance (suc n) t)
    go [] e further = rw e (omega arith)
    go (c ∷ cs) e further =
        let on = further (record t { index = suc t.index; prev = some c; rest = cs }) in
        rw e (omega (arith, on, ap (λ (s : Bytes). length s) e))

All-append {ℓ} :
    {A : Type 0} (P : A → Type ℓ) (xs ys : List A) → All P xs → All P ys → All P (xs ++ ys)
All-append P [] ys hx hy = hy
All-append P (x ∷ xs) ys (h, hs) hy = (h, All-append P xs ys hs hy)

Follows-trans :
    (t u : Thread) (ts : List Thread) → Follows t u → All (Follows u) ts → All (Follows t) ts
Follows-trans t u [] h hs = tt
Follows-trans t u (v ∷ ts) h (hv, hs) = (omega (arith, h, hv), Follows-trans t u ts h hs)

bind_all-Follows :
    (t : Thread) (f : Thread → List Thread)
    → ((u : Thread) → All (Follows u) (f u))
    → (us : List Thread) → All (Follows t) us
    → All (Follows t) (bind_all f us)
unfolding bind_all
bind_all-Follows t f h [] hs = tt
bind_all-Follows t f h (u ∷ us) (hu, hs) =
    All-append (Follows t) (f u) (bind_all f us) (Follows-trans t u (f u) hu (h u))
      (bind_all-Follows t f h us hs)

run_many-Follows : (fuel : ℕ) (w : Class) (t : Thread) → All (Follows t) (run_many fuel w t)
unfolding run_many
run_many-Follows zero w t = (omega arith, tt)
run_many-Follows (suc fuel) w t = elim (Bool-cases (w t.rest == 0)) [
  | inl stop ↦ rw stop (omega arith, tt)
  | inr on ↦
      let u = advance (w t.rest) t in
      rw on (
        All-append (Follows t) (run_many fuel w u) (t ∷ [])
          (Follows-trans t u (run_many fuel w u) (advance-Follows (w t.rest) t)
            (run_many-Follows fuel w u))
          (omega arith, tt))
]

run_repeat-Follows :
    (fuel : ℕ) (f : Thread → List Thread)
    → ((u : Thread) → All (Follows u) (f u))
    → (t : Thread) → All (Follows t) (run_repeat fuel f t)
unfolding run_repeat
run_repeat-Follows zero f h t = (omega arith, tt)
run_repeat-Follows (suc fuel) f h t =
    All-append (Follows t) (bind_all (run_repeat fuel f) (f t)) (t ∷ [])
      (bind_all-Follows t (run_repeat fuel f) (run_repeat-Follows fuel f h) (f t) (h t))
      (omega arith, tt)

close_groups-Follows :
    (t : Thread) (n lo : ℕ) (us : List Thread)
    → All (Follows t) us
    → All (Follows t) (close_groups n lo us)
unfolding close_groups
close_groups-Follows t n lo [] h = tt
close_groups-Follows t n lo (u ∷ us) (h, hs) = (h, close_groups-Follows t n lo us hs)

runs-Follows : (p : Pattern) (t : Thread) → All (Follows t) (runs p t)
unfolding runs
runs-Follows empty t = (omega arith, tt)
runs-Follows (char w) t = elim (Bool-cases (w t.rest == 0)) [
  | inl out ↦ rw out tt
  | inr on ↦ rw on (advance-Follows (w t.rest) t, tt)
]
runs-Follows (seq p q) t =
    bind_all-Follows t (runs q) (runs-Follows q) (runs p t) (runs-Follows p t)
runs-Follows (alt p q) t =
    All-append (Follows t) (runs p t) (runs q t) (runs-Follows p t) (runs-Follows q t)
runs-Follows (opt p) t =
    All-append (Follows t) (runs p t) (t ∷ []) (runs-Follows p t) (omega arith, tt)
runs-Follows (many w) t = run_many-Follows (length t.rest) w t
runs-Follows (repeat p) t = run_repeat-Follows (length t.rest) (runs p) (runs-Follows p) t
runs-Follows boundary t = elim (Bool-cases (at_boundary t)) [
  | inl here ↦ rw here (omega arith, tt)
  | inr out ↦ rw out tt
]
runs-Follows start t = elim (Bool-cases (at_start t.prev)) [
  | inl here ↦ rw here (omega arith, tt)
  | inr out ↦ rw out tt
]
runs-Follows (group n p) t = close_groups-Follows t n t.index (runs p t) (runs-Follows p t)

first_match_bounds :
    (t : Thread) (ts : List Thread) (m : Match)
    → All (Follows t) ts
    → first_match t.index ts ≡ some m
    → (m.lo ≡ t.index) × (t.index ≤ m.hi) × (m.hi ≤ t.index + length t.rest)
first_match_bounds t [] m h e = ground arith
first_match_bounds t (u ∷ us) m (h, hs) e =
    let it : record { lo = t.index; hi = u.index; groups = u.groups } ≡ m = cc in
    subst (λ (m : Match). (m.lo ≡ t.index) × (t.index ≤ m.hi) × (m.hi ≤ t.index + length t.rest)) it
      (refl, h.0, omega (arith, h))

match_at_bounds :
    (p : Pattern) (i : ℕ) (prev : Option ℕ) (rest : Bytes) (m : Match)
    → match_at p i prev rest ≡ some m
    → (m.lo ≡ i) × (i ≤ m.hi) × (m.hi ≤ i + length rest)
unfolding match_at
match_at_bounds p i prev rest m e =
    let t = thread i prev rest in first_match_bounds t (runs p t) m (runs-Follows p t) e

-- Matches of a text that ends at `to`, from an index on: each starts at a byte, ends within the
-- text, and starts neither where one before it starts nor before that one's end.
abbrev pub Ordered : ℕ → ℕ → List Match → Type 0
Ordered from to [] = Unit
Ordered from to (m ∷ ms) =
    (from ≤ m.lo) × (m.lo < to) × (m.lo ≤ m.hi) × (m.hi ≤ to) × Ordered (max (suc m.lo) m.hi) to ms

pub Ordered-weaken : (i j to : ℕ) (ms : List Match) → i ≤ j → Ordered j to ms → Ordered i to ms
Ordered-weaken i j to [] le h = tt
Ordered-weaken i j to (m ∷ ms) le (from, h, k, l, hs) = (omega arith, h, k, l, hs)

find_all_from_skip :
    (p : Pattern) (prev : Option ℕ) (i until c : ℕ) (rest : Bytes)
    → ltb i until ≡ true
    → find_all_from p prev i until (c ∷ rest) ≡ find_all_from p (some c) (suc i) until rest
unfolding find_all_from
find_all_from_skip p prev i until c rest h = rw (h, find_all_from)

find_all_from_miss :
    (p : Pattern) (prev : Option ℕ) (i until c : ℕ) (rest : Bytes)
    → ltb i until ≡ false
    → match_at p i prev (c ∷ rest) ≡ none
    → find_all_from p prev i until (c ∷ rest) ≡ find_all_from p (some c) (suc i) until rest
unfolding find_all_from
find_all_from_miss p prev i until c rest h k = rw (h, k, find_all_from)

find_all_from_hit :
    (p : Pattern) (prev : Option ℕ) (i until c : ℕ) (rest : Bytes) (m : Match)
    → ltb i until ≡ false
    → match_at p i prev (c ∷ rest) ≡ some m
    → find_all_from p prev i until (c ∷ rest) ≡ m ∷ find_all_from p (some c) (suc i) m.hi rest
unfolding find_all_from
find_all_from_hit p prev i until c rest m h k = rw (h, k, find_all_from)

find_all_from-Ordered :
    (p : Pattern) (prev : Option ℕ) (from i until to : ℕ) (rest : Bytes)
    → from ≤ max i until
    → i + length rest ≡ to
    → Ordered from to (find_all_from p prev i until rest)
find_all_from-Ordered p prev from i until to [] h e = unfold find_all_from in tt
find_all_from-Ordered p prev from i until to (c ∷ rest) h e = elim (Bool-cases (ltb i until)) [
  | inl below ↦
      rw (find_all_from_skip p prev i until c rest below)
        (find_all_from-Ordered p (some c) from (suc i) until to rest (ground arith) (omega arith))
  | inr at ↦ elim (Option-cases (match_at p i prev (c ∷ rest))) [
    | inl miss ↦
        rw (find_all_from_miss p prev i until c rest at miss)
          (find_all_from-Ordered p (some c) from (suc i) until to rest (ground arith) (omega arith))
    | inr (m, hit) ↦
        let (lo, hi, within) = match_at_bounds p i prev (c ∷ rest) m hit in
        rw (find_all_from_hit p prev i until c rest m at hit) (
          ground arith,
          omega arith,
          omega arith,
          omega arith,
          find_all_from-Ordered p (some c) (max (suc m.lo) m.hi) (suc i) m.hi to rest (omega arith)
              (omega arith),
        )
  ]
]

-- The matches of any pattern in a text are found in order, do not overlap, and lie within it.
pub find_all-Ordered : (p : Pattern) (s : Bytes) → Ordered 0 (length s) (find_all p s)
unfolding find_all
find_all-Ordered p s = find_all_from-Ordered p none 0 0 0 (length s) s (omega arith) (omega arith)
