-- ===== src/Analyzer/Pattern.antt =====
-- The part of Go's regexp package that analyzer/fallback.go and cmd/sqlguard/ use: leftmost-first matching, of
-- patterns that never match the empty text. A negated class of ASCII bytes is read byte by byte,
-- which finds the same matches as reading it by runes.
pub mod Bounds
use sqlguard.Prelude.{
  ℕ, zero, suc, ◌+◌, ◌-◌, Bool, true, false, not, ◌&&◌, ◌||◌, List, [], ◌∷◌, ◌++◌, Option, none,
  some, Bytes, length, take, drop, leb, ltb, ◌==◌, if◌then◌else◌,
}

-- The width of a character of a class at the front of a text, or 0.
abbrev pub Class : Type 0
Class = Bytes → ℕ

pub data Pattern : Type 0 where
  empty : Pattern
  char : Class → Pattern
  seq : Pattern → Pattern → Pattern
  alt : Pattern → Pattern → Pattern
  opt : Pattern → Pattern
  many : Class → Pattern
  repeat : Pattern → Pattern
  boundary : Pattern
  start : Pattern
  group : ℕ → Pattern → Pattern

-- A match under way: its index, the byte before it, the bytes behind, and the groups closed so far.
pub record Thread : Type 0 where
  pub index : ℕ
  pub prev : Option ℕ
  pub rest : Bytes
  pub groups : List (ℕ × ℕ × ℕ)

unfoldable pub advance : ℕ → Thread → Thread
advance zero t = t
advance (suc n) t = elim (t.rest) [
  | [] ↦ t
  | c ∷ cs ↦ advance n (record t { index = suc t.index; prev = some c; rest = cs })
]

-- `[0-9A-Za-z_]`, the bytes of `\b`.
abbrev pub is_word : ℕ → Bool
is_word c =
    (leb b'0' c && leb c b'9')
    || (leb b'A' c && leb c b'Z')
    || (leb b'a' c && leb c b'z')
    || c == b'_'

abbrev word_before : Option ℕ → Bool
word_before none = false
word_before (some c) = is_word c

abbrev word_behind : Bytes → Bool
word_behind [] = false
word_behind (c ∷ _) = is_word c

abbrev at_boundary : Thread → Bool
at_boundary t = if word_before t.prev then not (word_behind t.rest) else word_behind t.rest

abbrev at_start : Option ℕ → Bool
at_start none = true
at_start (some _) = false

-- A greedy star of one character, the longest run first; the fuel is the text's length.
unfoldable pub run_many : ℕ → Class → Thread → List Thread
unfolding advance
run_many zero w t = t ∷ []
run_many (suc fuel) w t =
    let longer = run_many fuel w (advance (w t.rest) t) in
    if w t.rest == 0 then t ∷ [] else longer ++ (t ∷ [])

unfoldable pub bind_all : (Thread → List Thread) → List Thread → List Thread
bind_all f [] = []
bind_all f (t ∷ ts) = f t ++ bind_all f ts

-- A greedy star of a pattern that never matches the empty text, likewise.
unfoldable pub run_repeat : ℕ → (Thread → List Thread) → Thread → List Thread
unfolding bind_all
run_repeat zero f t = t ∷ []
run_repeat (suc fuel) f t = bind_all (run_repeat fuel f) (f t) ++ (t ∷ [])

abbrev close_group : ℕ → ℕ → Thread → Thread
close_group n lo t = record t { groups = (n, lo, t.index) ∷ t.groups }

unfoldable pub close_groups : ℕ → ℕ → List Thread → List Thread
close_groups n lo [] = []
close_groups n lo (t ∷ ts) = close_group n lo t ∷ close_groups n lo ts

-- Every way to go on from a thread, in the order of preference.
unfoldable pub runs : Pattern → Thread → List Thread
unfolding advance run_many run_repeat bind_all close_groups
runs empty t = t ∷ []
runs (char w) t = if w t.rest == 0 then [] else advance (w t.rest) t ∷ []
runs (seq p q) t = bind_all (runs q) (runs p t)
runs (alt p q) t = runs p t ++ runs q t
runs (opt p) t = runs p t ++ (t ∷ [])
runs (many w) t = run_many (length t.rest) w t
runs (repeat p) t = run_repeat (length t.rest) (runs p) t
runs boundary t = if at_boundary t then t ∷ [] else []
runs start t = if at_start t.prev then t ∷ [] else []
runs (group n p) t = close_groups n t.index (runs p t)

-- A match: its range and its groups.
pub record Match : Type 0 where
  pub lo : ℕ
  pub hi : ℕ
  pub groups : List (ℕ × ℕ × ℕ)

abbrev pub first_match : ℕ → List Thread → Option Match
first_match lo [] = none
first_match lo (t ∷ _) = some (record { lo = lo; hi = t.index; groups = t.groups })

abbrev pub thread : ℕ → Option ℕ → Bytes → Thread
thread i prev rest = record { index = i; prev = prev; rest = rest; groups = [] }

unfoldable pub match_at : Pattern → ℕ → Option ℕ → Bytes → Option Match
unfolding runs
match_at p i prev rest = first_match i (runs p (thread i prev rest))

-- `FindAllStringSubmatchIndex`: below `until`, the bytes of the last match are passed over.
unfoldable pub find_all_from : Pattern → Option ℕ → ℕ → ℕ → Bytes → List Match
unfolding match_at
find_all_from p prev i until [] = []
find_all_from p prev i until (c ∷ rest) =
    let on = λ (bound : ℕ). find_all_from p (some c) (suc i) bound rest in
    elim (ltb i until) [
      | true ↦ on until
      | false ↦ elim (match_at p i prev (c ∷ rest)) [ none ↦ on until | some m ↦ m ∷ on m.hi ]
    ]

unfoldable pub find_all : Pattern → Bytes → List Match
unfolding find_all_from
find_all p s = find_all_from p none 0 0 s

abbrev pub head? : List Match → Option Match
head? [] = none
head? (m ∷ _) = some m

-- `FindStringSubmatchIndex`.
unfoldable pub find : Pattern → Bytes → Option Match
unfolding find_all
find p s = head? (find_all p s)

abbrev is_found : Option Match → Bool
is_found none = false
is_found (some _) = true

-- `MatchString`.
unfoldable pub matches : Pattern → Bytes → Bool
unfolding find
matches p s = is_found (find p s)

-- `s[lo:hi]`.
abbrev pub slice : ℕ → ℕ → Bytes → Bytes
slice lo hi s = take (hi - lo) (drop lo s)

-- The text of a group, empty if it took no part.
unfoldable pub group_text : ℕ → List (ℕ × ℕ × ℕ) → Bytes → Bytes
group_text n [] s = []
group_text n ((k, lo, hi) ∷ groups) s =
    let older = group_text n groups s in if k == n then slice lo hi s else older

abbrev pub submatch : ℕ → Match → Bytes → Bytes
submatch n m s = group_text n m.groups s
