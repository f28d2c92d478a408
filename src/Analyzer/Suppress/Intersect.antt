-- ===== src/Analyzer/Suppress/Intersect.antt =====
-- What two readings suppress together (`intersectDirectives` in analyzer/suppress.go).
use sqlguard.Prelude.{
  ◌≡◌, refl, Bool, true, ◌&&◌, ◌||◌, List, [], ◌∷◌, Bytes, arith, Map, insert, has, has-insert,
  has-cons, equal, equal_iff, Bool-cases, inl, inr,
}
use sqlguard.Analyzer.Lexer.Space.{trim_space}
use sqlguard.Analyzer.Lexer.Spans.{Span}
use sqlguard.Analyzer.Suppress.{
  Directive, Match, keep_common, intersect_directives, add_names, apply_matches, comment_directive,
  split_commas, all_literals,
}

-- The directive switches the named rule off.
abbrev pub suppresses : Directive → Bytes → Bool
suppresses d name = d.all || has d.rules name

-- Every value is true: the map is a set of names.
abbrev pub IsNames : Map Bool → Type 0
IsNames [] = Unit
IsNames ((name, v) ∷ m) = (v ≡ true) × IsNames m

has-keep_common :
    (a b : Map Bool) (name : Bytes)
    → IsNames a
    → has (keep_common a b) name ≡ (has a name && has b name)
has-keep_common [] b name h = unfold has in refl
has-keep_common ((k, v) ∷ a) b name (e, h) = ground (
  arith,
  has-keep_common a b name h,
  has-insert k name (keep_common a b),
  has-cons k name v a,
  equal_iff k name,
)

IsNames-insert : (k : Bytes) (m : Map Bool) → IsNames m → IsNames (insert k true m)
unfolding insert
IsNames-insert k [] h = ground arith
IsNames-insert k ((j, v) ∷ m) (e, h) = ground (arith, IsNames-insert k m h)

IsNames-add_names : (names : List Bytes) (m : Map Bool) → IsNames m → IsNames (add_names names m)
unfolding add_names
IsNames-add_names [] m h = h
IsNames-add_names (n ∷ names) m h = elim (Bool-cases (equal (trim_space n) [])) [
  | inl blank ↦ rw blank (IsNames-add_names names m h)
  | inr word ↦
      rw word
        (IsNames-add_names names (insert (trim_space n) true m) (IsNames-insert (trim_space n) m h))
]

IsNames-apply_matches :
    (ms : List Match) (literals : List (List Span)) (m : Map Bool)
    → IsNames m
    → IsNames (apply_matches literals ms m).rules
unfolding apply_matches
IsNames-apply_matches [] literals m h = h
IsNames-apply_matches (x ∷ ms) literals m h =
    let named = IsNames-add_names (split_commas [] x.list_text) m h in
    ground (
      arith,
      IsNames-apply_matches ms literals m h,
      IsNames-apply_matches ms literals (add_names (split_commas [] x.list_text) m) named,
    )

pub IsNames-comment_directive :
    (sql : Bytes) (backslash dollar : Bool) → IsNames (comment_directive sql backslash dollar).rules
unfolding comment_directive
IsNames-comment_directive sql backslash dollar =
    IsNames-apply_matches _ (all_literals sql backslash dollar) [] tt

IsNames-keep_common : (a b : Map Bool) → IsNames (keep_common a b)
IsNames-keep_common [] b = tt
IsNames-keep_common ((k, v) ∷ a) b =
    ground (arith, IsNames-keep_common a b, IsNames-insert k (keep_common a b))

-- A rule is suppressed by the intersection of two directives, the first of which holds no empty
-- name, exactly if both suppress it.
pub intersect_directives_lem :
    (a b : Directive) (name : Bytes)
    → IsNames a.rules
    → suppresses (intersect_directives a b) name ≡ (suppresses a name && suppresses b name)
unfolding intersect_directives
intersect_directives_lem a b name h = ground (arith, has-keep_common a.rules b.rules name h)

pub intersect_directives-IsNames :
    (a b : Directive) → IsNames a.rules → IsNames b.rules → IsNames (intersect_directives a b).rules
unfolding intersect_directives
intersect_directives-IsNames a b h k = ground (arith, IsNames-keep_common a.rules b.rules)
