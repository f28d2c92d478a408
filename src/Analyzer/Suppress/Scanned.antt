-- ===== src/Analyzer/Suppress/Scanned.antt =====
-- `ParseIgnoreComment` of analyzer/suppress.go, which the static scanner applies to a comment of Go
-- source.
use sqlguard.Prelude.{
  lookup, Bool-cases, inl, inr, ◌≡◌, refl, Bool, true, false, not, ◌&&◌, ◌||◌, List, [], ◌∷◌,
  Option, none, some, Bytes, arith, Map, insert, has, has-insert, equal, if◌then◌else◌,
}
use sqlguard.Analyzer.Lexer.Space.{trim_space}
use sqlguard.Analyzer.Suppress.{
  Directive, Match, find_matches, split_commas, add_names, apply_matches, in_any_spans,
}
use sqlguard.Analyzer.Suppress.Intersect.{suppresses}

abbrev pub first_token : Bytes → Option Match
first_token text = elim (find_matches 0 0 text) [ [] ↦ none | m ∷ _ ↦ some m ]

-- The directive of the first token, none without one.
unfoldable pub parse_ignore_comment : Bytes → Option Directive
unfolding find_matches equal split_commas add_names
parse_ignore_comment text = elim (first_token text) [
  | none ↦ none
  | some m ↦
      if equal m.list_text []
      then some (record { all = true; rules = [] })
      else some (record { all = false; rules = add_names (split_commas [] m.list_text) [] })
]

-- One of the pieces, trimmed, is the name; an empty piece names nothing.
unfoldable pub is_named : Bytes → List Bytes → Bool
unfolding trim_space equal
is_named name [] = false
is_named name (piece ∷ pieces) =
    (not (equal (trim_space piece) []) && equal (trim_space piece) name) || is_named name pieces

has-add_names :
    (name : Bytes) (names : List Bytes) (rules : Map Bool)
    → has (add_names names rules) name ≡ (is_named name names || has rules name)
unfolding add_names is_named
has-add_names name [] rules = refl
has-add_names name (piece ∷ names) rules = ground (
  arith,
  has-add_names name names rules,
  has-add_names name names (insert (trim_space piece) true rules),
  has-insert (trim_space piece) name rules,
)

-- What the directive of a comment suppresses.
abbrev pub silences : Option Directive → Bytes → Bool
silences none name = false
silences (some d) name = suppresses d name

abbrev pub token_silences : Option Match → Bytes → Bool
token_silences none name = false
token_silences (some m) name = equal m.list_text [] || is_named name (split_commas [] m.list_text)

abbrev pub query_directive : Option Match → Option Directive
query_directive none = none
query_directive (some m) = some (apply_matches [] (m ∷ []) [])

-- A comment of Go source gives the directive that a query gives for the first token of the same
-- text where no literal hides it, and none without a token; and it suppresses a rule exactly if that
-- token has no list, or the rule's name, trimmed, is one of the pieces of its list.
pub parse_ignore_comment_lem :
    (text name : Bytes)
    → (parse_ignore_comment text ≡ query_directive (first_token text))
      × (silences (parse_ignore_comment text) name ≡ token_silences (first_token text) name)
unfolding parse_ignore_comment apply_matches in_any_spans has lookup
parse_ignore_comment_lem text name = go (first_token text)
  where
    directive : Option Match → Option Directive
    directive o = elim o [
      | none ↦ none
      | some m ↦
          if equal m.list_text []
          then some (record { all = true; rules = [] })
          else some (record { all = false; rules = add_names (split_commas [] m.list_text) [] })
    ]

    go :
        (o : Option Match)
        → (directive o ≡ query_directive o) × (silences (directive o) name ≡ token_silences o name)
    go none = (refl, refl)
    go (some m) = elim (Bool-cases (equal m.list_text [])) [
      | inl bare ↦ rw bare (refl, refl)
      | inr list ↦
          rw list (refl, ground (arith, has-add_names name (split_commas [] m.list_text) []))
    ]
