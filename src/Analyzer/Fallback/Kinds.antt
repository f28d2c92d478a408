-- ===== src/Analyzer/Fallback/Kinds.antt =====
-- The kind of a statement and the measures of analyzer/fallback.go. Their input is free of
-- comments, and but for `leading_wildcard_term_len` of the contents of literals.
use sqlguard.Prelude.{
  ℕ, ◌+◌, ◌-◌, ◌*◌, ◌^◌, max, Bool, true, false, not, ◌&&◌, ◌||◌, List, [], ◌∷◌, Option, none, some,
  Bytes, codes, length, take, drop, ltb, ◌==◌, equal, if◌then◌else◌,
}
use sqlguard.Analyzer.Types.{
  StmtKind, stmt_select, stmt_insert, stmt_update, stmt_delete, stmt_other,
}
use sqlguard.Analyzer.Lexer.Cases.{to_upper}
use sqlguard.Analyzer.Lexer.Space.{trim_space}
use sqlguard.Analyzer.Lexer.Union.{has_byte}
use sqlguard.Analyzer.Pattern.{Match, find, find_all, matches, slice, submatch, group_text}
use sqlguard.Analyzer.Fallback.Patterns.{
  keyword, all_of, any_of, fb_like_literal_re, fb_into_re, fb_insert_data_re, fb_lead_kind_re,
  fb_lead_insert_like_re, fb_insert_head_re, fb_insert_like_word_re, fb_dml_word_re, fb_in_list_re,
  fb_subquery_start_re, fb_offset_re, fb_limit_offset_re,
}
use sqlguard.Analyzer.Fallback.Parens.{paren_content, split_top_level_commas}
use sqlguard.Analyzer.Fallback.Regions.{is_empty}

-- The switch on the first keyword of the text, in upper case.
abbrev dml_kind : Bytes → Option StmtKind
dml_kind w =
    if equal w (codes "INSERT")
    then some stmt_insert
    else if equal w (codes "UPDATE")
    then some stmt_update
    else if equal w (codes "DELETE")
    then some stmt_delete
    else none

abbrev insert_like_kind : Bytes → StmtKind
insert_like_kind sanitized =
    if matches fb_insert_like_word_re sanitized then stmt_insert else stmt_select

-- The main statement behind a `WITH`.
unfoldable pub with_kind : Bytes → Option Match → StmtKind
unfolding matches to_upper equal keyword all_of any_of
with_kind sanitized none = insert_like_kind sanitized
with_kind sanitized (some m) = elim (dml_kind (to_upper (slice m.lo m.hi sanitized))) [
  | none ↦ insert_like_kind sanitized
  | some kind ↦ kind
]

unfoldable pub lead_kind : Bytes → Option Match → StmtKind
unfolding with_kind matches find group_text to_upper equal keyword all_of any_of
lead_kind sanitized none =
    if matches fb_lead_insert_like_re sanitized then stmt_insert else stmt_other
lead_kind sanitized (some m) =
    let w = to_upper (submatch 1 m sanitized) in
    if equal w (codes "SELECT") then stmt_select else elim (dml_kind w) [
      | some kind ↦ kind
      | none ↦
          if equal w (codes "WITH")
          then with_kind sanitized (find fb_dml_word_re sanitized)
          else stmt_other
    ]

unfoldable pub detect_kind : Bytes → StmtKind
unfolding lead_kind find keyword all_of any_of
detect_kind sanitized = lead_kind sanitized (find fb_lead_kind_re sanitized)

-- The text behind the head of an INSERT, or behind its INTO.
abbrev behind : Bytes → Option Match → Option Bytes
behind s none = none
behind s (some m) = some (drop m.hi s)

unfoldable pub insert_target : Bytes → Option Bytes
unfolding find keyword all_of any_of
insert_target sanitized = elim (behind sanitized (find fb_insert_head_re sanitized)) [
  | some rest ↦ some rest
  | none ↦ behind sanitized (find fb_into_re sanitized)
]

unfoldable pub columns_before : Bytes → Option Match → Bool
unfolding trim_space to_upper equal has_byte
columns_before rest none = true
columns_before rest (some clause) =
    let w = to_upper (trim_space (slice clause.lo clause.hi rest)) in
    if equal w (codes "SET") || equal w (codes "DEFAULT")
    then true
    else has_byte b'(' (take clause.lo rest)

unfoldable pub insert_columns_listed : Bytes → Bool
unfolding insert_target columns_before find keyword all_of any_of
insert_columns_listed sanitized = elim (insert_target sanitized) [
  | none ↦ true
  | some rest ↦ columns_before rest (find fb_insert_data_re rest)
]

-- `strings.Trim(s, "%")`.
unfoldable pub trim_percent_left : Bytes → Bytes
trim_percent_left [] = []
trim_percent_left (c ∷ s) = if c == b'%' then trim_percent_left s else c ∷ s

unfoldable pub trim_percent_right : Bytes → Bytes
trim_percent_right [] = []
trim_percent_right (c ∷ s) =
    let kept = trim_percent_right s in if is_empty kept && c == b'%' then [] else c ∷ kept

abbrev opens_percent : Bytes → Bool
opens_percent [] = false
opens_percent (c ∷ _) = c == b'%'

unfoldable pub longest_term : Bytes → List Match → ℕ
unfolding trim_space trim_percent_left trim_percent_right group_text
longest_term s [] = 0
longest_term s (m ∷ ms) =
    let body = trim_space (submatch 1 m s) in
    let later = longest_term s ms in
    if not (opens_percent body)
    then later
    else max (length (trim_percent_right (trim_percent_left body))) later

unfoldable pub leading_wildcard_term_len : Bytes → ℕ
unfolding longest_term find_all keyword all_of
leading_wildcard_term_len no_comments =
    longest_term no_comments (find_all fb_like_literal_re no_comments)

-- The elements of one IN list, 0 for what is not counted.
unfoldable pub in_list_len : Option Bytes → ℕ
unfolding trim_space matches split_top_level_commas keyword all_of any_of
in_list_len none = 0
in_list_len (some inner) =
    if is_empty (trim_space inner) || matches fb_subquery_start_re (trim_space inner)
    then 0
    else length (split_top_level_commas inner)

unfoldable pub longest_in_list : Bytes → List Match → ℕ
unfolding in_list_len paren_content
longest_in_list s [] = 0
longest_in_list s (loc ∷ locs) =
    max (in_list_len (paren_content s (loc.hi - 1))) (longest_in_list s locs)

unfoldable pub max_in_list_len : Bytes → ℕ
unfolding longest_in_list find_all keyword all_of
max_in_list_len sanitized = longest_in_list sanitized (find_all fb_in_list_re sanitized)

-- `strconv.Atoi` of a run of digits, none out of the range of int.
unfoldable pub decimal : ℕ → Bytes → ℕ
decimal n [] = n
decimal n (c ∷ s) = decimal (n * 10 + (c - b'0')) s

abbrev pub atoi : Bytes → Option ℕ
atoi s = let n = decimal 0 s in if ltb n (2 ^ 63) then some n else none

unfoldable pub consider : Bytes → ℕ → List Match → ℕ
unfolding decimal group_text
consider s most [] = most
consider s most (m ∷ ms) = elim (atoi (submatch 1 m s)) [
  | none ↦ consider s most ms
  | some n ↦ consider s (if ltb most n then n else most) ms
]

unfoldable pub max_offset : Bytes → ℕ
unfolding consider find_all keyword all_of
max_offset sanitized =
    consider sanitized (consider sanitized 0 (find_all fb_offset_re sanitized))
      (find_all fb_limit_offset_re sanitized)
