-- ===== src/Analyzer/Fallback/Patterns.antt =====
-- The regular expressions of analyzer/fallback.go.
use sqlguard.Prelude.{
  ℕ, ◌+◌, Bool, false, not, ◌&&◌, ◌||◌, List, [], ◌∷◌, Bytes, codes, leb, ◌==◌, if◌then◌else◌,
}
use sqlguard.Analyzer.Pattern.{
  Class, Pattern, empty, char, seq, alt, opt, many, repeat, boundary, start, group, is_word,
}

-- A character that is one byte and passes the test.
abbrev byte_class : (ℕ → Bool) → Class
byte_class p [] = 0
byte_class p (c ∷ _) = if p c then 1 else 0

abbrev is_long_s : ℕ → Bytes → Bool
is_long_s c [] = false
is_long_s c (d ∷ _) = c == 0xc5 && d == 0xbf

abbrev is_kelvin : ℕ → Bytes → Bool
is_kelvin c (d ∷ e ∷ _) = c == 0xe2 && d == 0x84 && e == 0xaa
is_kelvin c _ = false

-- A class of letters, digits and `_` under `(?i)`, where the long s folds to `s` and the Kelvin
-- sign to `k`.
abbrev fold_class : (ℕ → Bool) → Class
fold_class p [] = 0
fold_class p (c ∷ rest) =
    if p c
    then 1
    else if p b's' && is_long_s c rest
    then 2
    else if p b'k' && is_kelvin c rest
    then 3
    else 0

-- A letter under `(?i)`, given in lower case.
abbrev is_letter : ℕ → ℕ → Bool
is_letter n c = c == n || (leb b'a' n && c + 32 == n)

unfoldable pub keyword : Bytes → Pattern
keyword [] = empty
keyword (n ∷ []) = char (fold_class (is_letter n))
keyword (n ∷ name) = seq (char (fold_class (is_letter n))) (keyword name)

unfoldable pub all_of : List Pattern → Pattern
all_of [] = empty
all_of (p ∷ []) = p
all_of (p ∷ ps) = seq p (all_of ps)

unfoldable pub any_of : List Pattern → Pattern
any_of [] = empty
any_of (p ∷ []) = p
any_of (p ∷ ps) = alt p (any_of ps)

-- `\s`.
abbrev is_space : ℕ → Bool
is_space c = c == b' ' || c == 9 || c == 10 || c == 12 || c == 13

abbrev is_quote : ℕ → Bool
is_quote c = c == b'\'' || c == b'"'

abbrev is_paren : ℕ → Bool
is_paren c = c == b'(' || c == b')'

abbrev is_decimal : ℕ → Bool
is_decimal c = leb b'0' c && leb c b'9'

abbrev is_name_start : ℕ → Bool
is_name_start c = is_word c && not (is_decimal c)

abbrev byte : ℕ → Pattern
byte n = char (byte_class (λ c. c == n))

abbrev spaces : Pattern
spaces = many (byte_class is_space)

abbrev some_space : Pattern
some_space = seq (char (byte_class is_space)) spaces

abbrev quote : Pattern
quote = char (byte_class is_quote)

-- `(?i)[a-z_][a-z0-9_]*`.
abbrev name : Pattern
name = seq (char (fold_class is_name_start)) (many (fold_class is_word))

abbrev digits : Pattern
digits = seq (char (byte_class is_decimal)) (many (byte_class is_decimal))

abbrev optional_keyword : Bytes → Pattern
optional_keyword k = opt (all_of (keyword k ∷ some_space ∷ []))

-- `\b...\b` around a keyword.
abbrev word : Bytes → Pattern
word k = all_of (boundary ∷ keyword k ∷ boundary ∷ [])

abbrev words : List Pattern → Pattern
words ps = all_of (boundary ∷ group 1 (any_of ps) ∷ boundary ∷ [])

-- Two keywords with white space between.
abbrev two_words : Bytes → Bytes → Pattern
two_words k l = all_of (keyword k ∷ some_space ∷ keyword l ∷ [])

-- `I?LIKE`.
abbrev like : Pattern
like = seq (opt (keyword (codes "i"))) (keyword (codes "like"))

abbrev pub fb_leading_wildcard_re : Pattern
fb_leading_wildcard_re = all_of (boundary ∷ like ∷ some_space ∷ quote ∷ spaces ∷ byte b'%' ∷ [])

abbrev pub fb_like_literal_re : Pattern
fb_like_literal_re = all_of (
    boundary
    ∷ like
    ∷ some_space
    ∷ quote
    ∷ group 1 (many (byte_class (λ c. not (is_quote c))))
    ∷ quote
    ∷ [])

abbrev pub fb_where_re : Pattern
fb_where_re = word (codes "where")

abbrev pub fb_limit_re : Pattern
fb_limit_re = word (codes "limit")

abbrev pub fb_order_by_re : Pattern
fb_order_by_re = all_of (boundary ∷ two_words (codes "order") (codes "by") ∷ boundary ∷ [])

abbrev pub fb_from_re : Pattern
fb_from_re = word (codes "from")

abbrev pub fb_select_star_re : Pattern
fb_select_star_re = all_of (
    boundary
    ∷ keyword (codes "select")
    ∷ some_space
    ∷ optional_keyword (codes "distinct")
    ∷ opt (all_of (name ∷ spaces ∷ byte b'.' ∷ spaces ∷ []))
    ∷ byte b'*'
    ∷ [])

abbrev pub fb_select_distinct_re : Pattern
fb_select_distinct_re = all_of (
    boundary
    ∷ keyword (codes "select")
    ∷ some_space
    ∷ keyword (codes "distinct")
    ∷ opt (keyword (codes "row"))
    ∷ boundary
    ∷ [])

abbrev pub fb_into_re : Pattern
fb_into_re = word (codes "into")

abbrev pub fb_insert_data_re : Pattern
fb_insert_data_re = words (
    seq (keyword (codes "value")) (opt (keyword (codes "s")))
    ∷ keyword (codes "select")
    ∷ keyword (codes "with")
    ∷ keyword (codes "table")
    ∷ keyword (codes "set")
    ∷ keyword (codes "default")
    ∷ [])

-- `^\s*\(*\s*`.
abbrev statement_start : Pattern
statement_start = all_of (start ∷ spaces ∷ many (byte_class (λ c. c == b'(')) ∷ spaces ∷ [])

abbrev pub fb_lead_kind_re : Pattern
fb_lead_kind_re = all_of (
    statement_start
    ∷ group 1 (
        any_of (
          keyword (codes "select")
          ∷ keyword (codes "insert")
          ∷ keyword (codes "update")
          ∷ keyword (codes "delete")
          ∷ keyword (codes "with")
          ∷ []))
    ∷ boundary
    ∷ [])

abbrev pub fb_insert_mod_re : Pattern
fb_insert_mod_re = repeat (
    seq some_space (
      any_of (
        keyword (codes "low_priority")
        ∷ keyword (codes "delayed")
        ∷ keyword (codes "high_priority")
        ∷ keyword (codes "ignore")
        ∷ [])))

-- `(?:REPLACE|UPSERT)`, the modifiers, `\s+(?:INTO\s+)?[^\s(]`.
abbrev insert_like : Pattern
insert_like = all_of (
    any_of (keyword (codes "replace") ∷ keyword (codes "upsert") ∷ [])
    ∷ fb_insert_mod_re
    ∷ some_space
    ∷ optional_keyword (codes "into")
    ∷ char (byte_class (λ c. not (is_space c || c == b'(')))
    ∷ [])

abbrev pub fb_lead_insert_like_re : Pattern
fb_lead_insert_like_re = seq statement_start insert_like

abbrev pub fb_insert_head_re : Pattern
fb_insert_head_re = all_of (
    statement_start
    ∷ any_of (keyword (codes "insert") ∷ keyword (codes "replace") ∷ keyword (codes "upsert") ∷ [])
    ∷ fb_insert_mod_re
    ∷ boundary
    ∷ [])

abbrev pub fb_insert_like_word_re : Pattern
fb_insert_like_word_re = seq boundary insert_like

abbrev pub fb_dml_word_re : Pattern
fb_dml_word_re =
    words (keyword (codes "insert") ∷ keyword (codes "update") ∷ keyword (codes "delete") ∷ [])

abbrev pub fb_where_region_end_re : Pattern
fb_where_region_end_re = words (
    two_words (codes "group") (codes "by")
    ∷ two_words (codes "order") (codes "by")
    ∷ keyword (codes "having")
    ∷ keyword (codes "limit")
    ∷ keyword (codes "offset")
    ∷ keyword (codes "window")
    ∷ keyword (codes "fetch")
    ∷ two_words (codes "for") (codes "update")
    ∷ [])

abbrev pub fb_func_on_column_re : Pattern
fb_func_on_column_re = all_of (
    boundary
    ∷ group 1 name
    ∷ spaces
    ∷ byte b'('
    ∷ group 2 (many (byte_class (λ c. not (is_paren c))))
    ∷ byte b')'
    ∷ spaces
    ∷ any_of (
        byte b'='
        ∷ seq (byte b'<') (byte b'>')
        ∷ seq (byte b'!') (byte b'=')
        ∷ seq (byte b'<') (byte b'=')
        ∷ seq (byte b'>') (byte b'=')
        ∷ byte b'<'
        ∷ byte b'>'
        ∷ word (codes "like")
        ∷ word (codes "in")
        ∷ word (codes "between")
        ∷ [])
    ∷ [])

abbrev pub fb_arg_ident_re : Pattern
fb_arg_ident_re = char (byte_class is_name_start)

abbrev pub fb_alter_table_re : Pattern
fb_alter_table_re =
    all_of (start ∷ spaces ∷ two_words (codes "alter") (codes "table") ∷ boundary ∷ [])

abbrev pub fb_add_action_re : Pattern
fb_add_action_re = all_of (
    boundary
    ∷ keyword (codes "add")
    ∷ some_space
    ∷ optional_keyword (codes "column")
    ∷ group 1 (seq (char (fold_class is_word)) (many (fold_class is_word)))
    ∷ [])

abbrev pub fb_not_null_re : Pattern
fb_not_null_re = all_of (boundary ∷ two_words (codes "not") (codes "null") ∷ boundary ∷ [])

abbrev pub fb_default_re : Pattern
fb_default_re = word (codes "default")

abbrev pub fb_from_region_end_re : Pattern
fb_from_region_end_re = words (
    keyword (codes "where")
    ∷ two_words (codes "group") (codes "by")
    ∷ two_words (codes "order") (codes "by")
    ∷ keyword (codes "having")
    ∷ keyword (codes "limit")
    ∷ keyword (codes "offset")
    ∷ keyword (codes "window")
    ∷ keyword (codes "fetch")
    ∷ keyword (codes "for")
    ∷ keyword (codes "union")
    ∷ keyword (codes "except")
    ∷ keyword (codes "intersect")
    ∷ [])

abbrev pub fb_join_re : Pattern
fb_join_re = word (codes "join")

abbrev pub fb_join_cond_re : Pattern
fb_join_cond_re =
    words (keyword (codes "on") ∷ keyword (codes "using") ∷ keyword (codes "natural") ∷ [])

abbrev pub fb_in_list_re : Pattern
fb_in_list_re = all_of (boundary ∷ keyword (codes "in") ∷ spaces ∷ byte b'(' ∷ [])

abbrev pub fb_subquery_start_re : Pattern
fb_subquery_start_re = all_of (
    start
    ∷ many (byte_class (λ c. c == b'('))
    ∷ spaces
    ∷ group 1 (
        any_of (
          keyword (codes "select")
          ∷ keyword (codes "with")
          ∷ keyword (codes "values")
          ∷ keyword (codes "table")
          ∷ []))
    ∷ boundary
    ∷ [])

abbrev pub fb_offset_re : Pattern
fb_offset_re = all_of (boundary ∷ keyword (codes "offset") ∷ some_space ∷ group 1 digits ∷ [])

abbrev pub fb_limit_offset_re : Pattern
fb_limit_offset_re = all_of (
    boundary
    ∷ keyword (codes "limit")
    ∷ some_space
    ∷ group 1 digits
    ∷ spaces
    ∷ byte b','
    ∷ spaces
    ∷ digits
    ∷ [])
