-- ===== src/Analyzer/Suppress/Readings.antt =====
-- A directive counts only if every reading agrees (`parseIgnoreDirective` in
-- analyzer/suppress.go).
use sqlguard.Prelude.{
  ℕ, suc, ◌≡◌, refl, sym, ap, ◌∙◌, Bool, true, false, not, ◌&&◌, [], ◌∷◌, Option, some, none, Bytes,
  codes, arith, has, ltb, ◌==◌, if◌then◌else◌, Bool-cases, inl, inr,
}
use sqlguard.Analyzer.Lexer.Union.{has_byte}
use sqlguard.Analyzer.Lexer.Union.Readings.{scan_quoted_run_closed_plain}
use sqlguard.Analyzer.Suppress.{
  reading, Directive, comment_directive, contains_fold, intersect_directives, refine,
  combine_readings, parse_ignore_directive,
}
use sqlguard.Analyzer.Lexer.Tokens.{Reading, token_at, token_end, add_token, lex_from, lex_sql}
use sqlguard.Analyzer.Suppress.Intersect.{
  suppresses, IsNames, IsNames-comment_directive, intersect_directives_lem,
  intersect_directives-IsNames,
}

-- Two readings that see every byte of the text alike.
abbrev Alike : Reading → Reading → Bytes → Type 0
Alike r r' [] = Unit
Alike r r' (c ∷ s) =
    ((prev : Option ℕ) (i : ℕ) → token_at r prev i c s ≡ token_at r' prev i c s) × Alike r r' s

lex_from_skip :
    (r : Reading) (prev : Option ℕ) (i until c : ℕ) (rest : Bytes)
    → ltb i until ≡ true
    → lex_from r prev i until (c ∷ rest) ≡ lex_from r (some c) (suc i) until rest
unfolding lex_from
lex_from_skip r prev i until c rest h = rw (h, lex_from)

lex_from_act :
    (r : Reading) (prev : Option ℕ) (i until c : ℕ) (rest : Bytes)
    → ltb i until ≡ false
    → let token = token_at r prev i c rest in
      lex_from r prev i until (c ∷ rest)
      ≡ add_token i token (lex_from r (some c) (suc i) (token_end i token) rest)
unfolding lex_from
lex_from_act r prev i until c rest h = rw (h, lex_from)

lex_from-Alike :
    (s : Bytes) (r r' : Reading) (prev : Option ℕ) (i until : ℕ)
    → Alike r r' s
    → lex_from r prev i until s ≡ lex_from r' prev i until s
lex_from-Alike [] r r' prev i until h = unfold lex_from in refl
lex_from-Alike (c ∷ rest) r r' prev i until (h, hs) = elim (Bool-cases (ltb i until)) [
  | inl skip ↦
      lex_from_skip r prev i until c rest skip
      ∙ lex_from-Alike rest r r' (some c) (suc i) until hs
      ∙ sym (lex_from_skip r' prev i until c rest skip)
  | inr act ↦
      let token = token_at r' prev i c rest in
      lex_from_act r prev i until c rest act
      ∙ rw (h prev i) (
          ap (add_token i token) (lex_from-Alike rest r r' (some c) (suc i) (token_end i token) hs))
      ∙ sym (lex_from_act r' prev i until c rest act)
]

lex_sql-Alike : (s : Bytes) (r r' : Reading) → Alike r r' s → lex_sql s r ≡ lex_sql s r'
unfolding lex_sql
lex_sql-Alike s r r' h = lex_from-Alike s r r' none 0 0 h

-- Without a backslash, its reading makes no difference; without a dollar, its own makes none.
no_backslash :
    (s : Bytes) (dollar hash loose : Bool)
    → has_byte b'\\' s ≡ false
    → Alike (reading true dollar hash loose) (reading false dollar hash loose) s
unfolding has_byte
no_backslash [] dollar hash loose h = tt
no_backslash (c ∷ s) dollar hash loose h =
    let rest : has_byte b'\\' s ≡ false = ground arith in
    (λ prev i. same prev i rest, no_backslash s dollar hash loose rest)
  where
    same :
        (prev : Option ℕ) (i : ℕ)
        → has_byte b'\\' s ≡ false
        → token_at (reading true dollar hash loose) prev i c s
          ≡ token_at (reading false dollar hash loose) prev i c s
    same prev i rest =
        unfold token_at in
        ground (arith, scan_quoted_run_closed_plain s (not (c == b'`')) c (suc i) rest)

no_dollar :
    (s : Bytes) (backslash hash loose : Bool)
    → has_byte b'$' s ≡ false
    → Alike (reading backslash false hash loose) (reading backslash true hash loose) s
unfolding has_byte
no_dollar [] backslash hash loose h = tt
no_dollar (c ∷ s) backslash hash loose h =
    let rest : has_byte b'$' s ≡ false = ground arith in
    let other : (c == b'$') ≡ false = ground arith in
    (λ prev i. unfold token_at in rw other refl, no_dollar s backslash hash loose rest)

comment_directive_backslash :
    (s : Bytes) (dollar : Bool)
    → has_byte b'\\' s ≡ false
    → comment_directive s true dollar ≡ comment_directive s false dollar
unfolding comment_directive
comment_directive_backslash s dollar h =
    rw
      (
        lex_sql-Alike s _ _ (no_backslash s dollar true true h),
        lex_sql-Alike s _ _ (no_backslash s dollar true false h),
        lex_sql-Alike s _ _ (no_backslash s dollar false true h),
        lex_sql-Alike s _ _ (no_backslash s dollar false false h),
      )
      refl

comment_directive_dollar :
    (s : Bytes) (backslash : Bool)
    → has_byte b'$' s ≡ false
    → comment_directive s backslash false ≡ comment_directive s backslash true
unfolding comment_directive
comment_directive_dollar s backslash h =
    rw
      (
        lex_sql-Alike s _ _ (no_dollar s backslash true true h),
        lex_sql-Alike s _ _ (no_dollar s backslash true false h),
        lex_sql-Alike s _ _ (no_dollar s backslash false true h),
        lex_sql-Alike s _ _ (no_dollar s backslash false false h),
      )
      refl

refine-IsNames :
    (taken : Bool) (d e : Directive)
    → IsNames d.rules
    → IsNames e.rules
    → IsNames (refine taken d e).rules
refine-IsNames true d e h k = intersect_directives-IsNames d e h k
refine-IsNames false d e h k = h

-- Readings that are left out agree with those that are taken in.
combine_readings_lem :
    (slash money : Bool) (d1 d2 d3 d4 : Directive) (name : Bytes)
    → IsNames d1.rules
    → IsNames d2.rules
    → IsNames d3.rules
    → (money ≡ false → (d2 ≡ d1) × (d4 ≡ d3))
    → (slash ≡ false → (d3 ≡ d1) × (d4 ≡ d2))
    → suppresses (combine_readings slash money d1 d2 d3 d4) name
      ≡ (suppresses d1 name && suppresses d2 name && suppresses d3 name && suppresses d4 name)
unfolding combine_readings
combine_readings_lem true true d1 d2 d3 d4 name n1 n2 n3 m k =
    let n12 = intersect_directives-IsNames d1 d2 n1 n2 in
    let n123 = intersect_directives-IsNames (intersect_directives d1 d2) d3 n12 n3 in
    intersect_directives_lem (intersect_directives (intersect_directives d1 d2) d3) d4 name n123
    ∙ rw
        (
          intersect_directives_lem (intersect_directives d1 d2) d3 name n12,
          intersect_directives_lem d1 d2 name n1,
        )
        (ground arith)
combine_readings_lem true false d1 d2 d3 d4 name n1 n2 n3 m k =
    let (e2, e4) = m refl in rw (e2, e4) (intersect_directives_lem d1 d3 name n1 ∙ ground arith)
combine_readings_lem false true d1 d2 d3 d4 name n1 n2 n3 m k =
    let (e3, e4) = k refl in rw (e3, e4) (intersect_directives_lem d1 d2 name n1 ∙ ground arith)
combine_readings_lem false false d1 d2 d3 d4 name n1 n2 n3 m k =
    let (e2, e4) = m refl in let (e3, _) = k refl in rw (e4, e3, e2) (ground arith)

gate_lem :
    (present : Bool) (d : Directive) (name : Bytes)
    → suppresses (if present then d else record { all = false; rules = [] }) name
      ≡ (present && suppresses d name)
gate_lem true d name = refl
gate_lem false d name = unfold has in refl

-- A rule is suppressed by the SQL exactly if the text holds the token in some case and every
-- reading of backslashes and dollar signs suppresses the rule, the readings that the code leaves
-- out included.
pub parse_ignore_directive_lem :
    (s name : Bytes)
    → suppresses (parse_ignore_directive s) name ≡ (
        contains_fold (codes "sqlguard:ignore") s
        && (suppresses (comment_directive s false true) name
            && suppresses (comment_directive s false false) name
            && suppresses (comment_directive s true true) name
            && suppresses (comment_directive s true false) name))
unfolding parse_ignore_directive
parse_ignore_directive_lem s name =
    let found =
      combine_readings_lem (has_byte b'\\' s) (has_byte b'$' s) (comment_directive s false true)
        (comment_directive s false false) (comment_directive s true true)
        (comment_directive s true false) name (IsNames-comment_directive s false true)
        (IsNames-comment_directive s false false) (IsNames-comment_directive s true true)
        (λ none_there.
          (comment_directive_dollar s false none_there, comment_directive_dollar s true none_there))
        (λ none_there. (
          comment_directive_backslash s true none_there,
          comment_directive_backslash s false none_there,
        )) in
    gate_lem (contains_fold (codes "sqlguard:ignore") s) _ name
    ∙ ap (λ x. contains_fold (codes "sqlguard:ignore") s && x) found
