-- ===== src/Cli/Comments.antt =====
-- `buildSuppressor` of cmd/sqlguard/scan.go.
use sqlguard.Prelude.{
  ℕ, suc, Bool, false, ◌||◌, List, [], ◌∷◌, Option, none, some, Bytes, ◌==◌, has, if◌then◌else◌,
  ◌≡◌, refl, arith, ap, ◌∙◌,
}
use sqlguard.Analyzer.Suppress.{Directive}
use sqlguard.Analyzer.Suppress.Scanned.{parse_ignore_comment}

-- A group of comments: what its method `Text` gives, and the line where it ends.
pub record CommentGroup : Type 0 where
  pub text : Bytes
  pub end_line : ℕ

-- A Go map by line.
abbrev pub ByLine : Type 0
ByLine = List (ℕ × Directive)

unfoldable pub at_line : ℕ → ByLine → Option Directive
at_line line [] = none
at_line line ((l, d) ∷ m) = let older = at_line line m in if l == line then some d else older

-- An entry replaces the older ones of its line.
abbrev pub set_line : ℕ → Directive → ByLine → ByLine
set_line line d m = (line, d) ∷ m

abbrev pub put_directive : CommentGroup → Option Directive → ByLine → ByLine
put_directive cg none m = m
put_directive cg (some d) m = set_line (suc cg.end_line) d (set_line cg.end_line d m)

-- The loop over the comments.
unfoldable pub directives_by_line : List CommentGroup → ByLine → ByLine
unfolding parse_ignore_comment
directives_by_line [] m = m
directives_by_line (cg ∷ comments) m =
    directives_by_line comments (put_directive cg (parse_ignore_comment cg.text) m)

-- `buildSuppressor`, applied to a line.
unfoldable pub suppressor : List CommentGroup → ℕ → Option Directive
unfolding directives_by_line at_line
suppressor comments line = at_line line (directives_by_line comments [])

abbrev suppresses_with : Option Directive → Bytes → Bool
suppresses_with none name = false
suppresses_with (some d) name = d.all || has d.rules name

-- Whether a rule is suppressed at a line.
unfoldable pub is_suppressed : List CommentGroup → ℕ → Bytes → Bool
unfolding suppressor
is_suppressed comments line name = suppresses_with (suppressor comments line) name

-- The comment applies to the line: it ends there or on the line above.
abbrev pub applies_to : ℕ → CommentGroup → Bool
applies_to line cg = cg.end_line == line || suc cg.end_line == line

-- The last directive of a comment that applies to a line, or what held before.
unfoldable pub last_directive : ℕ → List CommentGroup → Option Directive → Option Directive
last_directive line [] before = before
last_directive line (cg ∷ comments) before =
    last_directive line comments (elim (parse_ignore_comment cg.text) [
      | none ↦ before
      | some d ↦ if applies_to line cg then some d else before
    ])

at_line-put_directive :
    (line : ℕ) (cg : CommentGroup) (o : Option Directive) (m : ByLine)
    → at_line line (put_directive cg o m) ≡ (elim o [
      | none ↦ at_line line m
      | some d ↦ if applies_to line cg then some d else at_line line m
    ])
unfolding at_line
at_line-put_directive line cg none m = refl
at_line-put_directive line cg (some d) m = ground arith

at_line-directives_by_line :
    (line : ℕ) (comments : List CommentGroup) (m : ByLine)
    → at_line line (directives_by_line comments m) ≡ last_directive line comments (at_line line m)
unfolding directives_by_line last_directive
at_line-directives_by_line line [] m = refl
at_line-directives_by_line line (cg ∷ comments) m =
    at_line-directives_by_line line comments (put_directive cg (parse_ignore_comment cg.text) m)
    ∙ ap (last_directive line comments)
        (at_line-put_directive line cg (parse_ignore_comment cg.text) m)

-- A line has the directive of the last comment that has one and ends at this line or at the line
-- above; the directives of the other comments that do are lost.
pub suppressor_lem :
    (comments : List CommentGroup) (line : ℕ)
    → suppressor comments line ≡ last_directive line comments none
unfolding suppressor at_line
suppressor_lem comments line = at_line-directives_by_line line comments []
