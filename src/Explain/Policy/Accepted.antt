-- ===== src/Explain/Policy/Accepted.antt =====
-- Which queries `validate` of explain/explain.go lets through.
use sqlguard.Prelude.{
  ℕ, ◌≡◌, ◌≢◌, ◌↔◌, ◌⊎◌, inr, true, false, [], ◌∷◌, ◌++◌, Bytes, All, equal_iff, arith,
}
use sqlguard.Analyzer.Types.{
  StmtKind, stmt_unknown, stmt_select, stmt_insert, stmt_update, stmt_delete, stmt_other,
}
use sqlguard.Analyzer.Lexer.Space.{trim_space}
use sqlguard.Analyzer.Fallback.{parse}
use sqlguard.Analyzer.Fallback.Blank.{is_multi_statement}
use sqlguard.Explain.Policy.{PlanAnalyzer, stripped, accept, validate}

-- A kind that the policy lets through: a SELECT, or where the analyzer allows it a statement that
-- changes rows.
abbrev pub IsAllowed : PlanAnalyzer → StmtKind → Type 0
IsAllowed p kind =
    (kind ≡ stmt_select)
    ⊎ (((kind ≡ stmt_insert) ⊎ ((kind ≡ stmt_update) ⊎ (kind ≡ stmt_delete)))
        × (p.allow_dml ≡ true))

-- A query that is not blank, is one statement, and whose text behind the trimming is of such a kind.
abbrev pub IsAccepted : PlanAnalyzer → Bytes → Type 0
IsAccepted p query =
    (trim_space query ≢ [])
    × (is_multi_statement (trim_space query) ≡ false)
    × IsAllowed p (parse (stripped query)).kind

accept-IsAllowed :
    (p : PlanAnalyzer) (s q : Bytes) (kind k : StmtKind)
    → (accept p s kind ≡ inr (q, k)) ↔ ((q ≡ s) × (k ≡ kind) × IsAllowed p kind)
unfolding accept
accept-IsAllowed p s q stmt_select k = ground arith
accept-IsAllowed p s q stmt_insert k = ground arith
accept-IsAllowed p s q stmt_update k = ground arith
accept-IsAllowed p s q stmt_delete k = ground arith
accept-IsAllowed p s q stmt_other k = ground arith
accept-IsAllowed p s q stmt_unknown k = ground arith

pub validate_lem :
    (p : PlanAnalyzer) (query q : Bytes) (k : StmtKind)
    → (validate p query ≡ inr (q, k))
      ↔ ((q ≡ stripped query) × (k ≡ (parse (stripped query)).kind) × IsAccepted p query)
unfolding validate
validate_lem p query q k = ground (
  arith,
  equal_iff (trim_space query) [],
  accept-IsAllowed p (stripped query) q (parse (stripped query)).kind k,
)

-- White space or a semicolon.
abbrev IsCut : ℕ → Type 0
IsCut c = (c ≡ b';') ⊎ ((c ≡ b' ') ⊎ ((c ≡ b'\t') ⊎ ((c ≡ b'\r') ⊎ (c ≡ b'\n'))))

-- A text that is empty or ends in another byte.
abbrev EndsWell : Bytes → Type 0
EndsWell q = (q ≡ []) ⊎ ((r : Bytes) × ((c : ℕ) × ((q ≡ r ++ (c ∷ [])) × (¬ IsCut c))))

-- The text without all the white space and the semicolons behind it.
abbrev pub IsStripped : Bytes → Bytes → Type 0
IsStripped s q = (post : Bytes) × ((s ≡ q ++ post) × (All IsCut post × EndsWell q))
