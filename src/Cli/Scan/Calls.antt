-- ===== src/Cli/Scan/Calls.antt =====
-- The calls in a node, and what is kept of the findings of one: cmd/sqlguard/scan.go.
use mathlib.Core.List.{Memᴰ}
use mathlib.Core.List.Memᴰ
use sqlguard.Prelude.{
  ℕ, Bool, true, false, List, [], ◌∷◌, Bytes, if◌then◌else◌, ◌≡◌, refl, sym, ◌⊎◌, inl, inr,
}
use sqlguard.Analyzer.Types.{Result}
use sqlguard.Cli.Source.{Node, Nodes, selector_expr, call_expr, other_node, node_cons}
use sqlguard.Cli.Comments.{CommentGroup, is_suppressed}
use sqlguard.Cli.Scan.{Position, place, kept_at}

-- A call stands in a node, by its position, its callee and its arguments.
mutual
  pub data CallIn (at : ℕ) (callee : Node) (args : Nodes) : Node → Type 0 where
    this_call : (n : ℕ) → CallIn at callee args (call_expr n at callee args)
    in_operand :
        (n : ℕ) (x : Node) (sel : ℕ) (name : Bytes)
        → CallIn at callee args x
        → CallIn at callee args (selector_expr n x sel name)
    in_callee :
        (n at' : ℕ) (x : Node) (ns : Nodes)
        → CallIn at callee args x
        → CallIn at callee args (call_expr n at' x ns)
    in_args :
        (n at' : ℕ) (x : Node) (ns : Nodes)
        → CallsIn at callee args ns
        → CallIn at callee args (call_expr n at' x ns)
    in_children :
        (n : ℕ) (ns : Nodes) → CallsIn at callee args ns → CallIn at callee args (other_node n ns)

  pub data CallsIn (at : ℕ) (callee : Node) (args : Nodes) : Nodes → Type 0 where
    in_first :
        (n : Node) (ns : Nodes) → CallIn at callee args n → CallsIn at callee args (node_cons n ns)
    in_rest :
        (n : Node) (ns : Nodes)
        → CallsIn at callee args ns
        → CallsIn at callee args (node_cons n ns)

-- A finding of the text that is not suppressed at the position, placed there.
abbrev pub IsKept : List CommentGroup → Position → List Result → Result → Type 0
IsKept comments pos found r =
    (r' : Result) × (Memᴰ r' found
      × ((is_suppressed comments pos.line r'.rule_name ≡ false) × (r ≡ place pos r')))

pub IsKept-tail :
    (comments : List CommentGroup) (pos : Position) (f : Result) (found : List Result) (r : Result)
    → IsKept comments pos found r
    → IsKept comments pos (f ∷ found) r
IsKept-tail comments pos f found r (r', (m, k)) = (r', (Memᴰ.tail m, k))

pub kept_at-IsKept :
    (comments : List CommentGroup) (pos : Position) (found : List Result) (r : Result)
    → Memᴰ r (kept_at comments pos found)
    → IsKept comments pos found r
unfolding kept_at
kept_at-IsKept comments pos [] r m = absurd (Memᴰ.not-nil m)
kept_at-IsKept comments pos (f ∷ found) r m =
    step (kept_at-IsKept comments pos found r) (is_suppressed comments pos.line f.rule_name) refl m
  where
    placed :
        (Memᴰ r (kept_at comments pos found) → IsKept comments pos found r)
        → is_suppressed comments pos.line f.rule_name ≡ false
        → (r ≡ place pos f) ⊎ Memᴰ r (kept_at comments pos found)
        → IsKept comments pos (f ∷ found) r
    placed rest h (inl e) = (f, (Memᴰ.head refl, (h, e)))
    placed rest h (inr m') = IsKept-tail comments pos f found r (rest m')

    step :
        (Memᴰ r (kept_at comments pos found) → IsKept comments pos found r)
        → (b : Bool) → is_suppressed comments pos.line f.rule_name ≡ b
        → Memᴰ r
            (if b then kept_at comments pos found else place pos f ∷ kept_at comments pos found)
        → IsKept comments pos (f ∷ found) r
    step rest true h m' = IsKept-tail comments pos f found r (rest m')
    step rest false h m' = placed rest h (Memᴰ.cases_cons m')

pub IsKept-kept_at :
    (comments : List CommentGroup) (pos : Position) (found : List Result) (r r' : Result)
    → Memᴰ r' found
    → is_suppressed comments pos.line r'.rule_name ≡ false
    → r ≡ place pos r'
    → Memᴰ r (kept_at comments pos found)
unfolding kept_at
IsKept-kept_at comments pos [] r r' m h e = absurd (Memᴰ.not-nil m)
IsKept-kept_at comments pos (f ∷ found) r r' (Memᴰ.head e') h e = rw (sym e', h) (Memᴰ.head e)
IsKept-kept_at comments pos (f ∷ found) r r' (Memᴰ.tail m) h e =
    step (is_suppressed comments pos.line f.rule_name)
      (IsKept-kept_at comments pos found r r' m h e)
  where
    step :
        (b : Bool)
        → Memᴰ r (kept_at comments pos found)
        → Memᴰ r
            (if b then kept_at comments pos found else place pos f ∷ kept_at comments pos found)
    step true m' = m'
    step false m' = Memᴰ.tail m'
