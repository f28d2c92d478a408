-- ===== src/Cli/Scan/Findings.antt =====
-- Which findings `scanASTFile` of cmd/sqlguard/scan.go reports.
use mathlib.Core.List.{Memᴰ}
use mathlib.Core.List.Memᴰ
use sqlguard.Prelude.{
  ℕ, Bool, true, false, List, [], ◌∷◌, Option, none, some, Bytes, is_one_of, if◌then◌else◌, ◌≡◌,
  ◌≢◌, refl, inl, inr,
}
use sqlguard.Analyzer.Types.{Statement, Result}
use sqlguard.Analyzer.Engine.{Analyzer, analyze}
use sqlguard.Cli.Source.{
  Node, Nodes, basic_lit, ident, selector_expr, call_expr, other_node, no_nodes, node_cons, Info,
  sql_methods, query_arg_expr, resolve_query,
}
use sqlguard.Cli.Comments.{CommentGroup}
use sqlguard.Cli.Scan.{
  Position, SourceFile, scan_query, scan_arg, scan_call, inspect, inspect_all, scan_ast_file,
}
use sqlguard.Cli.Scan.Arguments.{IsQueryArg, query_arg_expr-IsQueryArg, IsQueryArg-query_arg_expr}
use sqlguard.Cli.Scan.Calls.{
  CallIn, CallsIn, this_call, in_operand, in_callee, in_args, in_children, in_first, in_rest,
  IsKept, kept_at-IsKept, IsKept-kept_at,
}

module _ (fallback : Bytes → Statement) (a : Analyzer) (unquote : Bytes → Option Bytes)
    (position : ℕ → Position) (comments : List CommentGroup) (info : Option Info) where
  -- What the call of one of the eight methods on SQL reports: a finding of the analyzer on the text of its query
  -- argument that no comment suppresses, with the position of the call.
  abbrev pub IsReported : ℕ → Node → Nodes → Result → Type 0
  IsReported at callee args r =
      (n : ℕ) × (x : Node) × (sel : ℕ) × (name : Bytes) × (arg : Node) × (callee
        ≡ selector_expr n x sel name)
      × IsQueryArg name args arg
      × (resolve_query unquote info arg ≢ [])
      × IsKept comments (position at) (analyze fallback a (resolve_query unquote info arg)) r

  scan_query-IsKept :
      (pos : Position) (query : Bytes) (r : Result)
      → Memᴰ r (scan_query fallback a unquote position comments pos query)
      → (query ≢ []) × IsKept comments pos (analyze fallback a query) r
  scan_query-IsKept pos [] r m = absurd (Memᴰ.not-nil m)
  scan_query-IsKept pos (c ∷ query) r m =
      ((λ e. cc), kept_at-IsKept comments pos (analyze fallback a (c ∷ query)) r m)

  -- The step behind the name of the method.
  scan_arg-IsReported :
      (at n : ℕ) (x : Node) (sel : ℕ) (name : Bytes) (args : Nodes) (r : Result) (o : Option Node)
      → is_one_of sql_methods name ≡ true
      → query_arg_expr name args ≡ o
      → Memᴰ r (scan_arg fallback a unquote position comments info (position at) o)
      → IsReported at (selector_expr n x sel name) args r
  scan_arg-IsReported at n x sel name args r none h e m = absurd (Memᴰ.not-nil m)
  scan_arg-IsReported at n x sel name args r (some arg) h e m =
      let (ne, k) = scan_query-IsKept (position at) (resolve_query unquote info arg) r m in
      (n, x, sel, name, arg, refl, query_arg_expr-IsQueryArg name args arg h e, ne, k)

  scan_call-IsReported :
      (at : ℕ) (callee : Node) (args : Nodes) (r : Result)
      → Memᴰ r (scan_call fallback a unquote position comments info at callee args)
      → IsReported at callee args r
  unfolding scan_call
  scan_call-IsReported at (basic_lit n is_string value) args r m = absurd (Memᴰ.not-nil m)
  scan_call-IsReported at (ident n name) args r m = absurd (Memᴰ.not-nil m)
  scan_call-IsReported at (call_expr n at' x ns) args r m = absurd (Memᴰ.not-nil m)
  scan_call-IsReported at (other_node n ns) args r m = absurd (Memᴰ.not-nil m)
  scan_call-IsReported at (selector_expr n x sel name) args r m =
      step (is_one_of sql_methods name) refl m
    where
      step :
          (b : Bool)
          → is_one_of sql_methods name ≡ b
          → Memᴰ r (
              if b
              then scan_arg fallback a unquote position comments info
                  (position at)
                  (query_arg_expr name args)
              else [])
          → IsReported at (selector_expr n x sel name) args r
      step true h m' =
          scan_arg-IsReported at n x sel name args r (query_arg_expr name args) h refl m'
      step false h m' = absurd (Memᴰ.not-nil m')

  scan_query-reports :
      (pos : Position) (query : Bytes) (r : Result)
      → query ≢ []
      → IsKept comments pos (analyze fallback a query) r
      → Memᴰ r (scan_query fallback a unquote position comments pos query)
  scan_query-reports pos [] r h k = absurd (h refl)
  scan_query-reports pos (c ∷ query) r h (r', (m, (s, e))) =
      IsKept-kept_at comments pos (analyze fallback a (c ∷ query)) r r' m s e

  scan_call-reports :
      (at : ℕ) (callee : Node) (args : Nodes) (r : Result)
      → IsReported at callee args r
      → Memᴰ r (scan_call fallback a unquote position comments info at callee args)
  unfolding scan_call
  scan_call-reports at callee args r (n, x, sel, name, arg, e, is_arg, ne, k) =
      let (h, q) = IsQueryArg-query_arg_expr is_arg in
      rw (e, scan_call, h, q)
        (scan_query-reports (position at) (resolve_query unquote info arg) r ne k)

  mutual
    unfolding inspect inspect_all

    inspect-CallIn :
        (node : Node) (r : Result)
        → Memᴰ r (inspect fallback a unquote position comments info node)
        → (at : ℕ) × (callee : Node) × (args : Nodes) × CallIn at callee args node
          × IsReported at callee args r
    inspect-CallIn (basic_lit n is_string value) r m = absurd (Memᴰ.not-nil m)
    inspect-CallIn (ident n name) r m = absurd (Memᴰ.not-nil m)
    inspect-CallIn (selector_expr n x sel name) r m =
        let (at, callee, args, c, k) = inspect-CallIn x r m in
        (at, callee, args, in_operand n x sel name c, k)
    inspect-CallIn (other_node n ns) r m =
        let (at, callee, args, c, k) = inspect_all-CallsIn ns r m in
        (at, callee, args, in_children n ns c, k)
    inspect-CallIn (call_expr n at x ns) r m =
        elim (Memᴰ.append_cases (scan_call fallback a unquote position comments info at x ns) m) [
          | inl m' ↦ (at, x, ns, this_call n, scan_call-IsReported at x ns r m')
          | inr m' ↦
              elim (Memᴰ.append_cases (inspect fallback a unquote position comments info x) m') [
                | inl m'' ↦
                    let (at', callee, args, c, k) = inspect-CallIn x r m'' in
                    (at', callee, args, in_callee n at x ns c, k)
                | inr m'' ↦
                    let (at', callee, args, c, k) = inspect_all-CallsIn ns r m'' in
                    (at', callee, args, in_args n at x ns c, k)
              ]
        ]

    inspect_all-CallsIn :
        (nodes : Nodes) (r : Result)
        → Memᴰ r (inspect_all fallback a unquote position comments info nodes)
        → (at : ℕ) × (callee : Node) × (args : Nodes) × CallsIn at callee args nodes
          × IsReported at callee args r
    inspect_all-CallsIn no_nodes r m = absurd (Memᴰ.not-nil m)
    inspect_all-CallsIn (node_cons n ns) r m =
        elim (Memᴰ.append_cases (inspect fallback a unquote position comments info n) m) [
          | inl m' ↦
              let (at, callee, args, c, k) = inspect-CallIn n r m' in
              (at, callee, args, in_first n ns c, k)
          | inr m' ↦
              let (at, callee, args, c, k) = inspect_all-CallsIn ns r m' in
              (at, callee, args, in_rest n ns c, k)
        ]

  mutual
    unfolding inspect inspect_all

    CallIn-inspect :
        (at : ℕ) (callee : Node) (args : Nodes) (node : Node) (r : Result)
        → CallIn at callee args node
        → IsReported at callee args r
        → Memᴰ r (inspect fallback a unquote position comments info node)
    CallIn-inspect at callee args _ r (this_call n) k =
        Memᴰ.append_left _ (scan_call-reports at callee args r k)
    CallIn-inspect at callee args _ r (in_operand n x sel name c) k =
        CallIn-inspect at callee args x r c k
    CallIn-inspect at callee args _ r (in_callee n at' x ns c) k =
        Memᴰ.append_right (scan_call fallback a unquote position comments info at' x ns)
          (Memᴰ.append_left _ (CallIn-inspect at callee args x r c k))
    CallIn-inspect at callee args _ r (in_args n at' x ns c) k =
        Memᴰ.append_right (scan_call fallback a unquote position comments info at' x ns) (
          Memᴰ.append_right (inspect fallback a unquote position comments info x)
            (CallsIn-inspect_all at callee args ns r c k))
    CallIn-inspect at callee args _ r (in_children n ns c) k =
        CallsIn-inspect_all at callee args ns r c k

    CallsIn-inspect_all :
        (at : ℕ) (callee : Node) (args : Nodes) (nodes : Nodes) (r : Result)
        → CallsIn at callee args nodes
        → IsReported at callee args r
        → Memᴰ r (inspect_all fallback a unquote position comments info nodes)
    CallsIn-inspect_all at callee args _ r (in_first n ns c) k =
        Memᴰ.append_left _ (CallIn-inspect at callee args n r c k)
    CallsIn-inspect_all at callee args _ r (in_rest n ns c) k =
        Memᴰ.append_right (inspect fallback a unquote position comments info n)
          (CallsIn-inspect_all at callee args ns r c k)

module _ (fallback : Bytes → Statement) (a : Analyzer) (unquote : Bytes → Option Bytes)
    (position : ℕ → Position) (info : Option Info) (f : SourceFile) where
  -- A result of the scan of a file comes from a call in it, of a method on SQL, whose query argument
  -- has a known text: it is a finding of the analyzer on that text that no comment suppresses at the
  -- line where the call begins, with the file and the line of that place.
  pub scan_ast_file-IsReported :
      (r : Result)
      → Memᴰ r (scan_ast_file fallback a unquote position info f)
      → (at : ℕ) × (callee : Node) × (args : Nodes) × CallsIn at callee args f.nodes
        × IsReported fallback a unquote position f.comments info at callee args r
  unfolding scan_ast_file
  scan_ast_file-IsReported r m =
      inspect_all-CallsIn fallback a unquote position f.comments info f.nodes r m

  -- The scan of a file has every finding of the analyzer, on the known text of the query argument of
  -- any call in the file of a method on SQL, that no comment suppresses at the line where the call begins.
  pub IsReported-scan_ast_file :
      (at : ℕ) (callee : Node) (args : Nodes) (r : Result)
      → CallsIn at callee args f.nodes
      → IsReported fallback a unquote position f.comments info at callee args r
      → Memᴰ r (scan_ast_file fallback a unquote position info f)
  unfolding scan_ast_file
  IsReported-scan_ast_file at callee args r c k =
      CallsIn-inspect_all fallback a unquote position f.comments info at callee args f.nodes r c k
