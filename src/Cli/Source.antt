-- ===== src/Cli/Source.antt =====
-- The syntax of Go as cmd/sqlguard/scan.go reads it, and the text of a query argument.
use sqlguard.Prelude.{
  ℕ, zero, suc, Bool, true, false, ◌&&◌, List, [], ◌∷◌, Option, none, some, Bytes, codes, equal,
  if◌then◌else◌,
}
use sqlguard.Cli.Paths.{has_suffix}
use sqlguard.Cli.Format.{neutralize_format}

-- A node of `go/ast`, with its identity, which is its pointer in the source. A selector has the
-- identity and the name of what it selects, a call its position. Any other node has its children.
mutual
  pub data Node : Type 0 where
    basic_lit : ℕ → Bool → Bytes → Node
    ident : ℕ → Bytes → Node
    selector_expr : ℕ → Node → ℕ → Bytes → Node
    call_expr : ℕ → ℕ → Node → Nodes → Node
    other_node : ℕ → Nodes → Node

  pub data Nodes : Type 0 where
    no_nodes : Nodes
    node_cons : Node → Nodes → Nodes

abbrev pub identity : Node → ℕ
identity (basic_lit n is_string value) = n
identity (ident n name) = n
identity (selector_expr n x sel name) = n
identity (call_expr n at callee args) = n
identity (other_node n children) = n

-- `types.Info`: the constant value of an expression, and what an identifier denotes.
pub data Constant : Type 0 where
  string_constant : Bytes → Constant
  other_constant : Constant

-- A function, with the path of its package where it has one, or another object.
pub data Object : Type 0 where
  func_object : Option Bytes → Object
  other_object : Object

pub record Info : Type 0 where
  pub types : ℕ → Option Constant
  pub uses : ℕ → Option Object

abbrev pub sql_methods : List Bytes
sql_methods =
    codes "Query"
    ∷ codes "QueryContext"
    ∷ codes "QueryRow"
    ∷ codes "QueryRowContext"
    ∷ codes "Exec"
    ∷ codes "ExecContext"
    ∷ codes "Prepare"
    ∷ codes "PrepareContext"
    ∷ []

abbrev pub node_at : Nodes → ℕ → Option Node
node_at no_nodes i = none
node_at (node_cons n ns) zero = some n
node_at (node_cons n ns) (suc i) = node_at ns i

unfoldable pub query_arg_expr : Bytes → Nodes → Option Node
unfolding has_suffix
query_arg_expr method_name args =
    node_at args (if has_suffix (codes "Context") method_name then 1 else 0)

-- `strconv.Unquote` is the parameter.
module _ (unquote : Bytes → Option Bytes) where
  abbrev literal_string : Node → Option Bytes
  literal_string (basic_lit n true value) = unquote value
  literal_string _ = none

  abbrev constant_of : Option Constant → Option Bytes
  constant_of none = none
  constant_of (some other_constant) = none
  constant_of (some (string_constant s)) = some s

  abbrev typed_string : Option Info → Node → Option Bytes
  typed_string none e = none
  typed_string (some info) e = constant_of (info.types (identity e))

  unfoldable pub const_string : Option Info → Node → Option Bytes
  const_string info e = elim (typed_string info e) [ some s ↦ some s | none ↦ literal_string e ]

  -- The selector's operand is the identifier `fmt`.
  abbrev names_fmt : Node → Bool
  names_fmt (ident n name) = equal name (codes "fmt")
  names_fmt _ = false

  -- The object is a function of the package `fmt`.
  abbrev is_fmt : Object → Bool
  is_fmt (func_object (some path)) = equal path (codes "fmt")
  is_fmt _ = false

  abbrev used : Option Info → ℕ → Option Object
  used none sel = none
  used (some info) sel = info.uses sel

  abbrev is_fmt_function : Option Object → Node → Bool
  is_fmt_function (some object) x = is_fmt object
  is_fmt_function none x = names_fmt x

  -- The format of a call of `fmt.Sprintf`, by its callee and its arguments.
  unfoldable pub sprintf_format_arg : Option Info → Node → Nodes → Option Node
  unfolding equal
  sprintf_format_arg info (selector_expr n x sel name) (node_cons arg args) =
      if equal name (codes "Sprintf") && is_fmt_function (used info sel) x then some arg else none
  sprintf_format_arg info _ _ = none

  abbrev neutralized : Option Bytes → Bytes
  neutralized none = []
  neutralized (some f) = neutralize_format f

  abbrev formatted : Option Info → Option Node → Bytes
  formatted info none = []
  formatted info (some arg) = neutralized (const_string info arg)

  abbrev call_text : Option Info → Node → Bytes
  call_text info (call_expr n at callee args) = formatted info (sprintf_format_arg info callee args)
  call_text info _ = []

  -- The text of a query argument, empty where it is not known.
  unfoldable pub resolve_query : Option Info → Node → Bytes
  unfolding const_string sprintf_format_arg neutralize_format
  resolve_query info e = elim (const_string info e) [ some s ↦ s | none ↦ call_text info e ]
