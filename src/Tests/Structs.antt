-- ===== src/Tests/Structs.antt =====
-- A struct of two INT members that is read at once.
use go_adstc.Prelude.{ℕ, zero, suc, ◌≡◌, refl, arith, true, [], ◌∷◌, ◌++◌, Option}
use go_adstc.Prelude.{ap, ◌∙◌, ◌<◌, none, some, inr, if◌then◌else◌, ◌==◌}
use go_adstc.Go.Result.{ok}
use go_adstc.Go.Bytes.{codes, of_le}
use go_adstc.Go.Binary.{pack}
use go_adstc.Go.Strconv.{text_eq, format_int}
use go_adstc.Symbol.{Text, Symbol, lookup}
use go_adstc.Conn.{Env, Conn}
use go_adstc.Command.{response_layout}
use go_adstc.SymbolTable.Trees.{Tree, node, tree, no_trees, facts_of, IsTree}
use go_adstc.Value.{parse_leaf, kind_of, parse_known, parse_kind}
use go_adstc.Value.Update.Changed.{Rooted, Upward}
use go_adstc.Value.Update.Layouts.{AllLeaves, HasValue}
use go_adstc.Value.Update.Structs.{kids_in}
use go_adstc.Client.{read_from_symbol}
use go_adstc.Client.Structs.{read_from_symbol-leaves}
use go_adstc.Tests.Clients.{main_x, client, no_floats}
use go_adstc.Tests.Tables.{plain}

abbrev root : Symbol
root = record main_x {
  full_name = codes "Main.p";
  name = codes "Main.p";
  data_type = codes "Point";
  handle = 17;
  length = 4;
  childs = (codes "x", 1) ∷ (codes "y", 2) ∷ [];
}

abbrev member_x : Symbol
member_x = record main_x { full_name = codes "Main.p.x"; name = codes "x"; parent = some 0 }

abbrev member_y : Symbol
member_y = record main_x {
  full_name = codes "Main.p.y";
  name = codes "y";
  offset = 2;
  parent = some 0;
}

abbrev point_client : Conn
point_client = record (client 17) {
  store = root ∷ member_x ∷ member_y ∷ [];
  symbols = (codes "Main.p", 0) ∷ [];
}

abbrev point_tree : Tree
point_tree = node (facts_of root) (
    tree (codes "x") (node (facts_of member_x) no_trees)
      (tree (codes "y") (node (facts_of member_y) no_trees) no_trees))

-- The clock stands still at a second.
abbrev reader : Env
reader = record {
  accepts = λ _. true;
  reply = λ _. some (pack response_layout (0 ∷ 4 ∷ []) ++ (7 ∷ 0 ∷ 0xfe ∷ 0xff ∷ []));
  clock = λ _. 1000000000;
}

abbrev texts : ℕ → Text
texts q = if q == 1 then codes "7" else codes "-2"

point-IsTree : IsTree point_client.store none 0 point_tree
point-IsTree = (
  root,
  refl,
  refl,
  refl,
  (
    1,
    (codes "y", 2) ∷ [],
    refl,
    omega arith,
    (member_x, refl, refl, refl, refl),
    (2, [], refl, omega arith, (member_y, refl, refl, refl, refl), refl),
  ),
)

parent_in : Option Symbol → Option ℕ
parent_in none = none
parent_in (some s) = s.parent

below_one : (p : ℕ) → some 0 ≡ some p → p < 1
below_one p e = let zero_p : 0 ≡ p = cc in omega (arith, zero_p)

point-Rooted : Rooted point_client.store
unfolding parent_in
point-Rooted zero p s at up = cc
point-Rooted (suc zero) p s at up = below_one p (ap parent_in at ∙ up)
point-Rooted (suc (suc zero)) p s at up = omega (arith, below_one p (ap parent_in at ∙ up))
point-Rooted (suc (suc (suc r))) p s at up = cc

point-Upward : Upward point_client.store
point-Upward zero p s at up marked t t_at = cc
point-Upward (suc zero) p s at up marked t t_at = cc
point-Upward (suc (suc zero)) p s at up marked t t_at = cc
point-Upward (suc (suc (suc r))) p s at up marked t t_at = cc

read_x : parse_leaf no_floats (codes "INT") 2 (7 ∷ 0 ∷ []) 0 ≡ ok (some (codes "7"))
unfolding parse_leaf parse_known parse_kind kind_of lookup text_eq format_int of_le
read_x = refl

read_y : parse_leaf no_floats (codes "INT") 2 (0xfe ∷ 0xff ∷ []) 0 ≡ ok (some (codes "-2"))
unfolding parse_leaf parse_known parse_kind kind_of lookup text_eq format_int of_le
read_y = refl

read_from_symbol-leaves_example :
    (text : Text) × (d : Conn) × (read_from_symbol reader plain no_floats
        (codes "Main.p")
        point_client
      ≡ (ok text, d))
    × AllLeaves
        (kids_in point_client.store)
        (HasValue (kids_in point_client.store) texts d)
        0
        point_tree
unfolding lookup text_eq
read_from_symbol-leaves_example =
    read_from_symbol-leaves reader plain no_floats (codes "Main.p") 0 root point_client refl refl
      (omega arith) texts point_tree 4 (7 ∷ 0 ∷ 0xfe ∷ 0xff ∷ []) none refl (λ e. cc)
      (point-Rooted, point-Upward) (omega arith) refl refl point-IsTree
      (omega arith, tt, ((omega arith, read_x, tt), ((omega arith, read_y, tt), tt)))
      (
        tt,
        (
          ((member_x, refl, refl, inr (λ n le. omega arith)), tt),
          (((member_y, refl, refl, inr (λ n le. omega arith)), tt), tt),
        ),
      )
