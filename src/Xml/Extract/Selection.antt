-- ===== src/Xml/Extract/Selection.antt =====
-- src/xml/extract.rs: the selection by levels against a walk down the tree.
use opensaml_rs.Prelude.{
  arith, ◌≡◌, refl, sym, ap, inl, inr, Bool-cases, ◌∙◌, Bool, true, false, List, [], ◌∷◌, ◌++◌,
  append_assoc, append-nil, Text,
}
use opensaml_rs.Xml.Dom.{Node, Nodes, no_nodes, nodes, local_name, children}
use opensaml_rs.Xml.Extract.{seg_matches, matching, next_level, levels, select_path}

-- The nodes at the end of a path below a node, in document order: one branch of the tree after the
-- other.
unfoldable pub below_if : (Node → List Node) → Bool → Node → List Node
below_if down true n = down n
below_if down false n = []

unfoldable pub below_each : (Node → List Node) → Text → Nodes → List Node
below_each down seg no_nodes = []
below_each down seg (nodes n ns) =
    below_if down (seg_matches (local_name n) seg) n ++ below_each down seg ns

unfoldable pub below : List Text → Node → List Node
below [] n = n ∷ []
below (seg ∷ rest) n = below_each (λ m. below rest m) seg (children n)

unfoldable pub walk_path : Node → List Text → List Node
walk_path root [] = []
walk_path root (first ∷ rest) = below_if (below rest) (seg_matches (local_name root) first) root

below_all : List Text → List Node → List Node
below_all path [] = []
below_all path (n ∷ ns) = below path n ++ below_all path ns

below_all-append :
    (path : List Text) (ms ns : List Node)
    → below_all path (ms ++ ns) ≡ below_all path ms ++ below_all path ns
unfolding below_all
below_all-append path [] ns = refl
below_all-append path (m ∷ ms) ns =
    rw (below_all-append path ms ns)
      (sym (append_assoc (below path m) (below_all path ms) (below_all path ns)))

below_all-matching :
    (seg : Text) (rest : List Text) (ns : Nodes)
    → below_all rest (matching seg ns) ≡ below_each (below rest) seg ns
unfolding below_all below_each below_if
below_all-matching seg rest no_nodes = refl
below_all-matching seg rest (nodes n ns) = elim (Bool-cases (seg_matches (local_name n) seg)) [
  | inl hit ↦ ground (arith, hit, below_all-matching seg rest ns)
  | inr miss ↦ ground (arith, miss, below_all-matching seg rest ns)
]

below_all-next_level :
    (seg : Text) (rest : List Text) (current : List Node)
    → below_all rest (next_level seg current) ≡ below_all (seg ∷ rest) current
unfolding below_all next_level below
below_all-next_level seg rest [] = refl
below_all-next_level seg rest (n ∷ current) =
    rw
      (
        below_all-append rest (matching seg (children n)) (next_level seg current),
        below_all-matching seg rest (children n),
        below_all-next_level seg rest current,
      )
      refl

below_all-nil : (current : List Node) → below_all [] current ≡ current
unfolding below_all below
below_all-nil [] = refl
below_all-nil (n ∷ current) = ap (λ found. n ∷ found) (below_all-nil current)

levels-below_all :
    (path : List Text) (current : List Node) → levels path current ≡ below_all path current
unfolding levels
levels-below_all [] current = sym (below_all-nil current)
levels-below_all (seg ∷ rest) current =
    levels-below_all rest (next_level seg current) ∙ below_all-next_level seg rest current

-- The selection by levels gives the nodes at the end of the path, each once for every way to reach
-- it, in document order.
pub select_path-walk_path :
    (root : Node) (path : List Text) → select_path root path ≡ walk_path root path
unfolding select_path walk_path below_if below_all
select_path-walk_path root [] = refl
select_path-walk_path root (first ∷ rest) =
    elim (Bool-cases (seg_matches (local_name root) first)) [
      | inl hit ↦ simp (hit, levels-below_all rest (root ∷ []), append-nil (below rest root))
      | inr miss ↦ simp miss
    ]
