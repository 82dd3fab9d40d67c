-- ===== src/Xml/Dom/Limits.antt =====
-- src/xml/dom.rs: trees within the resource limits, and their size.
use opensaml_rs.Prelude.{ℕ, suc, ◌+◌, ◌≤◌, ◌≡◌, refl, List, [], ◌∷◌, Text, length, arith}
use opensaml_rs.Xml.Dom.{
  XmlLimits, Node, node, Nodes, no_nodes, nodes, push_node, with_end, push_child, with_text,
}

abbrev pub AttrsFit : XmlLimits → List (Text × Text) → Type 0
AttrsFit limits [] = Unit
AttrsFit limits ((key, value) ∷ attributes) =
    (length value ≤ limits.max_attribute_value_bytes) × AttrsFit limits attributes

-- An element at this depth and all below it are within the limits.
unfoldable mutual
  pub Within : XmlLimits → ℕ → Node → Type 0
  Within limits depth (node name attributes inner content first last) =
      (depth ≤ limits.max_depth)
      × (length attributes ≤ limits.max_attributes_per_element)
      × AttrsFit limits attributes
      × (length content ≤ limits.max_text_bytes)
      × AllWithin limits (suc depth) inner

  pub AllWithin : XmlLimits → ℕ → Nodes → Type 0
  AllWithin limits depth no_nodes = Unit
  AllWithin limits depth (nodes n ns) = Within limits depth n × AllWithin limits depth ns

-- The number of elements.
unfoldable mutual
  pub size : Node → ℕ
  size (node name attributes inner content first last) = suc (size_all inner)

  pub size_all : Nodes → ℕ
  size_all no_nodes = 0
  size_all (nodes n ns) = size n + size_all ns

pub AllWithin-push_node :
    (limits : XmlLimits) (depth : ℕ) (ns : Nodes) (n : Node)
    → AllWithin limits depth ns
    → Within limits depth n
    → AllWithin limits depth (push_node ns n)
unfolding Within push_node
AllWithin-push_node limits depth no_nodes n h w = (w, tt)
AllWithin-push_node limits depth (nodes m ns) n h w =
    (h.0, AllWithin-push_node limits depth ns n h.1 w)

pub size_all-push_node : (ns : Nodes) (n : Node) → size_all (push_node ns n) ≡ size_all ns + size n
unfolding size push_node
size_all-push_node no_nodes n = omega arith
size_all-push_node (nodes m ns) n = omega (arith, size_all-push_node ns n)

abbrev pub StackWithin : XmlLimits → List Node → Type 0
StackWithin limits [] = Unit
StackWithin limits (n ∷ stack) = Within limits (suc (length stack)) n × StackWithin limits stack

abbrev pub stack_size : List Node → ℕ
stack_size [] = 0
stack_size (n ∷ stack) = size n + stack_size stack

-- Pushing a closed element below the innermost open one keeps what was counted.
pub push_child-size :
    (stack : List Node) (roots : Nodes) (n : Node)
    → size_all (push_child stack roots n).1 + stack_size (push_child stack roots n).0
      ≡ size_all roots + stack_size stack + size n
unfolding size
push_child-size [] roots n = omega (arith, size_all-push_node roots n)
push_child-size (node name attributes inner content first last ∷ stack) roots n =
    omega (arith, size_all-push_node inner n)

pub push_child_within :
    (limits : XmlLimits) (stack : List Node) (roots : Nodes) (n : Node)
    → StackWithin limits stack
    → AllWithin limits 1 roots
    → Within limits (suc (length stack)) n
    → StackWithin limits (push_child stack roots n).0
      × AllWithin limits 1 (push_child stack roots n).1
unfolding Within
push_child_within limits [] roots n h r w = (tt, AllWithin-push_node limits 1 roots n r w)
push_child_within limits (node name attributes inner content first last ∷ stack) roots n h r w =
    let (deep, few, fit, short, below) = h.0 in
    (
      (
        (
          deep,
          few,
          fit,
          short,
          AllWithin-push_node limits (suc (suc (length stack))) inner n below w,
        ),
        h.1,
      ),
      r,
    )

pub with_end_within :
    (limits : XmlLimits) (depth last : ℕ) (n : Node)
    → Within limits depth n
    → Within limits depth (with_end n last)
unfolding Within
with_end_within limits depth last (node name attributes inner content first end') w = w

pub size-with_end : (last : ℕ) (n : Node) → size (with_end n last) ≡ size n
unfolding size
size-with_end last (node name attributes inner content first end') = refl

pub size-with_text : (new : Text) (n : Node) → size (with_text n new) ≡ size n
unfolding size
size-with_text new (node name attributes inner content first last) = refl

module _ (limits : XmlLimits) where
  pub with_text_within :
      (depth : ℕ) (new : Text) (n : Node)
      → Within limits depth n
      → length new ≤ limits.max_text_bytes
      → Within limits depth (with_text n new)
  unfolding Within
  with_text_within depth new (node name attributes inner content first last) w h =
      (w.0, w.1, w.2, h, w.4)
