-- ===== src/Xml.antt =====
-- The trees of libxml2, as cpp/context.cpp and cpp/response.cpp walk them. A node has an address,
-- which stands for its `xmlNodePtr`.
use vae_thrift.Prelude.{ℕ, List}
use vae_thrift.Prelude.Bytes.{Bytes}

mutual
  -- XML_ELEMENT_NODE with its name, its attributes in order and its children; XML_TEXT_NODE with its
  -- content; a node of another type.
  pub data Node : Type 0 where
    element : ℕ → Bytes → List (Bytes × Bytes) → Nodes → Node
    text : Bytes → Node
    other : Node

  pub data Nodes : Type 0 where
    nil : Nodes
    cons : Node → Nodes → Nodes

abbrev pub children : Node → Nodes
children (element a name attrs kids) = kids
children (text content) = nil
children other = nil
