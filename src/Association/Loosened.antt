-- ===== src/Association/Loosened.antt =====
-- The nodes that the cleaning in `~Site` works on, and those that it leaves.
use vae_thrift.Prelude.{ℕ, ◌≡◌, ◌⊎◌, none, some}
use vae_thrift.Association.{XmlNode, Heap}

-- A node with no relation downwards.
abbrev pub IsBare : XmlNode → Type 0
IsBare n = (n.children ≡ none) × (n.last ≡ none) × (n.properties ≡ none) × (n.private_ ≡ none)

abbrev pub BareAt : Heap → ℕ → Type 0
BareAt h a = (n : XmlNode) × (h a ≡ some n) × IsBare n

-- A node, and the node of its first child if it has one.
abbrev pub StandsAt : Heap → ℕ → Type 0
StandsAt h a =
    (n : XmlNode) × (h a ≡ some n)
    × ((n.children ≡ none)
        ⊎ ((first : ℕ) × (n.children ≡ some first) × ((c : XmlNode) × (h first ≡ some c))))
