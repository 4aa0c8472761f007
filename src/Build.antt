-- ===== src/Build.antt =====
-- How a site makes contexts of its feed: the constructor of `Context` and `populateAttrs` in
-- cpp/context.cpp, `structureFromStructureId` in cpp/site.cpp. The nodes that a query of the design
-- finds are a parameter, by their attributes.
pub mod Laws
pub mod Staging
pub mod Published
pub mod Kept
mod Examples
use vae_thrift.Prelude.{
  ℕ, ltb, if◌then◌else◌, Bool, true, false, not, ◌&&◌, ◌||◌, Option, none, some, List, [], ◌∷◌,
  ◌++◌, ite,
}
use vae_thrift.Prelude.Int.{ℤ, pos, ltb_ℤ}
use vae_thrift.Prelude.Bytes.{Bytes, bytes}
use vae_thrift.Prelude.Atoi.{atoi}
use vae_thrift.Prelude.Eq.{Bytes-discrete, bytes_eq, int_eq}
use vae_thrift.Prelude.Map.{Map, find, assign}
use vae_thrift.Exec.{Result, ok, raise, undefined, Exec, pure, lift, modify, gets, ◌>>=◌, ◌>>◌}
use vae_thrift.Xml.{Node, element, text, other, Nodes, nil, cons}

-- VaeDbStructure, without its id.
pub record Structure : Type 0 where
  pub name : Bytes
  pub permalink : Bytes
  pub type_name : Bytes

-- What `populateAttrs` reads: `killed` is its result, the rest the fields that it sets.
pub record Attrs : Type 0 where
  pub id : ℤ
  pub structure_id : ℤ
  pub permalink : Option Bytes
  pub killed : Bool

-- The maps of the site: the nodes by id and by permalink, the structures that were looked up, and
-- the associations that wait for `initializeAssociation`.
pub record Index : Type 0 where
  pub nodes : Map ℤ ℕ
  pub permalinks : Map Bytes ℕ
  pub structures : Map ℤ Structure
  pub associations : List ℕ

abbrev pub is_name : Bytes → Bytes → Bool
is_name a b = ite (Bytes-discrete a b) true false

-- The first three tests on an attribute.
unfoldable pub read_attr : Bytes → Bytes → Attrs → Attrs
read_attr name content p =
    let p₁ = if is_name name (bytes "id") then record p { id = atoi content } else p in
    let p₂ =
      if is_name name (bytes "type") then record p₁ { structure_id = atoi content } else p₁ in
    if is_name name (bytes "permalink") then record p₂ { permalink = some content } else p₂

-- The loop over the attributes, which the fourth test may leave.
unfoldable pub read_attrs : Bool → List (Bytes × Bytes) → Attrs → Attrs
read_attrs staging_mode [] p = p
read_attrs staging_mode ((name, content) ∷ attrs) p =
    let p' = read_attr name content p in
    let rest = read_attrs staging_mode attrs p' in
    if not staging_mode && is_name name (bytes "staging") then record p' { killed = true } else rest

abbrev pub no_attrs : Attrs
no_attrs = record { id = pos 0; structure_id = pos 0; permalink = none; killed = false }

-- The loop of `structureFromStructureId` over the attributes of the node found.
unfoldable pub read_structure : List (Bytes × Bytes) → Structure → Structure
read_structure [] s = s
read_structure ((name, content) ∷ attrs) s =
    let s₁ = if is_name name (bytes "name") then record s { name = content } else s in
    let s₂ = if is_name name (bytes "permalink") then record s₁ { permalink = content } else s₁ in
    read_structure attrs
      (if is_name name (bytes "type") then record s₂ { type_name = content } else s₂)

module _ (staging_mode : Bool) (design : ℤ → Result (List (List (Bytes × Bytes)))) where
  -- `structureFromStructureId`. With no node found, `getNode(0)` reads from a null `nodeTab`.
  unfoldable pub structure_from_id : ℤ → Exec Index Structure
  structure_from_id id s = elim (find id s.structures) [
    | some structure ↦ (ok structure, s)
    | none ↦
        (do
          found ← lift (design id)
          elim found [
            | [] ↦ lift undefined
            | attrs ∷ more ↦ do
              let structure =
                  read_structure attrs (record { name = []; permalink = []; type_name = [] })
              modify λ s. record s { structures = assign id structure s.structures }
              pure structure
          ])
          s
  ]

  -- The end of `populateAttrs`: the field `type` of the context.
  unfoldable pub type_of : ℤ → Exec Index Bytes
  type_of structure_id =
      if ltb_ℤ (pos 0) structure_id
      then (do structure ← structure_from_id structure_id; pure structure.type_name)
      else pure []

  abbrev pub is_association : Bytes → Bool
  is_association t =
      is_name t (bytes "AssociationItem") || is_name t (bytes "SingleAssociationItem")

  -- `site->nodes[id] = node` and `site->permalinks[permalink] = node`.
  unfoldable pub register : ℕ → Attrs → Index → Index
  register address p s =
      let s₁ = record s { nodes = assign p.id address s.nodes } in
      elim p.permalink [
        | none ↦ s₁
        | some permalink ↦ record s₁ { permalinks = assign permalink address s₁.permalinks }
      ]

  -- The rest of the constructor, for a node that stays: `below` makes the contexts of its children,
  -- which an association does not have yet.
  unfoldable pub finish :
      ℕ → Bytes → List (Bytes × Bytes) → Nodes → Exec Index Nodes → Exec Index (Option Node)
  finish address name attrs kids below = do
    t ← type_of (read_attrs staging_mode attrs no_attrs).structure_id
    kids' ←
        if is_association t
        then (do
          modify λ s. record s { associations = s.associations ++ (address ∷ []) }
          pure kids)
        else below
    modify (register address (read_attrs staging_mode attrs no_attrs))
    pure (some (element address name attrs kids'))

  unfoldable mutual
    -- The constructor on a node, and what its caller does with the node: `none` where it is
    -- unlinked and freed.
    pub build : Node → Exec Index (Option Node)
    build (text t) s = (ok (some (text t)), s)
    build other s = (ok (some other), s)
    build (element address name attrs kids) s =
        let below = build_all kids in
        if (read_attrs staging_mode attrs no_attrs).killed
        then (ok none, s)
        else finish address name attrs kids below s

    -- The loops over the children of a node, here and in `loadXmlDoc`.
    pub build_all : Nodes → Exec Index Nodes
    build_all nil s = (ok nil, s)
    build_all (cons node rest) s =
        let more = build_all rest in
        (do
          kept ← build node
          rest' ← more
          pure (elim kept [ none ↦ rest' | some node' ↦ cons node' rest' ]))
          s
