-- ===== src/Build/Examples.antt =====
-- A feed with a page, a draft of a page and an association.
use vae_thrift.Prelude.{◌≡◌, refl, ite, arith, false, List, [], ◌∷◌, ℕ_discrete}
use vae_thrift.Prelude.Int.{pos}
use vae_thrift.Prelude.Bytes.{Bytes, bytes}
use vae_thrift.Prelude.Atoi.{atoi}
use vae_thrift.Prelude.Eq.{Bytes-discrete, ℤ-discrete, int_eq, bytes_eq}
use vae_thrift.Prelude.Map.{find, assign}
use vae_thrift.Exec.{ok}
use vae_thrift.Xml.{Node, element, text, Nodes, nil, cons}
use vae_thrift.Build.{Index, build, build_all, finish, read_attrs, read_attr, type_of, register}
use vae_thrift.Build.Staging.{Design, ArePublished}
use vae_thrift.Build.Kept.{IsDesigned, AreDesigned, build_all_lem}

abbrev associations : List (Bytes × Bytes)
associations = (bytes "name", bytes "Tags") ∷ (bytes "type", bytes "AssociationItem") ∷ []

-- The design has one structure.
abbrev design : Design
design id = ite (ℤ-discrete id (pos 4)) (ok (associations ∷ [])) (ok [])

abbrev draft : Node
draft = element 2 (bytes "page") ((bytes "id", bytes "8") ∷ (bytes "staging", bytes "1") ∷ []) nil

abbrev page : Node
page =
    element 1 (bytes "page") ((bytes "id", bytes "7") ∷ [])
      (cons (text (bytes "hello")) (cons draft nil))

abbrev feed : Nodes
feed = cons page (
    cons
      (element 3 (bytes "tags") ((bytes "id", bytes "9") ∷ (bytes "type", bytes "4") ∷ [])
        (cons draft nil))
      nil)

abbrev no_index : Index
no_index = record { nodes = []; permalinks = []; structures = []; associations = [] }

drafts_go :
    (build_all false design (cons page nil) no_index).0
    ≡ ok (
        cons
          (element 1
            (bytes "page")
            ((bytes "id", bytes "7") ∷ [])
            (cons (text (bytes "hello")) nil))
          nil)
unfolding build_all build finish read_attrs read_attr type_of register find assign Bytes-discrete
    ℕ_discrete atoi
drafts_go = refl

feed-AreDesigned : AreDesigned false design feed
unfolding AreDesigned IsDesigned read_attrs read_attr Bytes-discrete ℕ_discrete ℤ-discrete atoi
feed-AreDesigned = (
  ((λ h. absurd (ground (arith, h))), (tt, (((λ h. absurd (ground (arith, h))), tt), tt))),
  (((λ h. (associations, [], refl)), (((λ h. absurd (ground (arith, h))), tt), tt)), tt),
)

build_all_lem_example :
    (nodes' : Nodes) × (s' : Index) × (build_all false design feed no_index ≡ (ok nodes', s'))
    × ArePublished s'.associations nodes'
build_all_lem_example = build_all_lem false design feed no_index feed-AreDesigned
