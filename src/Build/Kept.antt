-- ===== src/Build/Kept.antt =====
-- The loops over the nodes of a feed return, and what they keep.
use vae_thrift.Prelude.{
  ℕ, ◌≡◌, refl, ap, ◌∙◌, inl, inr, if◌then◌else◌, Bool, true, false, Option, none, some, List, [],
  ◌∷◌, ◌++◌, Bool-cases, Option-cases,
}
use vae_thrift.Prelude.Int.{ℤ, pos, ltb_ℤ}
use vae_thrift.Prelude.Bytes.{Bytes}
use vae_thrift.Prelude.Eq.{bytes_eq, int_eq}
use vae_thrift.Prelude.Map.{find}
use vae_thrift.Exec.{Result, ok, Exec, pure, modify, continue, ◌>>=◌, ◌>>◌}
use vae_thrift.Xml.{Node, element, text, other, Nodes, nil, cons}
use vae_thrift.Build.{
  Index, read_attrs, no_attrs, structure_from_id, type_of, register, finish, is_association, build,
  build_all,
}
use vae_thrift.Build.Staging.{Design, ArePublished, build_all_staging}
use vae_thrift.Build.Published.{build_all-ArePublished}

-- The call returns.
abbrev pub Returns {ℓ κ} : {S : Type ℓ} {A : Type κ} → Exec S A → S → Type (ℓ ⊔ κ)
Returns {S = S} {A = A} m s = (a : A) × (t : S) × (m s ≡ (ok a, t))

>>=-Returns {ℓ κ μ} :
    {S : Type ℓ} {A : Type κ} {B : Type μ} (m : Exec S A) (f : A → Exec S B) (s : S)
    → Returns m s
    → ((a : A) (t : S) → Returns (f a) t)
    → Returns (m >>= f) s
>>=-Returns {S = S} {A = A} m f s (a, t, e) more =
    let (b, u, e') = more a t in (b, u, ap (λ (p : Result A × S). continue p.0 f p.1) e ∙ e')

-- The design has a node for a structure.
abbrev pub HasStructure : Design → ℤ → Type 0
HasStructure design id =
    (attrs : List (Bytes × Bytes)) × (more : List (List (Bytes × Bytes))) × (design id
      ≡ ok (attrs ∷ more))

-- The design has a node for every structure that the nodes name.
unfoldable mutual
  pub IsDesigned : Bool → Design → Node → Type 0
  IsDesigned staging_mode design (element address name attrs kids) =
      (ltb_ℤ (pos 0) (read_attrs staging_mode attrs no_attrs).structure_id ≡ true
        → HasStructure design (read_attrs staging_mode attrs no_attrs).structure_id)
      × AreDesigned staging_mode design kids
  IsDesigned staging_mode design (text t) = Unit {0}
  IsDesigned staging_mode design other = Unit {0}

  pub AreDesigned : Bool → Design → Nodes → Type 0
  AreDesigned staging_mode design nil = Unit {0}
  AreDesigned staging_mode design (cons node rest) =
      IsDesigned staging_mode design node × AreDesigned staging_mode design rest

module _ (staging_mode : Bool) (design : Design) where
  structure_from_id-Returns :
      (id : ℤ) (s : Index)
      → HasStructure design id
      → Returns (structure_from_id staging_mode design id) s
  unfolding structure_from_id
  structure_from_id-Returns id s (attrs, more, e) = elim (Option-cases (find id s.structures)) [
    | inl absent ↦ rw (structure_from_id, absent, e) (_, _, refl)
    | inr (structure, found) ↦ rw (structure_from_id, found) (structure, s, refl)
  ]

  type_of-Returns :
      (id : ℤ) (s : Index)
      → (ltb_ℤ (pos 0) id ≡ true → HasStructure design id)
      → Returns (type_of staging_mode design id) s
  unfolding type_of
  type_of-Returns id s designed = elim (Bool-cases (ltb_ℤ (pos 0) id)) [
    | inl e ↦
        rw (type_of, e)
          (>>=-Returns (structure_from_id staging_mode design id)
            (λ structure. pure structure.type_name) s (structure_from_id-Returns id s (designed e))
            (λ structure t. (structure.type_name, t, refl)))
    | inr e ↦ rw (type_of, e) ([], s, refl)
  ]

  finish-Returns :
      (address : ℕ) (name : Bytes) (attrs : List (Bytes × Bytes)) (kids : Nodes)
      (below : Exec Index Nodes) (s : Index)
      → (ltb_ℤ (pos 0) (read_attrs staging_mode attrs no_attrs).structure_id ≡ true
          → HasStructure design (read_attrs staging_mode attrs no_attrs).structure_id)
      → ((t : Index) → Returns below t)
      → Returns (finish staging_mode design address name attrs kids below) s
  unfolding finish
  finish-Returns address name attrs kids below s designed more =
      >>=-Returns
        (type_of staging_mode design (read_attrs staging_mode attrs no_attrs).structure_id) _ s
        (type_of-Returns (read_attrs staging_mode attrs no_attrs).structure_id s designed)
        λ t s₁.
          let push : Exec Index Nodes = (do
            modify λ s. record s { associations = s.associations ++ (address ∷ []) }
            pure kids) in
          let rest : Exec Index Nodes =
            if is_association staging_mode design t then push else below in
          let kept : Nodes → Option Node = λ kids'. some (element address name attrs kids') in
          let last : Index → Index =
            register staging_mode design address (read_attrs staging_mode attrs no_attrs) in
          >>=-Returns rest (λ kids'. modify last >> pure (kept kids')) s₁
            (elim (is_association staging_mode design t)
              as (λ b. Returns (if b then push else below) s₁) [
                | true ↦
                    (kids, record s₁ { associations = s₁.associations ++ (address ∷ []) }, refl)
                | false ↦ more s₁
              ])
            λ kids' s₂. (kept kids', last s₂, refl)

  mutual
    unfolding build build_all IsDesigned AreDesigned

    build-Returns :
        (node : Node) (s : Index)
        → IsDesigned staging_mode design node
        → Returns (build staging_mode design node) s
    build-Returns (text t) s designed = (some (text t), s, refl)
    build-Returns other s designed = (some other, s, refl)
    build-Returns (element address name attrs kids) s (named, below) =
        elim (Bool-cases (read_attrs staging_mode attrs no_attrs).killed) [
          | inl killed ↦ rw (build, killed) (none, s, refl)
          | inr kept ↦
              rw (build, kept)
                (finish-Returns address name attrs kids (build_all staging_mode design kids) s named
                  (λ t. build_all-Returns kids t below))
        ]

    build_all-Returns :
        (nodes : Nodes) (s : Index)
        → AreDesigned staging_mode design nodes
        → Returns (build_all staging_mode design nodes) s
    build_all-Returns nil s designed = (nil, s, refl)
    build_all-Returns (cons node rest) s (first, more) =
        >>=-Returns (build staging_mode design node) _ s (build-Returns node s first) λ kept t.
          >>=-Returns (build_all staging_mode design rest) _ t (build_all-Returns rest t more)
            λ rest' u. (elim kept [ none ↦ rest' | some node' ↦ cons node' rest' ], u, refl)

-- Where the design has every structure that an element of the feed names, the loops over the nodes return. A site
-- in staging mode keeps the nodes as the feed has them. A site in production keeps no node with a
-- staging attribute at any depth, but below the associations that still wait to be initialized.
pub build_all_lem :
    (staging_mode : Bool) (design : Design)
    → (nodes : Nodes) (s : Index) → AreDesigned staging_mode design nodes
    → (nodes' : Nodes) × (s' : Index) × (build_all staging_mode design nodes s ≡ (ok nodes', s'))
      × (if staging_mode then nodes' ≡ nodes else ArePublished s'.associations nodes')
build_all_lem true design nodes s designed =
    let (nodes', s', e) = build_all-Returns true design nodes s designed in
    (nodes', s', e, build_all_staging design nodes s s' nodes' e)
build_all_lem false design nodes s designed =
    let (nodes', s', e) = build_all-Returns false design nodes s designed in
    (nodes', s', e, build_all-ArePublished design nodes s s' nodes' e)
