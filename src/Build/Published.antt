-- ===== src/Build/Published.antt =====
-- A site in production keeps no node with a staging attribute.
use mathlib.Core.List.{append_assoc, append-nil}
use vae_thrift.Prelude.{
  ℕ, ◌≡◌, refl, sym, ap, ◌∙◌, inl, inr, Bool, false, Option, none, some, List, [], ◌∷◌, ◌++◌, arith,
  Bool-cases,
}
use vae_thrift.Prelude.Int.{ℤ, pos, ltb_ℤ}
use vae_thrift.Prelude.Bytes.{Bytes}
use vae_thrift.Prelude.Eq.{bytes_eq, int_eq}
use vae_thrift.Exec.{ok, >>=-eq-ok, pure, ◌>>=◌}
use vae_thrift.Xml.{Node, element, text, other, Nodes, nil, cons}
use vae_thrift.Build.{
  Structure, Attrs, Index, read_attrs, no_attrs, structure_from_id, type_of, register, build,
  build_all,
}
use vae_thrift.Build.Laws.{
  read_attrs-IsPublic, build-Built, build_all-cons, build-text, build-other, build_all-nil,
}
use vae_thrift.Build.Staging.{Design, IsWaiting-append, IsPublished, ArePublished}

-- The associations that wait only become more.
abbrev Grows : Index → Index → Type 0
Grows s s' = (extra : List ℕ) × (s'.associations ≡ s.associations ++ extra)

Grows-refl : (s s' : Index) → s'.associations ≡ s.associations → Grows s s'
Grows-refl s s' e = ([], e ∙ sym (append-nil s.associations))

Grows-trans : (s t u : Index) → Grows s t → Grows t u → Grows s u
Grows-trans s t u (m, e) (n, f) = (m ++ n, f ∙ ap (λ x. x ++ n) e ∙ append_assoc s.associations m n)

module _ (staging_mode : Bool) (design : Design) where
  structure_from_id-keeps :
      (id : ℤ) (s s' : Index) (structure : Structure)
      → structure_from_id staging_mode design id s ≡ (ok structure, s')
      → s'.associations ≡ s.associations
  unfolding structure_from_id
  structure_from_id-keeps id s s' structure h = ground arith

  type_of-keeps :
      (id : ℤ) (s s' : Index) (t : Bytes)
      → type_of staging_mode design id s ≡ (ok t, s')
      → s'.associations ≡ s.associations
  unfolding type_of
  type_of-keeps id s s' t h = elim (Bool-cases (ltb_ℤ (pos 0) id)) [
    | inr low ↦ ground arith
    | inl high ↦
        let h' : (structure_from_id staging_mode design id >>= λ (x : Structure). pure x.type_name)
              s
            ≡ (ok t, s') =
          ground (arith, h) in
        let (structure, s₁, found, h₁) =
          >>=-eq-ok (structure_from_id staging_mode design id) (λ (x : Structure). pure x.type_name)
            s h' in
        ground (arith, h₁, structure_from_id-keeps id s s₁ structure found)
  ]

  register-keeps :
      (address : ℕ) (p : Attrs) (s : Index)
      → (register staging_mode design address p s).associations ≡ s.associations
  unfolding register
  register-keeps address p s = ground arith

  mutual
    build-Grows :
        (node : Node) (s s' : Index) (r : Option Node)
        → build staging_mode design node s ≡ (ok r, s')
        → Grows s s'
    build-Grows (text t) s s' r h =
        Grows-refl s s' (ground (arith, build-text staging_mode design t s))
    build-Grows other s s' r h = Grows-refl s s' (ground (arith, build-other staging_mode design s))
    build-Grows (element address name attrs kids) s s' r h =
        elim (build-Built staging_mode design address name attrs kids s s' r h) [
          | inl (killed, gone, same) ↦ Grows-refl s s' (ap (λ (x : Index). x.associations) same)
          | inr (t, s₁, kids', s₂, kept, found, inl (_, _, pushed), e, last) ↦ (
            address ∷ [],
            ap (λ (x : Index). x.associations) last
                ∙ register-keeps address (read_attrs staging_mode attrs no_attrs) s₂
                ∙ ap (λ (x : Index). x.associations) pushed
                ∙ ap (λ x. x ++ (address ∷ [])) (type_of-keeps _ s s₁ t found),
          )
          | inr (t, s₁, kids', s₂, kept, found, inr (_, made), e, last) ↦
              let (extra, more) = build_all-Grows kids s₁ s₂ kids' made in
              (
                extra,
                ap (λ (x : Index). x.associations) last
                    ∙ register-keeps address (read_attrs staging_mode attrs no_attrs) s₂
                    ∙ more
                    ∙ ap (λ x. x ++ extra) (type_of-keeps _ s s₁ t found),
              )
        ]

    build_all-Grows :
        (nodes : Nodes) (s s' : Index) (nodes' : Nodes)
        → build_all staging_mode design nodes s ≡ (ok nodes', s')
        → Grows s s'
    build_all-Grows nil s s' nodes' h =
        Grows-refl s s' (ground (arith, build_all-nil staging_mode design s))
    build_all-Grows (cons node rest) s s' nodes' h =
        let (kept, s₁, rest', one, more, e) =
          build_all-cons staging_mode design node rest s s' nodes' h in
        Grows-trans s s₁ s' (build-Grows node s s₁ kept one) (build_all-Grows rest s₁ s' rest' more)

mutual
  unfolding IsPublished ArePublished

  IsPublished-append : (l m : List ℕ) (node : Node) → IsPublished l node → IsPublished (l ++ m) node
  IsPublished-append l m (text t) h = tt
  IsPublished-append l m other h = tt
  IsPublished-append l m (element address name attrs kids) (clean, inl waits) =
      (clean, inl (IsWaiting-append address l m waits))
  IsPublished-append l m (element address name attrs kids) (clean, inr below) =
      (clean, inr (ArePublished-append l m kids below))

  ArePublished-append :
      (l m : List ℕ) (nodes : Nodes) → ArePublished l nodes → ArePublished (l ++ m) nodes
  ArePublished-append l m nil h = tt
  ArePublished-append l m (cons node rest) (one, more) =
      (IsPublished-append l m node one, ArePublished-append l m rest more)

ArePublished-Grows :
    (s s' : Index) (node : Node)
    → Grows s s'
    → IsPublished s.associations node
    → IsPublished s'.associations node
ArePublished-Grows s s' node (extra, e) h = rw e (IsPublished-append s.associations extra node h)

ArePublished-cons :
    (l : List ℕ) (kept : Option Node) (rest : Nodes)
    → ((node : Node) → kept ≡ some node → IsPublished l node)
    → ArePublished l rest
    → ArePublished l (elim kept [ none ↦ rest | some node ↦ cons node rest ])
unfolding ArePublished
ArePublished-cons l none rest one more = more
ArePublished-cons l (some node) rest one more = (one node refl, more)

module _ (design : Design) where
  mutual
    unfolding IsPublished ArePublished

    build-IsPublished :
        (node : Node) (s s' : Index) (r : Option Node)
        → build false design node s ≡ (ok r, s')
        → (node' : Node) → r ≡ some node'
        → IsPublished s'.associations node'
    build-IsPublished (text t) s s' r h node' e =
        let same : node' ≡ text t = ground (arith, build-text false design t s) in rw same tt
    build-IsPublished other s s' r h node' e =
        let same : node' ≡ other = ground (arith, build-other false design s) in rw same tt
    build-IsPublished (element address name attrs kids) s s' r h node' e =
        elim (build-Built false design address name attrs kids s s' r h) [
          | inl (killed, gone, same) ↦ absurd (ground arith)
          | inr (t, s₁, kids', s₂, kept, found, inl (_, same, pushed), f, last) ↦
              let is : node' ≡ element address name attrs kids' = ground arith in
              rw is (
                read_attrs-IsPublic attrs no_attrs kept,
                inl (
                  s₁.associations,
                  [],
                  ap (λ (x : Index). x.associations) last
                      ∙ register-keeps false design address (read_attrs false attrs no_attrs) s₂
                      ∙ ap (λ (x : Index). x.associations) pushed,
                ),
              )
          | inr (t, s₁, kids', s₂, kept, found, inr (_, made), f, last) ↦
              let is : node' ≡ element address name attrs kids' = ground arith in
              let same =
                ap (λ (x : Index). x.associations) last
                ∙ register-keeps false design address (read_attrs false attrs no_attrs) s₂ in
              rw is (
                read_attrs-IsPublic attrs no_attrs kept,
                inr (rw same (build_all-ArePublished kids s₁ s₂ kids' made)),
              )
        ]

    -- In production, when the constructor returns on nodes, what it keeps of them has no staging
    -- attribute at any depth, but below associations that wait to be initialized.
    pub build_all-ArePublished :
        (nodes : Nodes) (s s' : Index) (nodes' : Nodes)
        → build_all false design nodes s ≡ (ok nodes', s')
        → ArePublished s'.associations nodes'
    build_all-ArePublished nil s s' nodes' h =
        let same : nodes' ≡ nil = ground (arith, build_all-nil false design s) in rw same tt
    build_all-ArePublished (cons node rest) s s' nodes' h =
        let (kept, s₁, rest', one, more, e) = build_all-cons false design node rest s s' nodes' h in
        rw e (
          ArePublished-cons s'.associations kept rest'
            (λ node' k.
              ArePublished-Grows s₁ s' node' (build_all-Grows false design rest s₁ s' rest' more)
                (build-IsPublished node s s₁ kept one node' k))
            (build_all-ArePublished rest s₁ s' rest' more))
