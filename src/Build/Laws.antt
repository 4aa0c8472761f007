-- ===== src/Build/Laws.antt =====
-- Which nodes a site keeps.
use vae_thrift.Prelude.{
  ℕ, ◌≡◌, ◌≢◌, refl, ◌∙◌, ◌⊎◌, inl, inr, if◌then◌else◌, Bool, true, false, Option, none, some, List,
  [], ◌∷◌, ◌++◌, arith, All, Bool-cases,
}
use vae_thrift.Prelude.Int.{ℤ}
use vae_thrift.Prelude.Bytes.{Bytes, bytes}
use vae_thrift.Prelude.Eq.{Bytes-discrete, bytes_eq, int_eq}
use vae_thrift.Exec.{Result, ok, Exec, pure, modify, ◌>>◌, >>=-eq-ok}
use vae_thrift.Xml.{Node, element, text, other, Nodes, nil, cons}
use vae_thrift.Build.{
  Attrs, Index, read_attr, read_attrs, no_attrs, finish, type_of, is_association, register, build,
  build_all,
}

-- No attribute of that name.
abbrev pub IsPublic : List (Bytes × Bytes) → Type 0
IsPublic attrs = All (λ (a : Bytes × Bytes). a.0 ≢ bytes "staging") attrs

pub read_attrs-IsPublic :
    (attrs : List (Bytes × Bytes)) (p : Attrs)
    → (read_attrs false attrs p).killed ≡ false
    → IsPublic attrs
unfolding read_attrs
read_attrs-IsPublic [] p h = tt
read_attrs-IsPublic ((name, content) ∷ attrs) p h = elim (Bytes-discrete name (bytes "staging")) [
  | yes e ↦ absurd (ground arith)
  | no ne ↦ (ne, read_attrs-IsPublic attrs (read_attr name content p) (ground arith))
]

killed-read_attr : (name content : Bytes) (p : Attrs) → (read_attr name content p).killed ≡ p.killed
unfolding read_attr
killed-read_attr name content p = ground arith

pub killed-read_attrs :
    (attrs : List (Bytes × Bytes)) (p : Attrs) → (read_attrs true attrs p).killed ≡ p.killed
unfolding read_attrs
killed-read_attrs [] p = refl
killed-read_attrs ((name, content) ∷ attrs) p =
    killed-read_attrs attrs (read_attr name content p) ∙ killed-read_attr name content p

module _ (staging_mode : Bool) (design : ℤ → Result (List (List (Bytes × Bytes)))) where
  -- What the constructor has done with an element, when it returns.
  abbrev pub Built : ℕ → Bytes → List (Bytes × Bytes) → Nodes → Index → Option Node → Index → Type 0
  Built address name attrs kids s r s' =
      let p = read_attrs staging_mode attrs no_attrs in
      ((p.killed ≡ true) × (r ≡ none) × (s' ≡ s))
      ⊎ ((t : Bytes) × (s₁ : Index) × (kids' : Nodes) × (s₂ : Index) × (p.killed ≡ false)
          × (type_of staging_mode design p.structure_id s ≡ (ok t, s₁))
          × (((is_association staging_mode design t ≡ true)
                × (kids' ≡ kids)
                × (s₂ ≡ record s₁ { associations = s₁.associations ++ (address ∷ []) }))
              ⊎ ((is_association staging_mode design t ≡ false)
                  × (build_all staging_mode design kids s₁ ≡ (ok kids', s₂))))
          × (r ≡ some (element address name attrs kids'))
          × (s' ≡ register staging_mode design address p s₂))

  finish-ok :
      (address : ℕ) (name : Bytes) (attrs : List (Bytes × Bytes)) (kids : Nodes)
      (below : Exec Index Nodes) (s s' : Index) (r : Option Node)
      → finish staging_mode design address name attrs kids below s ≡ (ok r, s')
      → let p = read_attrs staging_mode attrs no_attrs in
        (t : Bytes) × (s₁ : Index) × (kids' : Nodes) × (s₂ : Index) × (type_of staging_mode design
            p.structure_id s
          ≡ (ok t, s₁))
        × (((is_association staging_mode design t ≡ true)
              × (kids' ≡ kids)
              × (s₂ ≡ record s₁ { associations = s₁.associations ++ (address ∷ []) }))
            ⊎ ((is_association staging_mode design t ≡ false) × (below s₁ ≡ (ok kids', s₂))))
        × (r ≡ some (element address name attrs kids'))
        × (s' ≡ register staging_mode design address p s₂)
  unfolding finish
  finish-ok address name attrs kids below s s' r h =
      let p = read_attrs staging_mode attrs no_attrs in
      let (t, s₁, found, h₁) = >>=-eq-ok (type_of staging_mode design p.structure_id) _ s h in
      let (kids', s₂, made, h₂) =
        >>=-eq-ok
          (if is_association staging_mode design t
            then (do
              modify λ s. record s { associations = s.associations ++ (address ∷ []) }
              pure kids)
            else below)
          _ s₁ h₁ in
      (
        t,
        s₁,
        kids',
        s₂,
        found,
        elim (Bool-cases (is_association staging_mode design t)) [
          | inl e ↦ inl (e, ground (arith, made), ground (arith, made))
          | inr e ↦ inr (e, ground (arith, made))
        ],
        ground (arith, h₂),
        ground (arith, h₂),
      )

  pub build-Built :
      (address : ℕ) (name : Bytes) (attrs : List (Bytes × Bytes)) (kids : Nodes) (s s' : Index)
      (r : Option Node)
      → build staging_mode design (element address name attrs kids) s ≡ (ok r, s')
      → Built address name attrs kids s r s'
  unfolding build
  build-Built address name attrs kids s s' r h =
      elim (Bool-cases (read_attrs staging_mode attrs no_attrs).killed) [
        | inl killed ↦ inl (killed, ground arith, ground arith)
        | inr kept ↦
            let (t, s₁, kids', s₂, found, made, e, f) =
              finish-ok address name attrs kids (build_all staging_mode design kids) s s' r
                (ground (arith, h)) in
            inr (t, s₁, kids', s₂, kept, found, made, e, f)
      ]

  pub build_all-cons :
      (node : Node) (rest : Nodes) (s s' : Index) (nodes' : Nodes)
      → build_all staging_mode design (cons node rest) s ≡ (ok nodes', s')
      → (kept : Option Node) × (s₁ : Index) × (rest' : Nodes) × (build staging_mode design node s
          ≡ (ok kept, s₁))
        × (build_all staging_mode design rest s₁ ≡ (ok rest', s'))
        × (nodes' ≡ elim kept [ none ↦ rest' | some node' ↦ cons node' rest' ])
  unfolding build_all
  build_all-cons node rest s s' nodes' h =
      let (kept, s₁, one, h₁) = >>=-eq-ok (build staging_mode design node) _ s h in
      let (rest', s₂, more, h₂) = >>=-eq-ok (build_all staging_mode design rest) _ s₁ h₁ in
      (kept, s₁, rest', one, ground (arith, more, h₂), ground (arith, h₂))

  pub build-text :
      (t : Bytes) (s : Index) → build staging_mode design (text t) s ≡ (ok (some (text t)), s)
  unfolding build
  build-text t s = refl

  pub build-other : (s : Index) → build staging_mode design other s ≡ (ok (some other), s)
  unfolding build
  build-other s = refl

  pub build_all-nil : (s : Index) → build_all staging_mode design nil s ≡ (ok nil, s)
  unfolding build_all
  build_all-nil s = refl
