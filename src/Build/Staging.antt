-- ===== src/Build/Staging.antt =====
-- A site in staging mode keeps every node; a site in production keeps no staging node.
use mathlib.Core.List.{append_assoc}
use vae_thrift.Prelude.{ℕ, ◌≡◌, ap, ◌∙◌, ◌⊎◌, inl, inr, true, Option, some, List, ◌∷◌, ◌++◌, arith}
use vae_thrift.Prelude.Int.{ℤ}
use vae_thrift.Prelude.Bytes.{Bytes}
use vae_thrift.Prelude.Eq.{bytes_eq, int_eq}
use vae_thrift.Exec.{Result, ok}
use vae_thrift.Xml.{Node, element, text, other, Nodes, nil, cons}
use vae_thrift.Build.{Index, no_attrs, build, build_all}
use vae_thrift.Build.Laws.{
  IsPublic, killed-read_attrs, build-Built, build_all-cons, build-text, build-other, build_all-nil,
}

abbrev pub Design : Type 0
Design = ℤ → Result (List (List (Bytes × Bytes)))

mutual
  build_staging :
      (design : Design) (node : Node) (s s' : Index) (r : Option Node)
      → build true design node s ≡ (ok r, s')
      → r ≡ some node
  build_staging design (text t) s s' r h = ground (arith, build-text true design t s)
  build_staging design other s s' r h = ground (arith, build-other true design s)
  build_staging design (element address name attrs kids) s s' r h =
      elim (build-Built true design address name attrs kids s s' r h) [
        | inl (killed, _, _) ↦ absurd (ground (arith, killed-read_attrs attrs no_attrs))
        | inr (t, s₁, kids', s₂, _, _, inl (_, same, _), e, _) ↦
            e ∙ ap (λ k. some (element address name attrs k)) same
        | inr (t, s₁, kids', s₂, _, _, inr (_, made), e, _) ↦
            e
            ∙ ap (λ k. some (element address name attrs k))
                (build_all_staging design kids s₁ s₂ kids' made)
      ]

  -- In staging mode the nodes stay as the feed has them.
  pub build_all_staging :
      (design : Design) (nodes : Nodes) (s s' : Index) (nodes' : Nodes)
      → build_all true design nodes s ≡ (ok nodes', s')
      → nodes' ≡ nodes
  build_all_staging design nil s s' nodes' h = ground (arith, build_all-nil true design s)
  build_all_staging design (cons node rest) s s' nodes' h =
      let (kept, s₁, rest', one, more, e) = build_all-cons true design node rest s s' nodes' h in
      e
      ∙ ground (
        arith,
        build_staging design node s s₁ kept one,
        build_all_staging design rest s₁ s' rest' more,
      )

-- `address` stands in the list.
abbrev pub IsWaiting : ℕ → List ℕ → Type 0
IsWaiting address l = (front back : List ℕ) × (l ≡ front ++ (address ∷ back))

pub IsWaiting-append :
    (address : ℕ) (l m : List ℕ) → IsWaiting address l → IsWaiting address (l ++ m)
IsWaiting-append address l m (front, back, e) =
    (front, back ++ m, ap (λ x. x ++ m) e ∙ append_assoc front (address ∷ back) m)

unfoldable mutual
  -- No staging attribute on a node nor below it, where the associations that wait are not looked into.
  pub IsPublished : List ℕ → Node → Type 0
  IsPublished waiting (text t) = Unit {0}
  IsPublished waiting other = Unit {0}
  IsPublished waiting (element address name attrs kids) =
      IsPublic attrs × (IsWaiting address waiting ⊎ ArePublished waiting kids)

  pub ArePublished : List ℕ → Nodes → Type 0
  ArePublished waiting nil = Unit {0}
  ArePublished waiting (cons node rest) = IsPublished waiting node × ArePublished waiting rest
