-- ===== src/Association/Chains.antt =====
-- The children of a node, as the pointers `next` give them.
use vae_thrift.Prelude.{
  ℕ, ◌≡◌, subst, sym, ap, ◌∙◌, ◌⊎◌, inl, inr, Option, none, some, List, [], ◌∷◌, ◌++◌, All,
}
use vae_thrift.Association.{XmlNode, Heap}

-- From the pointer `o` on, the nodes are those of the list, in its order.
abbrev pub Chain : Heap → Option ℕ → List ℕ → Type 0
Chain h o [] = o ≡ none
Chain h o (a ∷ l) = (o ≡ some a) × (n : XmlNode) × (h a ≡ some n) × Chain h n.next l

-- A node is as before, or its field `last` is now `l`.
abbrev pub Relast : Option ℕ → Option XmlNode → Option XmlNode → Type 0
Relast l x y = (y ≡ x) ⊎ ((n : XmlNode) × (x ≡ some n) × (y ≡ some (record n { last = l })))

pub Relast-trans :
    (l : Option ℕ) (x y z : Option XmlNode) → Relast l x y → Relast l y z → Relast l x z
Relast-trans l x y z (inl e) (inl e') = inl (e' ∙ e)
Relast-trans l x y z (inl e) (inr (n, at, now)) = inr (n, sym e ∙ at, now)
Relast-trans l x y z (inr (n, at, now)) (inl e') = inr (n, at, e' ∙ now)
Relast-trans l x y z (inr (n, at, now)) (inr (n', at', now')) =
    let same : record n { last = l } ≡ n' = cc in
    inr (n, at, now' ∙ ap (λ (k : XmlNode). some (record k { last = l })) (sym same))

-- What is left of a node.
pub Relast-some :
    (l : Option ℕ) (x y : Option XmlNode) (n : XmlNode)
    → Relast l x y
    → x ≡ some n
    → (o : Option ℕ) × (y ≡ some (record n { last = o }))
Relast-some l x y n (inl e) at = (n.last, e ∙ at)
Relast-some l x y n (inr (n', at', now)) at =
    let same : n' ≡ n = cc in (l, now ∙ ap (λ (k : XmlNode). some (record k { last = l })) same)

-- The pointers `next` of these nodes have not changed.
abbrev pub KeepsNext : Heap → Heap → ℕ → Type 0
KeepsNext h g a =
    (n : XmlNode) → h a ≡ some n → (n' : XmlNode) × (g a ≡ some n') × (n'.next ≡ n.next)

pub Chain-kept :
    (h g : Heap) (o : Option ℕ) (l : List ℕ) → Chain h o l → All (KeepsNext h g) l → Chain g o l
Chain-kept h g o [] c k = c
Chain-kept h g o (a ∷ l) (e, n, at, more) (k, ks) =
    let (n', at', same) = k n at in
    (e, n', at', subst (λ o. Chain g o l) (sym same) (Chain-kept h g n.next l more ks))

pub Chain-longer :
    (h g : Heap) (o : Option ℕ) (l : List ℕ) (b p : ℕ) (m q : XmlNode)
    → Chain h o (l ++ (b ∷ []))
    → All (KeepsNext h g) l
    → g b ≡ some m
    → m.next ≡ some p
    → g p ≡ some q
    → q.next ≡ none
    → Chain g o (l ++ (b ∷ p ∷ []))
Chain-longer h g o [] b p m q (e, n, at, more) k at_b on at_p off = (e, m, at_b, (on, q, at_p, off))
Chain-longer h g o (a ∷ l) b p m q (e, n, at, more) (k, ks) at_b on at_p off =
    let (n', at', same) = k n at in
    (
      e,
      n',
      at',
      subst (λ o. Chain g o (l ++ (b ∷ p ∷ []))) (sym same)
          (Chain-longer h g n.next l b p m q more ks at_b on at_p off),
    )
