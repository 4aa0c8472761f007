-- ===== src/Association/Pointers.antt =====
-- The loop over the pointer nodes that were placed before.
use vae_thrift.Prelude.{
  All-map, ℕ, ◌≡◌, refl, ap, ◌∙◌, inl, inr, Option, some, List, [], ◌∷◌, arith, All, ℕ_discrete,
}
use vae_thrift.Exec.{ok}
use vae_thrift.Association.{XmlNode, Heap, put, Libxml, Wiring, load, set_lasts}
use vae_thrift.Association.Chains.{Relast, Relast-trans, Relast-some}

abbrev pub IsLive : Heap → ℕ → Type 0
IsLive h a = (n : XmlNode) × (h a ≡ some n)

abbrev pub HasLast : Heap → Option ℕ → ℕ → Type 0
HasLast h o a = (n : XmlNode) × (h a ≡ some n) × (n.last ≡ o)

module _ (t : Libxml) (associated : ℕ) where
  HasLast-kept :
      (h g : Heap) (l : Option ℕ) (a : ℕ) → Relast l (h a) (g a) → HasLast h l a → HasLast g l a
  HasLast-kept h g l a (inl e) (n, at, last) = (n, e ∙ at, last)
  HasLast-kept h g l a (inr (n, at, now)) _ = (record n { last = l }, now, refl)

  -- One round.
  module _ (h : Heap) (it : ℕ) (p m : XmlNode) (at : h it ≡ some p) where
    round : Heap
    round = put it (record p { last = m.last }) h

    round-Relast : (b : ℕ) → Relast m.last (h b) (round b)
    unfolding round
    round-Relast b = elim (ℕ_discrete it b) [
      | yes q ↦ inr (p, ground (arith, at), ground arith)
      | no ne ↦ inl (ground arith)
    ]

    round_self : (a : ℕ) → h a ≡ some m → round a ≡ some m
    unfolding round
    round_self a e = elim (ℕ_discrete it a) [
      | yes q ↦
          let same : p ≡ m = ground (arith, at, e) in
          let now : put it (record p { last = m.last }) h a ≡ some (record p { last = m.last }) =
            ground arith in
          now ∙ ap (λ (k : XmlNode). some (record k { last = m.last })) same
      | no ne ↦ ground (arith, e)
    ]

    round-set : HasLast round m.last it
    unfolding round
    round-set = (record p { last = m.last }, ground arith, refl)

  pub set_lasts_lem :
      (s : Wiring t) (pointers : List ℕ) (m : XmlNode)
      → s.heap associated ≡ some m
      → All (IsLive s.heap) pointers
      → (g : Heap) × (set_lasts t associated pointers s ≡ (ok tt, record s { heap = g }))
        × ((b : ℕ) → Relast m.last (s.heap b) (g b))
        × All (HasLast g m.last) pointers
  unfolding set_lasts load round
  set_lasts_lem s [] m e live = (s.heap, refl, (λ b. inl refl), tt)
  set_lasts_lem s (it ∷ pointers) m e ((p, at), live) =
      let h₁ = round s.heap it p m at in
      let changed = round-Relast s.heap it p m at in
      let (g, run, more, lasts) =
        set_lasts_lem (record s { heap = h₁ }) pointers m (round_self s.heap it p m at associated e)
          (All-map pointers
            (λ a (n, f).
              let (o, f') = Relast-some m.last (s.heap a) (h₁ a) n (changed a) f in
              (record n { last = o }, f'))
            live) in
      (
        g,
        rw (load, e, at) run,
        (λ b. Relast-trans m.last (s.heap b) (h₁ b) (g b) (changed b) (more b)),
        (HasLast-kept h₁ g m.last it (more it) (round-set s.heap it p m at), lasts),
      )
