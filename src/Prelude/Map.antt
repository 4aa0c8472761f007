-- ===== src/Prelude/Map.antt =====
-- `std::map` by its keys: `count`, `operator[]`, assignment, `erase`.
use vae_thrift.Prelude.{◌≡◌, refl, ◌≢◌, ite, Option, none, some, List, [], ◌∷◌, arith}
use vae_thrift.Prelude.Eq.{Eq}

abbrev pub Map {ℓ} : Type ℓ → Type ℓ → Type ℓ
Map K V = List (K × V)

module _ {ℓ} {K V : Type ℓ} ⦃e : Eq K⦄ where
  unfoldable pub find : K → Map K V → Option V
  find k [] = none
  find k ((j, v) ∷ m) = ite (e.eq j k) (some v) (find k m)

  -- m[k] = v
  unfoldable pub assign : K → V → Map K V → Map K V
  assign k v [] = (k, v) ∷ []
  assign k v ((j, w) ∷ m) = ite (e.eq j k) ((k, v) ∷ m) ((j, w) ∷ assign k v m)

  -- m.erase(k)
  unfoldable pub erase : K → Map K V → Map K V
  erase k [] = []
  erase k ((j, w) ∷ m) = let rest = erase k m in ite (e.eq j k) rest ((j, w) ∷ rest)

  pub find-assign :
      (k j : K) (v : V) (m : Map K V) → find j (assign k v m) ≡ ite (e.eq k j) (some v) (find j m)
  unfolding find assign
  find-assign k j v [] = refl
  find-assign k j v ((i, w) ∷ m) = ground (arith, find-assign k j v m)

  pub find-erase : (k j : K) (m : Map K V) → find j (erase k m) ≡ ite (e.eq k j) none (find j m)
  unfolding find erase
  find-erase k j [] = ground arith
  find-erase k j ((i, w) ∷ m) = ground (arith, find-erase k j m)

  pub find-assign_self : (k : K) (v : V) (m : Map K V) → find k (assign k v m) ≡ some v
  find-assign_self k v m = ground (arith, find-assign k k v m)

  pub find-assign_ne : (k j : K) (v : V) (m : Map K V) → k ≢ j → find j (assign k v m) ≡ find j m
  find-assign_ne k j v m h = ground (arith, find-assign k j v m)

  pub find-erase_self : (k : K) (m : Map K V) → find k (erase k m) ≡ none
  find-erase_self k m = ground (arith, find-erase k k m)

  pub find-erase_ne : (k j : K) (m : Map K V) → k ≢ j → find j (erase k m) ≡ find j m
  find-erase_ne k j m h = ground (arith, find-erase k j m)
