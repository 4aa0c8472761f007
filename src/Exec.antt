-- ===== src/Exec.antt =====
-- Calls that change a state and may not return. What was written before an exception stays
-- written, so the state comes back beside every outcome.
use vae_thrift.Prelude.{◌≡◌, refl, ap, ◌⊎◌, inl, inr}
use vae_thrift.Prelude.Bytes.{Bytes}

-- The exceptions of vae.thrift that this server throws, with their messages.
pub data Error : Type 0 where
  internal_error query_error : Bytes → Error

-- A call returns, throws, does what C++ leaves undefined, or is still running when the fuel of one
-- of its loops is used up.
pub data Result {ℓ} (A : Type ℓ) : Type ℓ where
  ok : A → Result A
  raise : Error → Result A
  undefined : Result A
  diverges : Result A

abbrev pub and_then {ℓ κ} : {A : Type ℓ} {B : Type κ} → Result A → (A → Result B) → Result B
and_then (ok a) f = f a
and_then (raise e) f = raise e
and_then undefined f = undefined
and_then diverges f = diverges

module _ {ℓ κ μ} {A : Type ℓ} {B : Type κ} {C : Type μ} where
  pub and_then_assoc :
      (r : Result A) (f : A → Result B) (g : B → Result C)
      → and_then (and_then r f) g ≡ and_then r (λ a. and_then (f a) g)
  and_then_assoc (ok a) f g = refl
  and_then_assoc (raise e) f g = refl
  and_then_assoc undefined f g = refl
  and_then_assoc diverges f g = refl

pub and_then_congr {ℓ κ} :
    {A : Type ℓ} {B : Type κ} (r : Result A) {f g : A → Result B}
    → ((a : A) → f a ≡ g a)
    → and_then r f ≡ and_then r g
and_then_congr (ok a) h = h a
and_then_congr (raise e) h = refl
and_then_congr undefined h = refl
and_then_congr diverges h = refl

-- It is enough that the continuations agree on what the first gives.
pub and_then_congr_ok {ℓ κ} :
    {A : Type ℓ} {B : Type κ} (r : Result A) {f g : A → Result B}
    → ((a : A) → r ≡ ok a → f a ≡ g a)
    → and_then r f ≡ and_then r g
and_then_congr_ok (ok a) h = h a refl
and_then_congr_ok (raise e) h = refl
and_then_congr_ok undefined h = refl
and_then_congr_ok diverges h = refl

pub and_then-ok {ℓ} : {A : Type ℓ} (r : Result A) → and_then r ok ≡ r
and_then-ok (ok a) = refl
and_then-ok (raise e) = refl
and_then-ok undefined = refl
and_then-ok diverges = refl

abbrev pub map_result {ℓ κ} : {A : Type ℓ} {B : Type κ} → (A → B) → Result A → Result B
map_result f r = and_then r (λ a. ok (f a))

pub and_then-eq-ok {ℓ κ} :
    {A : Type ℓ} {B : Type κ} (r : Result A) (f : A → Result B) {b : B}
    → and_then r f ≡ ok b
    → (a : A) × (r ≡ ok a) × (f a ≡ ok b)
and_then-eq-ok (ok a) f h = (a, refl, h)
and_then-eq-ok (raise e) f h = cc
and_then-eq-ok undefined f h = cc
and_then-eq-ok diverges f h = cc

abbrev pub Exec {ℓ κ} : Type ℓ → Type κ → Type (ℓ ⊔ κ)
Exec S A = S → Result A × S

module _ {ℓ κ} {S : Type ℓ} {A : Type κ} where
  abbrev pub pure : A → Exec S A
  pure a s = (ok a, s)

  abbrev pub lift : Result A → Exec S A
  lift r s = (r, s)

  abbrev pub gets : (S → A) → Exec S A
  gets f s = (ok (f s), s)

abbrev pub modify {ℓ} : {S : Type ℓ} → (S → S) → Exec S (Unit {0})
modify f s = (ok tt, f s)

abbrev pub continue {ℓ κ μ} :
    {S : Type ℓ} {A : Type κ} {B : Type μ} → Result A → (A → Exec S B) → Exec S B
continue (ok a) f s = f a s
continue (raise e) f s = (raise e, s)
continue undefined f s = (undefined, s)
continue diverges f s = (diverges, s)

infixl 5 ◌>>=◌ ◌>>◌
abbrev pub ◌>>=◌ {ℓ κ μ} :
    {S : Type ℓ} {A : Type κ} {B : Type μ} → Exec S A → (A → Exec S B) → Exec S B
◌>>=◌ m f s = let (r, s') = m s in continue r f s'

abbrev pub ◌>>◌ {ℓ κ} : {S : Type ℓ} {B : Type κ} → Exec S (Unit {0}) → Exec S B → Exec S B
m >> n = m >>= λ _. n

continue-eq-ok {ℓ κ μ} :
    {S : Type ℓ} {A : Type κ} {B : Type μ} (r : Result A) (f : A → Exec S B) (s : S) {b : B}
    {s' : S}
    → continue r f s ≡ (ok b, s')
    → (a : A) × (r ≡ ok a) × (f a s ≡ (ok b, s'))
continue-eq-ok (ok a) f s h = (a, refl, h)
continue-eq-ok (raise e) f s h = cc
continue-eq-ok undefined f s h = cc
continue-eq-ok diverges f s h = cc

-- A chain that returns has run both its parts.
pub >>=-eq-ok {ℓ κ μ} :
    {S : Type ℓ} {A : Type κ} {B : Type μ} (m : Exec S A) (f : A → Exec S B) (s : S) {b : B}
    {s' : S}
    → (m >>= f) s ≡ (ok b, s')
    → (a : A) × (t : S) × (m s ≡ (ok a, t)) × (f a t ≡ (ok b, s'))
>>=-eq-ok m f s h =
    let (a, e, h') = continue-eq-ok (m s).0 f (m s).1 h in
    (a, (m s).1, ap (λ r. (r, (m s).1)) e, h')

pub Result-cases {ℓ} :
    {A : Type ℓ} (r : Result A)
    → ((a : A) × (r ≡ ok a)) ⊎ ((e : Error) × (r ≡ raise e)) ⊎ (r ≡ undefined) ⊎ (r ≡ diverges)
Result-cases (ok a) = inl (a, refl)
Result-cases (raise e) = inr (inl (e, refl))
Result-cases undefined = inr (inr (inl refl))
Result-cases diverges = inr (inr (inr refl))
