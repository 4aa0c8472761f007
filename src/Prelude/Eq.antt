-- ===== src/Prelude/Eq.antt =====
-- Decidable equality of keys, as an instance argument.
use vae_thrift.Prelude.{ℕ, ◌≡◌, ℕ_discrete, List}
use vae_thrift.Prelude.Int.{ℤ}

pub record Eq {ℓ} (A : Type ℓ) : Type ℓ where
  pub eq : (a b : A) → Dec (a ≡ b)

unfoldable pub ℤ-discrete : Discrete ℤ
unfolding ℕ_discrete
ℤ-discrete = hlevel ℕ_discrete

unfoldable pub Bytes-discrete : Discrete (List ℕ)
unfolding ℕ_discrete
Bytes-discrete = hlevel ℕ_discrete

instance abbrev pub int_eq : Eq ℤ
int_eq = record { eq = ℤ-discrete }

instance abbrev pub bytes_eq : Eq (List ℕ)
bytes_eq = record { eq = Bytes-discrete }

instance abbrev pub nat_eq : Eq ℕ
nat_eq = record { eq = ℕ_discrete }
