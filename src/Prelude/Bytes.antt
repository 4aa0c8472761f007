-- ===== src/Prelude/Bytes.antt =====
-- `std::string` as the list of its bytes.
use Prim.Native.Char.{code}
use Prim.Native.String.{String}
use vae_thrift.Prelude.{ℕ, List, [], ◌∷◌}

abbrev pub Bytes : Type 0
Bytes = List ℕ

abbrev pub bytes : String → Bytes
bytes String.[] = []
bytes (String.◌∷◌ c s) = code c ∷ bytes s
