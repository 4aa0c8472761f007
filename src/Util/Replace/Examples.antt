-- ===== src/Util/Replace/Examples.antt =====
-- Copies that overlap, and a replacement that has the search string in it.
use vae_thrift.Prelude.{◌≡◌, refl, arith}
use vae_thrift.Prelude.Bytes.{Bytes, bytes}
use vae_thrift.Exec.{ok}
use vae_thrift.Util.Replace.{int_length, str_replace, replace_loop, match_length}
use vae_thrift.Util.Replace.Laws.{Replaced, str_replace-Replaced}

overlap : str_replace (bytes "aa") (bytes "[aa]") (bytes "aaaba") ≡ ok (bytes "[aa]aba")
unfolding str_replace int_length replace_loop match_length
overlap = refl

str_replace-Replaced_example :
    (r : Bytes) × (str_replace (bytes "aa") (bytes "[aa]") (bytes "aaaba") ≡ ok r)
    × Replaced (bytes "aa") (bytes "[aa]") (bytes "aaaba") r
str_replace-Replaced_example =
    str_replace-Replaced (bytes "aa") (bytes "[aa]") (bytes "aaaba") (omega arith) (omega arith)
      (omega arith)
