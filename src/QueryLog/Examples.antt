-- ===== src/QueryLog/Examples.antt =====
-- What the log shows of three strings.
use vae_thrift.Prelude.{◌≡◌, refl, inr, some, none, ◌∷◌, ◌++◌, []}
use vae_thrift.Prelude.Bytes.{bytes}
use vae_thrift.QueryLog.Escape.{
  is_prefix, find_from, find, replace, replace_loop, str_replace, value_rep, backslash, quote,
}
use vae_thrift.QueryLog.Escape.Laws.{value_rep_hangs}

value_rep_ab : value_rep 3 (bytes "ab") ≡ some (bytes "\"ab\"")
unfolding value_rep str_replace replace_loop replace find find_from is_prefix
value_rep_ab = refl

three_rounds : replace_loop 3 (backslash ∷ []) (backslash ∷ backslash ∷ []) 0 (bytes "a\\b") ≡ none
unfolding replace_loop replace find find_from is_prefix
three_rounds = refl

value_rep_hangs_example : value_rep 1000 (bytes "say " ++ (quote ∷ bytes "hi")) ≡ none
value_rep_hangs_example = value_rep_hangs 1000 quote (bytes "say ") (bytes "hi") (inr refl)
