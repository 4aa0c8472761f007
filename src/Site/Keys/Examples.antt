-- ===== src/Site/Keys/Examples.antt =====
-- Sites with two keys and with none.
use vae_thrift.Prelude.{
  ℕ, ◌≡◌, refl, inr, if◌then◌else◌, false, some, List, [], ◌∷◌, ◌++◌, arith, ℕ_discrete,
}
use vae_thrift.Prelude.Int.{pos}
use vae_thrift.Prelude.Bytes.{Bytes, bytes}
use vae_thrift.Prelude.Eq.{Bytes-discrete, bytes_eq}
use vae_thrift.Prelude.Map.{find, assign, erase}
use vae_thrift.Exec.{ok}
use vae_thrift.Site.{Feeds, Site, new_site, read_keys, validate_secret_key}
use vae_thrift.S3.{
  read_s3, new_transfer, get_object, commit_buffers, commit_buffer, append_file, response_complete,
  finalize, remove_file, rename_file, get_value,
}
use vae_thrift.S3.Laws.{IsUsable}
use vae_thrift.S3.Examples.{disk, no_answer}
use vae_thrift.Site.Keys.{
  is_separator, Splits, StandsIn, Unavailable, validate_secret_key_lem, empty_key_accepted,
}

abbrev onto : ℕ → List Bytes → List Bytes
onto c [] = (c ∷ []) ∷ []
onto c (p ∷ ps) = (c ∷ p) ∷ ps

unfoldable cut_at : Bytes → List Bytes
cut_at [] = [] ∷ []
cut_at (c ∷ s) = let rest = cut_at s in if is_separator c then [] ∷ rest else onto c rest

cut_at-Splits : Splits cut_at
unfolding cut_at
cut_at-Splits = record {
  nothing = refl;
  at_separator = λ c s sep. ground (arith, sep);
  inside = λ c s p ps plain e. ground (arith, plain, e);
}

-- The world is the object with the keys.
abbrev bucket : Feeds
bucket = record {
  World = Bytes;
  Doc = Bytes;
  read_s3 = λ name w. (w, w);
  split_keys = cut_at;
  load_xml_doc = λ subdomain staging xml. ok (xml, pos 1);
}

abbrev two_keys : Bytes
two_keys = bytes "k1,k2"

abbrev guarded : Site Bytes
guarded = record {
  generation = pos 1;
  subdomain = bytes "blog";
  secret_keys = bytes "k1" ∷ bytes "k2" ∷ [];
  staging_mode = false;
  doc = bytes "<x/>";
}

made : (new_site false bucket (bytes "blog") false (bytes "<x/>") two_keys).0 ≡ ok guarded
unfolding new_site read_keys cut_at is_separator
made = refl

validate_secret_key_lem_example :
    (StandsIn (bytes "k2") two_keys → validate_secret_key false guarded (bytes "k2") ≡ ok tt)
    × (validate_secret_key false guarded (bytes "k2") ≡ ok tt → StandsIn (bytes "k2") two_keys)
validate_secret_key_lem_example =
    validate_secret_key_lem bucket cut_at-Splits (bytes "blog") (bytes "<x/>") (bytes "k2") false
      two_keys guarded made

abbrev unguarded : Site Bytes
unguarded = record guarded { secret_keys = [] ∷ [] }

made_unguarded : (new_site false bucket (bytes "blog") false (bytes "<x/>") []).0 ≡ ok unguarded
unfolding new_site read_keys cut_at
made_unguarded = refl

abbrev object : Bytes
object = bytes "blog" ++ bytes "-secret"

object-IsUsable : IsUsable disk (bytes "/tmp/a") object
object-IsUsable = record {
  distinct = ground arith;
  opens = refl;
  removes_temp = refl;
  removes_cache = refl;
  renames = refl;
}

nothing_read : some [] ≡ (read_s3 disk (bytes "/tmp/a") no_answer object []).0
unfolding read_s3 new_transfer get_object commit_buffers commit_buffer append_file response_complete
    finalize remove_file rename_file get_value find assign erase Bytes-discrete ℕ_discrete
nothing_read = refl

no_keys : Unavailable bucket cut_at-Splits (bytes "blog") []
unfolding find
no_keys = record {
  disk = disk;
  tempname = bytes "/tmp/a";
  download = no_answer;
  files = [];
  usable = object-IsUsable;
  read = nothing_read;
  failed = refl;
  missing = refl;
}

empty_key_accepted_example : validate_secret_key false unguarded [] ≡ ok tt
empty_key_accepted_example =
    empty_key_accepted bucket cut_at-Splits (bytes "blog") (bytes "<x/>") false [] unguarded
      made_unguarded (inr no_keys)
