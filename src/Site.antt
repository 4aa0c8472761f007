-- ===== src/Site.antt =====
-- cpp/site.h and cpp/site.cpp, as the handler uses a site: its construction and its secret keys.
-- What `loadXmlDoc` makes of a feed is the interface `Feeds`.
pub mod Keys
use vae_thrift.Prelude.{if◌then◌else◌, ite, Bool, true, false, List, [], ◌∷◌, ◌++◌}
use vae_thrift.Prelude.Int.{ℤ}
use vae_thrift.Prelude.Bytes.{Bytes, bytes}
use vae_thrift.Prelude.Eq.{Bytes-discrete}
use vae_thrift.Exec.{Result, ok, raise, Exec, internal_error, map_result}

-- What a site is made from: the objects of the bucket, `boost::split` by `,`, `;` and line ends, and
-- `loadXmlDoc`, which gives the document and its generation. `World` is all that lies outside.
pub record Feeds : Type 1 where
  pub World : Type 0
  pub Doc : Type 0
  pub read_s3 : Bytes → World → Bytes × World
  pub split_keys : Bytes → List Bytes
  pub load_xml_doc : Bytes → Bool → Bytes → Result (Doc × ℤ)

pub record Site (Doc : Type 0) : Type 0 where
  pub generation : ℤ
  pub subdomain : Bytes
  pub secret_keys : List Bytes
  pub staging_mode : Bool
  pub doc : Doc

unfoldable pub key_found : List Bytes → Bytes → Bool
key_found [] key = false
key_found (k ∷ ks) key = ite (Bytes-discrete k key) true (key_found ks key)

module _ (test_mode : Bool) where
  unfoldable pub validate_secret_key : {Doc : Type 0} → Site Doc → Bytes → Result (Unit {0})
  validate_secret_key s key =
      if test_mode
      then ok tt
      else if key_found s.secret_keys key
      then ok tt
      else raise (internal_error (bytes "Secret Key Mismatch"))

  module _ (f : Feeds) where
    open f use {World, Doc, read_s3, split_keys, load_xml_doc}

    -- The keys of a site; in test mode it has none and none is asked for.
    unfoldable pub read_keys : Bytes → World → List Bytes × World
    read_keys subdomain w =
        if test_mode
        then ([], w)
        else let (text, w') = read_s3 (subdomain ++ bytes "-secret") w in (split_keys text, w')

    -- `Site::Site`
    unfoldable pub new_site : Bytes → Bool → Bytes → Exec World (Site Doc)
    unfolding read_keys
    new_site subdomain staging rawxml w =
        let (keys, w') = read_keys subdomain w in
        (
          map_result
              (λ (loaded : Doc × ℤ). record {
                generation = loaded.1;
                subdomain = if test_mode then bytes "local" else subdomain;
                secret_keys = keys;
                staging_mode = staging;
                doc = loaded.0;
              })
              (load_xml_doc subdomain staging rawxml),
          w',
        )
