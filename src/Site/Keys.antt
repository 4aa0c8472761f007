-- ===== src/Site/Keys.antt =====
-- Which secret keys a site accepts, from the object with its keys in the bucket. The documented
-- behaviour of `boost::split` without the compression of tokens is `Splits`.
mod Examples
use mathlib.Core.List.{flatten}
use vae_thrift.Prelude.{
  ℕ, ◌≡◌, ◌≢◌, refl, sym, ap, subst, ◌∙◌, ◌⊎◌, inl, inr, ◌==◌, if◌then◌else◌, Bool, true, false,
  ◌||◌, Option, none, some, List, [], ◌∷◌, ◌++◌, arith, Bool-cases, All, All-map,
}
use vae_thrift.Prelude.Bytes.{Bytes, bytes}
use vae_thrift.Prelude.Eq.{Bytes-discrete, bytes_eq}
use vae_thrift.Prelude.Map.{find}
use vae_thrift.Exec.{Result, ok, raise}
use vae_thrift.Site.{Feeds, Site, key_found, validate_secret_key, read_keys, new_site}
use vae_thrift.S3.{Download, Disk, Files, read_s3}
use vae_thrift.S3.Laws.{IsUsable, or_empty, read_s3_cases}

-- `boost::is_any_of(",;\n")`
unfoldable pub is_separator : ℕ → Bool
is_separator c = c == 44 || (c == 59 || c == 10)

-- Every separator ends a piece, and the pieces in between, empty ones too, are kept.
pub record Splits (split : Bytes → List Bytes) : Type 0 where
  pub nothing : split [] ≡ [] ∷ []
  pub at_separator : (c : ℕ) (s : Bytes) → is_separator c ≡ true → split (c ∷ s) ≡ [] ∷ split s
  pub inside :
      (c : ℕ) (s p : Bytes) (ps : List Bytes)
      → is_separator c ≡ false
      → split s ≡ p ∷ ps
      → split (c ∷ s) ≡ (c ∷ p) ∷ ps

-- A text that is empty or goes on with a separator.
abbrev pub Stops : Bytes → Type 0
Stops [] = Unit {0}
Stops (c ∷ s) = is_separator c ≡ true

-- The text starts with the key, which holds no separator and is followed by one or by the end.
abbrev pub StartsWith : Bytes → Bytes → Type 0
StartsWith key text =
    (after : Bytes) × (text ≡ key ++ after) × All (λ c. is_separator c ≡ false) key × Stops after

-- A separator stands before such a place.
abbrev pub StandsBehind : Bytes → Bytes → Type 0
StandsBehind key text =
    (before : Bytes) × (c : ℕ) × (rest : Bytes) × (text ≡ before ++ (c ∷ rest))
    × (is_separator c ≡ true)
    × StartsWith key rest

abbrev pub StandsIn : Bytes → Bytes → Type 0
StandsIn key text = StartsWith key text ⊎ StandsBehind key text

StandsBehind-cons : (x : ℕ) (text key : Bytes) → StandsBehind key text → StandsBehind key (x ∷ text)
StandsBehind-cons x text key (before, c, rest, e, stops, starts) =
    (x ∷ before, c, rest, ap (λ t. x ∷ t) e, stops, starts)

key_found-All :
    (P : Bytes → Type 0) (keys : List Bytes) (key : Bytes)
    → key_found keys key ≡ true
    → All P keys
    → P key
unfolding key_found
key_found-All P [] key h all = absurd (ground (arith, h))
key_found-All P (k ∷ keys) key h (here, all) = elim (Bytes-discrete k key) [
  | yes e ↦ subst P e here
  | no ne ↦ key_found-All P keys key (ground (arith, h, ne)) all
]

module _ (split : Bytes → List Bytes) (s : Splits split) where
  split-pieces :
      (text : Bytes)
      → (p : Bytes) × (ps : List Bytes) × (split text ≡ p ∷ ps)
        × StartsWith p text
        × All (λ key. StandsBehind key text) ps
  split-pieces [] = ([], [], s.nothing, ([], refl, tt, tt), tt)
  split-pieces (c ∷ text) =
      let (p, ps, e, (after, f, clean, stops), more) = split-pieces text in
      let behind = All-map ps (StandsBehind-cons c text) more in
      elim (Bool-cases (is_separator c)) [
        | inl sep ↦ (
          [],
          p ∷ ps,
          s.at_separator c text sep ∙ ap (λ rest. [] ∷ rest) e,
          (c ∷ text, refl, tt, sep),
          (([], c, text, refl, sep, (after, f, clean, stops)), behind),
        )
        | inr plain ↦ (
          c ∷ p,
          ps,
          s.inside c text p ps plain e,
          (after, ap (λ t. c ∷ t) f, (plain, clean), stops),
          behind,
        )
      ]

  split-starts :
      (key after : Bytes)
      → All (λ c. is_separator c ≡ false) key
      → Stops after
      → (ps : List Bytes) × (split (key ++ after) ≡ key ∷ ps)
  split-starts [] [] clean stops = ([], s.nothing)
  split-starts [] (c ∷ after) clean stops = (split after, s.at_separator c after stops)
  split-starts (x ∷ key) after (plain, clean) stops =
      let (ps, e) = split-starts key after clean stops in
      (ps, s.inside x (key ++ after) key ps plain e)

  split-behind :
      (before : Bytes) (c : ℕ) (rest key : Bytes)
      → is_separator c ≡ true
      → key_found (split rest) key ≡ true
      → (p : Bytes) × (ps : List Bytes) × (split (before ++ (c ∷ rest)) ≡ p ∷ ps)
        × (key_found ps key ≡ true)
  unfolding key_found
  split-behind [] c rest key sep found = ([], split rest, s.at_separator c rest sep, found)
  split-behind (x ∷ before) c rest key sep found =
      let (p, ps, e, there) = split-behind before c rest key sep found in
      elim (Bool-cases (is_separator x)) [
        | inl stops ↦ (
          [],
          p ∷ ps,
          s.at_separator x (before ++ (c ∷ rest)) stops ∙ ap (λ t. [] ∷ t) e,
          ground (arith, there),
        )
        | inr plain ↦ (x ∷ p, ps, s.inside x (before ++ (c ∷ rest)) p ps plain e, there)
      ]

  found-start : (key text : Bytes) → StartsWith key text → key_found (split text) key ≡ true
  unfolding key_found
  found-start key text (after, e, clean, stops) =
      let (ps, h) = split-starts key after clean stops in
      let same : split text ≡ key ∷ ps = ap split e ∙ h in ground (arith, same)

  key_found-split : (key text : Bytes) → StandsIn key text → key_found (split text) key ≡ true
  unfolding key_found
  key_found-split key text (inl starts) = found-start key text starts
  key_found-split key text (inr (before, c, rest, e, sep, starts)) =
      let (p, ps, h, there) = split-behind before c rest key sep (found-start key rest starts) in
      let same : split text ≡ p ∷ ps = ap split e ∙ h in ground (arith, same, there)

  StandsIn-split : (key text : Bytes) → key_found (split text) key ≡ true → StandsIn key text
  StandsIn-split key text found =
      let (p, ps, e, first, more) = split-pieces text in
      key_found-All (λ k. StandsIn k text) (p ∷ ps) key
        (sym (ap (λ keys. key_found keys key) e) ∙ found) (inl first, All-map ps (λ k. inr) more)

module _ (f : Feeds) (split : Splits f.split_keys) where
  -- The object with the keys of a site.
  abbrev pub keys_text : Bytes → f.World → Bytes
  keys_text subdomain w = (f.read_s3 (subdomain ++ bytes "-secret") w).0

  new_site-keys :
      (subdomain rawxml : Bytes) (staging : Bool) (w : f.World) (site : Site f.Doc)
      → (new_site false f subdomain staging rawxml w).0 ≡ ok site
      → site.secret_keys ≡ f.split_keys (keys_text subdomain w)
  unfolding new_site read_keys
  new_site-keys subdomain rawxml staging w site h = ground (arith, h)

  -- Outside test mode, where `boost::split` does what it is documented to do, a site that was made
  -- accepts exactly the keys that stand in the object with its keys, between the beginning, the
  -- separators and the end: any such key is accepted, and any other one refused.
  pub validate_secret_key_lem :
      (subdomain rawxml key : Bytes) (staging : Bool) (w : f.World) (site : Site f.Doc)
      → (new_site false f subdomain staging rawxml w).0 ≡ ok site
      → (StandsIn key (keys_text subdomain w) → validate_secret_key false site key ≡ ok tt)
        × (validate_secret_key false site key ≡ ok tt → StandsIn key (keys_text subdomain w))
  unfolding validate_secret_key
  validate_secret_key_lem subdomain rawxml key staging w site made =
      let keys = new_site-keys subdomain rawxml staging w site made in
      let text = keys_text subdomain w in
      (
        (λ stands. ground (arith, keys, key_found-split f.split_keys split key text stands)),
        λ h.
            let found : key_found site.secret_keys key ≡ true = ground (arith, h) in
            StandsIn-split f.split_keys split key text
              (sym (ap (λ ks. key_found ks key) keys) ∙ found),
      )

  -- `read_s3` could not download the object with the keys, and found no copy of it on disk.
  pub record Unavailable (subdomain : Bytes) (w : f.World) : Type 0 where
    pub disk : Disk
    pub tempname : Bytes
    pub download : Download
    pub files : Files
    pub usable : IsUsable disk tempname (subdomain ++ bytes "-secret")
    pub read :
        some (keys_text subdomain w)
        ≡ (read_s3 disk tempname download (subdomain ++ bytes "-secret") files).0
    pub failed : download.status_ok ≡ false
    pub missing : find (disk.cache_path (subdomain ++ bytes "-secret")) files ≡ none

  -- Outside test mode, where `boost::split` does what it is documented to do, a site that was made
  -- accepts the empty key in two cases: where the keys in the bucket end with a separator, as a line
  -- end is one; and where `read_s3` cannot download the object with the keys and has no copy of it on
  -- disk, while its temporary files can be made and removed.
  pub empty_key_accepted :
      (subdomain rawxml : Bytes) (staging : Bool) (w : f.World) (site : Site f.Doc)
      → (new_site false f subdomain staging rawxml w).0 ≡ ok site
      → ((text : Bytes) × (c : ℕ) × (keys_text subdomain w ≡ text ++ (c ∷ []))
          × (is_separator c ≡ true))
        ⊎ Unavailable subdomain w
      → validate_secret_key false site [] ≡ ok tt
  empty_key_accepted subdomain rawxml staging w site made (inl (text, c, e, sep)) =
      (validate_secret_key_lem subdomain rawxml [] staging w site made).0
        (inr (text, c, [], e, sep, ([], refl, tt, tt)))
  empty_key_accepted subdomain rawxml staging w site made (inr u) =
      let (value, _, _, _) =
        read_s3_cases u.disk u.tempname (subdomain ++ bytes "-secret") u.download u.files
          u.usable in
      let empty : keys_text subdomain w ≡ [] = ground (arith, u.read, value, u.failed, u.missing) in
      (validate_secret_key_lem subdomain rawxml [] staging w site made).0 (inl ([], empty, tt, tt))
