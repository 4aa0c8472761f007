-- ===== src/Association/Examples.antt =====
-- A page with an item that names another page.
mod Dangling
use vae_thrift.Prelude.{
  ℕ, ◌+◌, ◌≡◌, ◌≢◌, refl, sym, ap, ◌∙◌, ◌⊎◌, inl, inr, ◌==◌, if◌then◌else◌, ite, Bool, true, false,
  Option, none, some, Option-cases, List, [], ◌∷◌, ◌++◌, arith, All, ℕ_discrete,
}
use vae_thrift.Prelude.Int.{ℤ, pos, ltb_ℤ}
use vae_thrift.Prelude.Bytes.{Bytes, bytes}
use vae_thrift.Prelude.Atoi.{atoi}
use vae_thrift.Prelude.Eq.{int_eq, nat_eq, ℤ-discrete}
use vae_thrift.Prelude.Map.{Map, find, assign, erase}
use vae_thrift.Exec.{Result, ok, raise, undefined, internal_error}
use vae_thrift.Association.{
  XmlNode, Heap, put, Libxml, Wiring, named, load, get_single_data, initialize_association,
  initialize_associations, clean_nodes,
}
use vae_thrift.Association.Chains.{Chain}
use vae_thrift.Association.Forward.{Item}
use vae_thrift.Association.Reverse.{Documented, Family}
use vae_thrift.Association.Run.{Places}
use vae_thrift.Association.Wired.{IsWired, ArePlaced, initialize_association_wires}
use vae_thrift.Association.Loosened.{BareAt}
use vae_thrift.Association.Exact.{bare_all, cut_all, clean_nodes-cut_all}
use vae_thrift.Association.Apart.{clean_nodes_wired}

abbrev pub without : ℕ → Heap → Heap
without a h b = if a == b then none else h b

abbrev pub free_list : Option ℕ → Heap → Heap
free_list none h = h
free_list (some a) h = without a h

abbrev pub bare : XmlNode → XmlNode
bare n = record n {
  children = none;
  next = none;
  last = none;
  parent = none;
  properties = none;
  private_ = none;
}

-- A copy goes to the address 100.
abbrev pub copy : ℕ → Heap → Option ℕ × Heap
copy a h = elim (h 100) [
  | some n ↦ (none, h)
  | none ↦ elim (h a) [ none ↦ (none, h) | some n ↦ (some 100, put 100 (bare n) h) ]
]

abbrev pub behind : ℕ → XmlNode → ℕ → XmlNode → Heap → Option ℕ → Heap
behind a m p c h none = h
behind a m p c h (some l) = elim (h l) [
  | none ↦ h
  | some k ↦
      put a (record m { last = some p })
        (put l (record k { next = some p }) (put p (record c { parent = some a }) h))
]

abbrev pub hang : ℕ → ℕ → Heap → Heap
hang a p h = elim (h a) [
  | none ↦ h
  | some m ↦ elim (h p) [ none ↦ h | some c ↦ behind a m p c h m.last ]
]

abbrev pub unhang : ℕ → Heap → Heap
unhang a h = elim (h a) [ none ↦ h | some n ↦ put a (record n { next = none; parent = none }) h ]

abbrev pub shelf : Libxml
shelf = record {
  Attrs = List ℕ;
  free_prop_list = λ p attrs. attrs;
  free_node_list = free_list;
  copy_node = copy;
  add_child = hang;
  unlink_node = unhang;
  free_node = without;
}

shelf-copied :
    (a p : ℕ) (h : Heap) (n : XmlNode)
    → h a ≡ some n
    → (copy a h).0 ≡ some p
    → (h p ≡ none) × ((b : ℕ) → p ≢ b → (copy a h).1 b ≡ h b) × ((copy a h).1 p ≡ some (bare n))
shelf-copied a p h n at e = elim (Option-cases (h 100)) [
  | inr (m, taken) ↦ absurd (ground (arith, taken, e))
  | inl free ↦
      let q : 100 ≡ p = ground (arith, free, at, e) in
      (ground (arith, free), (λ b ne. ground (arith, free, at)), ground (arith, free, at))
]

shelf-added :
    (a p l first : ℕ) (h : Heap) (m c k : XmlNode)
    → h a ≡ some m
    → h p ≡ some c
    → h l ≡ some k
    → m.last ≡ some l
    → (b : ℕ)
    → hang a p h b
      ≡ put a
          (record m { last = some p })
          (put l (record k { next = some p }) (put p (record c { parent = some a }) h))
          b
shelf-added a p l first h m c k a_at p_at l_at last b = ground (arith, a_at, p_at, l_at, last)

shelf-Documented : Documented shelf
shelf-Documented = record {
  nothing_freed = λ h. refl;
  copied = shelf-copied;
  added = λ a p l first h m c k a_at p_at l_at _ last _ _ _ b.
      shelf-added a p l first h m c k a_at p_at l_at last b;
}

abbrev pub element : Option ℕ → Option ℕ → Option ℕ → Option ℕ → Option ℕ → Option ℕ → XmlNode
element kids next_one last_one up props context = record {
  is_element = true;
  is_text = false;
  content = [];
  children = kids;
  next = next_one;
  last = last_one;
  parent = up;
  properties = props;
  private_ = context;
}

abbrev pub words : Bytes → ℕ → XmlNode
words content up = record (element none none none (some up) none none) {
  is_element = false;
  is_text = true;
  content = content;
}

-- Node 1 has the item 2 with the text 3; node 5 has the children 6 and 7.
abbrev pub page : XmlNode
page = element (some 2) none (some 2) none (some 51) (some 11)

abbrev pub item : XmlNode
item = element (some 3) none (some 3) (some 1) (some 52) (some 12)

abbrev pub other_page : XmlNode
other_page = element (some 6) none (some 7) none (some 55) (some 15)

abbrev pub kid : Option ℕ → XmlNode
kid next_one = element none next_one none (some 5) none none

abbrev pub feed : Heap
feed = put 1 page (
    put 2 item (
      put 3 (words (bytes "5") 2)
        (put 5 other_page (put 6 (kid (some 7)) (put 7 (kid none) (λ a. none))))))

abbrev pub site : Wiring shelf
site = record {
  heap = feed;
  attrs = [];
  contexts = (11, []) ∷ (12, []) ∷ (15, []) ∷ [];
  nodes = (pos 5, 5) ∷ [];
  nodes_to_clean = [];
  nodes_to_clean2 = [];
}

five : named shelf (bytes "5") site.nodes ≡ some 5
unfolding atoi find ℤ-discrete ℕ_discrete
five = refl

abbrev the_item : Item shelf site 2 5
the_item = record {
  n = item;
  c = words (bytes "5") 2;
  m = other_page;
  q = page;
  first = 3;
  parent = 1;
  node_at = refl;
  first_at = refl;
  associated_at = refl;
  parent_at = refl;
  children_lem = refl;
  parent_lem = refl;
  text_lem = refl;
  alone = refl;
  named_lem = five;
  apart = omega arith;
}

abbrev its_page : Family shelf site 2 5 the_item
its_page = record {
  eldest = 6;
  l = 7;
  k = kid none;
  children_lem = refl;
  last_lem = refl;
  last_at = refl;
  element_lem = refl;
  last_apart = omega arith;
}

page_context : find 11 site.contexts ≡ some []
unfolding find ℕ_discrete
page_context = refl

other_context : find 15 site.contexts ≡ some []
unfolding find ℕ_discrete
other_context = refl

abbrev its_places : Places shelf site 12 2 5 the_item
its_places = record {
  above = 11;
  below = 15;
  above_pointers = [];
  below_pointers = [];
  above_lem = refl;
  below_lem = refl;
  above_at = page_context;
  below_at = other_context;
  pointers_live = tt;
  this_apart = omega arith;
}

kids_shown : Chain feed (some 6) (6 ∷ 7 ∷ [])
kids_shown = (refl, kid (some 7), refl, (refl, kid none, refl, refl))

initialize_association_wires_example :
    ((s' : Wiring shelf) × (initialize_association shelf 12 2 site
        ≡ (raise (internal_error (bytes "xmlCopyNode returned NULL")), s')))
    ⊎ ((s' : Wiring shelf) × (p : ℕ) × (initialize_association shelf 12 2 site ≡ (ok tt, s'))
        × (feed p ≡ none)
        × IsWired shelf site s' 2 5 3 1 (6 ∷ 7 ∷ p ∷ []) p
        × ArePlaced shelf shelf-Documented site 12 2 5 the_item its_page its_places s' p)
initialize_association_wires_example =
    initialize_association_wires shelf shelf-Documented site 12 2 5 the_item its_page its_places
      (6 ∷ []) kids_shown ((omega arith, omega arith), tt)

-- The same site, once the item is wired.
abbrev pub wired_site : Wiring shelf
wired_site = record site {
  heap =
      put 5 (record other_page { last = some 100 })
        (put 7 (kid (some 100)) (
          put 100 (element (some 2) none (some 2) (some 5) (some 51) (some 11)) (
            put 2 (record item { properties = some 55; last = some 7; private_ = some 15 })
              (put 3 (record (words (bytes "5") 2) { next = some 6 }) feed))));
  contexts = (11, 100 ∷ []) ∷ (15, []) ∷ [];
  nodes_to_clean = 100 ∷ [];
  nodes_to_clean2 = 2 ∷ [];
}

abbrev its_wiring : IsWired shelf site wired_site 2 5 3 1 (6 ∷ 7 ∷ 100 ∷ []) 100
its_wiring = record {
  n = record item { properties = some 55; last = some 7; private_ = some 15 };
  m = record other_page { last = some 100 };
  c = element (some 2) none (some 2) (some 5) (some 51) (some 11);
  q = page;
  node_at = refl;
  associated_at = refl;
  pointer_at = refl;
  parent_at = refl;
  item_shows = (refl, _, refl, (refl, _, refl, (refl, _, refl, (refl, _, refl, refl))));
  associated_shows = (refl, _, refl, (refl, _, refl, (refl, _, refl, refl)));
  item_same = (refl, refl);
  pointer_same = (refl, refl, refl);
  last_lem = refl;
  cleaned_later = (refl, refl);
}

clean_nodes_wired_example :
    (g : Heap) × (clean_nodes shelf wired_site ≡ (ok tt, record wired_site { heap = g }))
    × BareAt g 100
    × ((n : XmlNode) × (g 2 ≡ some n)
        × Chain g n.children (3 ∷ [])
        × (n.properties ≡ none)
        × (n.private_ ≡ none))
    × (g 5 ≡ some (record other_page { last = some 100 }))
    × Chain g (some 6) (6 ∷ 7 ∷ 100 ∷ [])
    × ((b : ℕ) → b ≢ 2 → b ≢ 3 → b ≢ 100 → g b ≡ wired_site.heap b)
clean_nodes_wired_example =
    clean_nodes_wired shelf site wired_site 2 5 3 1 100 (6 ∷ 7 ∷ 100 ∷ []) its_wiring (omega arith)
      refl refl (omega arith, (omega arith, (omega arith, tt)))

clean_nodes-cut_all_example :
    (g : Heap) × (clean_nodes shelf wired_site ≡ (ok tt, record wired_site { heap = g }))
    × ((b : ℕ) → g b ≡ cut_all (2 ∷ []) (bare_all (100 ∷ []) wired_site.heap) b)
clean_nodes-cut_all_example =
    clean_nodes-cut_all shelf wired_site ((_, refl), tt) ((_, refl, inr (3, refl, (_, refl))), tt)
