-- ===== src/Session/Served/Laws.antt =====
-- What a client sees of a response: the four calls that name it agree.
use mathlib.Core.List.{flatten, map-append}
use vae_thrift.Prelude.{
  ℕ, suc, ◌+◌, ◌^◌, ◌<◌, ◌≡◌, refl, sym, ap, ◌∙◌, Option, some, List, [], ◌∷◌, ◌++◌, map, length,
  length-append, arith,
}
use vae_thrift.Prelude.Int.{ℤ, pos}
use vae_thrift.Prelude.Eq.{ℤ-discrete}
use vae_thrift.Prelude.Bytes.{Bytes}
use vae_thrift.Prelude.Map.{Map}
use vae_thrift.Exec.{Result, ok, raise, undefined, diverges, and_then, map_result}
use vae_thrift.Query.Rewrite.{Pcre}
use vae_thrift.Response.Options.{read_options}
use vae_thrift.Response.Query.{ResponseContext}
use vae_thrift.Response.Create.{Pages, create_infos, new_create_response}
use vae_thrift.Response.Serve.{Source, query_each, new_response, write_response, write_contexts}
use vae_thrift.Session.{
  Responses, Session, Answer, get, create_info, data_of, structure, response_at, parent_of,
}
use vae_thrift.Session.Laws.{get_inv, to_int32_small, response_at-grown_last}
use vae_thrift.Session.Threads.{Shared, Thread, Reach}
use vae_thrift.Session.Threads.Laws.{Reach-response_at}
use vae_thrift.Session.Served.{Views, served, shown}

write_contexts-map :
    {A B : Type 0} (view : A → B) (response : List (ResponseContext A))
    → write_contexts view response ≡ map view (shown response)
unfolding write_contexts flatten
write_contexts-map view [] = refl
write_contexts-map view (c ∷ cs) =
    ap (λ rest. map view c.contexts ++ rest) (write_contexts-map view cs)
    ∙ sym (map-append view c.contexts (flatten (map (λ (d : ResponseContext _). d.contexts) cs)))

map_result-map_result :
    {A B C : Type 0} (f : B → C) (g : A → B) (found : Result A)
    → map_result f (map_result g found) ≡ map_result (λ a. f (g a)) found
map_result-map_result f g (ok a) = refl
map_result-map_result f g (raise e) = refl
map_result-map_result f g undefined = refl
map_result-map_result f g diverges = refl

module _ {Site : Type 0} (r : Responses Site) where
  -- The contexts that a query answers with are those of the new response.
  contexts-get :
      (s : Session r) (id : ℤ) (parent : Option r.Response) (q : Bytes) (o : Map Bytes Bytes)
      → parent_of r s id ≡ ok parent
      → map_result (λ (x : Answer r × Session r). x.0.contexts) (get r s id q o)
        ≡ map_result r.write_contexts (r.new_response s.site parent q o)
  unfolding get
  contexts-get s id parent q o h =
      rw (get, h)
        (map_result-map_result (λ (x : Answer r × Session r). x.0.contexts) _
          (r.new_response s.site parent q o))

  parent_of-suc :
      (s : Session r) (i : ℕ) (response : r.Response)
      → response_at r s (pos (suc i)) ≡ ok response
      → parent_of r s (pos (suc i)) ≡ ok (some response)
  unfolding parent_of ℤ-discrete
  parent_of-suc s i response h = ground (arith, h)

  -- What a query has answered, and what its number names later.
  answered_later :
      (s s' : Session r) (id : ℤ) (q : Bytes) (o : Map Bytes Bytes) (a : Answer r)
      (threads : ℕ → Thread r) (later : Shared r)
      → length s.responses + 1 < 2 ^ 31
      → get r s id q o ≡ ok (a, s')
      → Reach r (record { session = s'; threads = threads }) later
      → (response : r.Response) × (a.contexts ≡ r.write_contexts response)
        × (response_at r later.session a.id ≡ ok response)
        × (parent_of r later.session a.id ≡ ok (some response))
        × (later.session.site ≡ s.site)
  answered_later s s' id q o a threads later fits h reach =
      let (parent, response, e, f, ea, es) = get_inv r s id q o h in
      let n = length s.responses in
      let named : a.id ≡ pos (suc n) =
        ap Answer.id ea ∙ to_int32_small r (n + 1) fits ∙ ap pos (omega arith) in
      let (same_site, same_time, kept) =
        Reach-response_at r (record { session = s'; threads = threads }) later reach in
      let below : n < length s'.responses =
        rw es (omega (arith, length-append s.responses (response ∷ []))) in
      let first : response_at r s' (pos (suc n)) ≡ ok response =
        rw es (response_at-grown_last r s response) in
      let at : response_at r later.session (pos (suc n)) ≡ ok response = kept n below ∙ first in
      (
        response,
        ap Answer.contexts ea,
        rw named at,
        rw named (parent_of-suc later.session n response at),
        same_site ∙ ap Session.site es,
      )

module _ {Site : Type 0} (source : Source) (pages : Pages source.Context)
    (views : Views source.Context) (p : Pcre) (ceil_quotient : ℤ → ℤ → Option ℤ) where
  abbrev client : Responses Site
  client = served source pages views p ceil_quotient

  -- A client that has the answer of a query, in a session with less than 2^31 - 1 responses, and later
  -- names it, whatever calls come between: `data` and `structure` answer for the very contexts of the
  -- pages in the answer, in their order, page after page; createInfo and a further query go below
  -- each of these contexts, in the same order.
  pub pages_agree :
      (s s' : Session client) (id : ℤ) (q : Bytes) (o : Map Bytes Bytes) (a : Answer client)
      (threads : ℕ → Thread client) (later : Shared client)
      → length s.responses + 1 < 2 ^ 31
      → get client s id q o ≡ ok (a, s')
      → Reach client (record { session = s'; threads = threads }) later
      → (response : List (ResponseContext source.Context)) × (a.contexts
          ≡ write_response views.view response)
        × (data_of client later.session a.id ≡ ok (map views.data_view (shown response)))
        × (structure client later.session a.id ≡ ok (map views.structure_view (shown response)))
        × ((path : Bytes)
            → create_info client later.session a.id path ≡ create_infos pages (shown response) path)
        × ((q' : Bytes) (o' : Map Bytes Bytes)
            → map_result
                (λ (x : Answer client × Session client). x.0.contexts)
                (get client later.session a.id q' o')
              ≡ map_result
                  (write_response views.view)
                  (query_each source ceil_quotient (read_options p o') (shown response) q'))
  unfolding data_of structure create_info get new_create_response new_response
  pages_agree s s' id q o a threads later fits h reach =
      let (response, shows, at, parent, _) =
        answered_later client s s' id q o a threads later fits h reach in
      (
        response,
        shows,
        ap (map_result (write_contexts views.data_view)) at
            ∙ ap ok (write_contexts-map views.data_view response),
        ap (map_result (write_contexts views.structure_view)) at
            ∙ ap ok (write_contexts-map views.structure_view response),
        λ path.
            ap
              (λ found.
                and_then found (λ parent'. client.create_infos later.session.site parent' path))
              parent,
        λ q' o'. contexts-get client later.session a.id (some response) q' o' parent,
      )
