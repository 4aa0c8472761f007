-- ===== src/Session/Served.antt =====
-- The sessions of cpp/session.cpp over the responses of cpp/response.cpp: what `Responses` leaves open
-- is filled by the constructors and writers of `Response`, for the site of a session.
pub mod Laws
pub mod Page
mod Examples
use mathlib.Core.List.{flatten}
use vae_thrift.Prelude.{ℕ, Option, none, some, List, [], ◌∷◌, map, length}
use vae_thrift.Prelude.Int.{ℤ}
use vae_thrift.Prelude.Bytes.{Bytes}
use vae_thrift.Prelude.Map.{Map}
use vae_thrift.Exec.{Result}
use vae_thrift.Query.Rewrite.{Pcre}
use vae_thrift.Response.Query.{ResponseContext}
use vae_thrift.Response.Create.{Pages, CreateInfo, new_create_response}
use vae_thrift.Response.Serve.{Source, new_response, write_response, write_contexts}
use vae_thrift.Session.{Responses}

-- `toVaeDbContext`, `toVaeDbDataForContext` and `toVaeDbStructureForContext`
pub record Views (Context : Type 0) : Type 1 where
  pub View : Type 0
  pub DataView : Type 0
  pub StructureView : Type 0
  pub view : Context → View
  pub data_view : Context → DataView
  pub structure_view : Context → StructureView

-- The lists of contexts of a parent, which may be the null pointer.
abbrev pub parent_contexts {ℓ} :
    {A : Type ℓ} {B : Type ℓ} → (A → B) → Option (List A) → Option (List B)
parent_contexts f none = none
parent_contexts f (some parent) = some (map f parent)

-- The contexts of a response, in the order in which it shows them.
abbrev pub shown : {Context : Type 0} → List (ResponseContext Context) → List Context
shown response = flatten (map (λ (c : ResponseContext _). c.contexts) response)

module _ {Site : Type 0} (source : Source) (pages : Pages source.Context)
    (views : Views source.Context) (p : Pcre) (ceil_quotient : ℤ → ℤ → Option ℤ) where
  open source use {Context}

  abbrev pub served : Responses Site
  served = record {
    Response = List (ResponseContext Context);
    Contexts = List (List views.View × ℕ);
    CreateInfos = List CreateInfo;
    DataContexts = List views.DataView;
    Structures = List views.StructureView;
    new_response = λ site parent q options. new_response source ceil_quotient p options parent q;
    create_infos = λ site parent q.
        new_create_response pages
          (parent_contexts (λ (c : ResponseContext Context). c.contexts) parent) q;
    write_contexts = write_response views.view;
    write_data = write_contexts views.data_view;
    write_structures = write_contexts views.structure_view;
  }
