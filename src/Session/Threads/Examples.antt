-- ===== src/Session/Threads/Examples.antt =====
-- Two threads that query one session.
use vae_thrift.Prelude.{ℕ, ◌≡◌, refl, ◌==◌, if◌then◌else◌, [], ◌∷◌, arith}
use vae_thrift.Prelude.Int.{pos}
use vae_thrift.Prelude.Bytes.{bytes}
use vae_thrift.Exec.{ok}
use vae_thrift.Session.{Answer, response_at}
use vae_thrift.Session.Examples.{echo, one_query}
use vae_thrift.Session.Threads.{
  Thread, idle, getting, numbering, pushing, answered, Shared, move, numbered, advance, goes, Reach,
  here, next,
}
use vae_thrift.Session.Threads.Collide.{get_collides}

abbrev queries : ℕ → Thread {Site = ℕ} echo
queries t =
    if t == 1 then numbering (bytes "title") else if t == 2 then numbering (bytes "body") else idle

abbrev both : Shared {Site = ℕ} echo
both = record { session = one_query; threads = queries }

abbrev first_pushed : Shared {Site = ℕ} echo
first_pushed =
    move echo 1 (answered (ok (numbered echo one_query (bytes "title"))))
      (record (move echo 1 (pushing (bytes "title") (numbered echo one_query (bytes "title")))
        both) { session = record one_query { responses = bytes "/posts" ∷ bytes "title" ∷ [] } })

trace : Reach echo both first_pushed
unfolding advance
trace =
    next
      (next here (
        goes 1
          (move echo 1 (pushing (bytes "title") (numbered echo one_query (bytes "title"))) both)
          refl))
      (goes 1 first_pushed refl)

get_collides_example :
    (s : Shared {Site = ℕ} echo) × (x y : Answer {Site = ℕ} echo) × Reach echo both s
    × (s.threads 1 ≡ answered (ok x))
    × (s.threads 2 ≡ answered (ok y))
    × (x.id ≡ y.id)
    × (s.session.responses ≡ bytes "/posts" ∷ bytes "title" ∷ bytes "body" ∷ [])
    × (response_at echo s.session y.id ≡ ok (bytes "title"))
get_collides_example =
    get_collides echo both 1 2 (bytes "title") (bytes "body") (omega arith) refl refl (omega arith)

abbrev asking : Shared {Site = ℕ} echo
asking = record { session = one_query; threads = λ t. getting (pos 1) (bytes "title") [] }
