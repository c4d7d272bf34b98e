-- ===== src/Tests/Site.antt =====
-- The theorems on the server's pages and on custom domains at concrete inputs.
use obligator.Base.{String, false, Result, ok, List, [], ◌∷◌}
use obligator.Types.{Request}
use obligator.Handler.After.{final}
use obligator.Cluster.{Cluster}
use obligator.Domains.{add_domain_handler}
use obligator.Domains.Added.{Adds, add_domain_handler-Adds}
use obligator.Tests.Toy.{toy}
use obligator.Tests.Data.{request, world}

abbrev elsewhere : Request
elsewhere = request (("return_uri", "https://evil.example.com/" ∷ []) ∷ []) [] []

abbrev resolve : String → Result (List String)
resolve host = ok ("10.0.0.1" ∷ [])

abbrev cluster : Cluster
cluster = record { on_fly = false; local_id = "1" }

abbrev adding : Request
adding =
    request (("domain", "a.example.com" ∷ []) ∷ ("owner_id", "ann@example.com" ∷ []) ∷ []) [] []

add_domain_handler-Adds_example :
    Adds
      (toy [])
      resolve
      (λ d. ok tt)
      cluster
      50
      adding
      (world [])
      (final (add_domain_handler (toy []) resolve (λ d. ok tt) cluster 50 adding (world [])))
add_domain_handler-Adds_example =
    add_domain_handler-Adds (toy []) resolve (λ d. ok tt) cluster 50 adding (world [])
