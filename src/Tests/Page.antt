-- ===== src/Tests/Page.antt =====
-- The theorems on the login with a page at concrete inputs.
use obligator.Base.{ℕ, refl, ◌≡◌, String, false, ok, List, [], ◌∷◌}
use obligator.Types.{Request, str}
use obligator.Cluster.{Cluster}
use obligator.Gaml.{Get, new_code}
use obligator.Gaml.Fresh.{new_code-AreDrawn}
use obligator.Utils.Random.{gen_random, gen_random_code}
use obligator.Tests.Toy.{toy, Token}
use obligator.Tests.Data.{request}

abbrev code : String
code = "1234"

abbrev old_code : String
old_code = "0000"

abbrev shown : Get
shown url = ok (200, ok "1234")

abbrev table : List (String × Token)
table = ("state", ("url", str "ann.example.com") ∷ ("instance_id", str "1") ∷ []) ∷ []

abbrev cluster : Cluster
cluster = record { on_fly = false; local_id = "1" }

abbrev claiming : Request
claiming = request [] [] (("obligator__gaml_login_state", "state") ∷ [])

-- The old code is drawn first, and then another.
abbrev draws : List (String × List ℕ)
draws = (old_code, 1 ∷ 2 ∷ 3 ∷ 4 ∷ 5 ∷ []) ∷ (code, 5 ∷ []) ∷ []

new_code-AreDrawn_example :
    new_code (toy []) 2 old_code (0 ∷ 0 ∷ 0 ∷ 0 ∷ 1 ∷ 2 ∷ 3 ∷ 4 ∷ 5 ∷ []) ≡ ok (code, 5 ∷ [])
unfolding gen_random_code gen_random obligator.Utils.Random.char_text
new_code-AreDrawn_example =
    new_code-AreDrawn (toy []) old_code (0 ∷ 0 ∷ 0 ∷ 0 ∷ 1 ∷ 2 ∷ 3 ∷ 4 ∷ 5 ∷ []) draws
      (refl, (refl, tt))
