-- ===== src/Tests/Mailing.antt =====
-- The theorems on the e-mail login at concrete inputs.
use obligator.Base.{
  ℕ, ◌≡◌, ◌≢◌, ◌∙◌, ap, refl, String, ok, ok-injective, text_ne, List, false, none, [], ◌∷◌, lookup,
}
use obligator.Types.{PendingLogin, Request}
use obligator.Handler.After.{final}
use obligator.Http.{World, fail, fresh}
use obligator.Cluster.{Cluster}
use obligator.Email.{clean_expired, email_sent}
use obligator.Email.CleanUp.{lookup-clean_expired}
use obligator.Email.Magic.{complete_email_login}
use obligator.Email.Spent.{asked, cleaned, other, here, more, complete_email_login-Reach}
use obligator.Utils.Random.{gen_random, gen_random_key}
use obligator.Email.Permits.{Permits}
use obligator.Tests.Toy.{toy}
use obligator.Tests.Data.{request, world}

abbrev cluster : Cluster
cluster = record { on_fly = false; local_id = "1" }

abbrev pending_of : String → PendingLogin
pending_of email = record { email = email; expires_at = 100; remote_ip = "10.0.0.1" }

lookup-clean_expired_example :
    lookup "k" (
      clean_expired 101
        (("k", pending_of "ann@example.com") ∷ [])
        (("k", pending_of "ann@example.com") ∷ ("l", pending_of "bob@example.com") ∷ []))
    ≡ none
lookup-clean_expired_example =
    lookup-clean_expired 101 "k" (("k", pending_of "ann@example.com") ∷ [])
      (("k", pending_of "ann@example.com") ∷ ("l", pending_of "bob@example.com") ∷ [])

abbrev waiting : World (toy [])
waiting = record (world []) { pending_logins = ("k", pending_of "ann@example.com") ∷ [] }

abbrev form : Request
form = request (("magic_link_key", "k" ∷ []) ∷ ("instance_id", "1" ∷ []) ∷ []) [] []

abbrev asking : Request
asking = request (("email", "ann@example.com" ∷ []) ∷ []) [] []

-- After the form was handled: a new response, a request for another link, and a clean-up.
abbrev used : World (toy [])
used = final (complete_email_login (toy []) cluster 50 form waiting)

abbrev next_request : World (toy [])
next_request = record used { w = fresh; random = [] }

abbrev asked_again : World (toy [])
asked_again = final (email_sent (toy []) "obligator_" false cluster tt tt 55 asking next_request)

abbrev cleaned_up : World (toy [])
cleaned_up = record asked_again {
  pending_logins = clean_expired 400 asked_again.pending_logins asked_again.pending_logins;
}

zeros : (key : String) (src : List ℕ) → gen_random_key (toy []) [] ≡ ok (key, src) → key ≢ "k"
unfolding gen_random_key gen_random obligator.Utils.Random.char_text
zeros key src e q =
    text_ne "00000000000000000000000000000000" "k" refl
      (ap (λ (x : String × List ℕ). x.0) (ok-injective _ (key, src) e) ∙ q)

complete_email_login-Reach_example :
    complete_email_login (toy []) cluster 60 form cleaned_up
    ≡ fail 500 "Not a valid session" cleaned_up
complete_email_login-Reach_example =
    complete_email_login-Reach (toy []) "obligator_" false cluster tt tt 50 60 form form waiting
      cleaned_up refl refl refl refl refl
      (more (more (more here (other refl)) (asked 55 asking (λ key src e. zeros key src e) refl))
        (cleaned 400 asked_again.pending_logins refl))
