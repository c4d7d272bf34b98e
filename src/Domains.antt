-- ===== src/Domains.antt =====
-- domains.go: a user adds a domain whose addresses are this server's. `lookup_host` and `lookup_ip`
-- are the resolver's answers, and `proxy_add_domain` is the reverse proxy's.
pub mod Added
use obligator.Base.{
  ℕ, String, ◌⧺◌, Bool, true, false, not, Result, ok, err, ok_or, or_err, Option, none, some, List,
  [], ◌∷◌, ◌==◌, if◌then◌else◌, exists,
}
use obligator.Types.{Request}
use obligator.Pages.{domains}
use obligator.Platform.{Platform, Database}
use obligator.Handler.{◌>>=◌, ◌>>◌, next}
use obligator.Http.{set_db, Action, World, form_get, fail_if, or_fail, redirect, gets, show_page}
use obligator.Cluster.{Cluster, forward_to_primary}
use obligator.Utils.Cookies.{get_identities}
use obligator.Utils.CommonPage.{new_common_data, blank}

-- The loop stops at the first address of the one that is no address of the other.
unfoldable pub all_match : List String → List String → Result (Unit {0})
all_match [] b_ips = ok tt
all_match (a_ip ∷ a_ips) b_ips =
    let rest = all_match a_ips b_ips in
    if exists (λ b_ip. a_ip == b_ip) b_ips
    then rest
    else err
        "No matching IP. Make sure you either have either a CNAME or BOTH A and AAAA records set up."

abbrev pub matches : Result (List String) → Result (List String) → Result (Unit {0})
matches (ok a_ips) (ok b_ips) = all_match a_ips b_ips
matches (ok a_ips) (err m) = err m
matches (err m) _ = err m

unfoldable pub verify_ips_match :
    (String → Result (List String)) → String → String → Result (Unit {0})
verify_ips_match lookup_host domain_a domain_b =
    matches (lookup_host domain_a) (lookup_host domain_b)

-- net.IP with the test of To4: the last address of each kind.
unfoldable pub last_ip : Bool → List (Bool × String) → String → String
last_ip v4 [] found = found
last_ip v4 ((is_v4, ip) ∷ ips) found =
    let here = last_ip v4 ips ip in
    let past = last_ip v4 ips found in
    elim v4 [ true ↦ if is_v4 then here else past | false ↦ if is_v4 then past else here ]

module _ (p : Platform) where
  open p use {Db, db, url_parse}

  -- The text of a nil address is <nil>.
  unfoldable pub domains_handler :
      (String → Result (List (Bool × String))) → ℕ → Request → Action p (Unit {0})
  domains_handler lookup_ip now r = do
    ips ← or_fail 500 (lookup_ip r.host)
    d ← gets (λ s. s.db)
    show_page p 500 (
        domains (new_common_data p blank now d r) r.host (last_ip true ips "<nil>")
          (last_ip false ips "<nil>"))

  unfoldable pub enter_domain : (String → Result (Unit {0})) → String → String → Action p (Unit {0})
  enter_domain proxy_add_domain domain owner_id = do
    taken ← or_fail 500 (proxy_add_domain domain)
    d ← gets (λ s. s.db)
    changed ← or_fail 500 (db.add_domain domain owner_id d)
    set_db changed
    redirect ("https://" ⧺ domain ⧺ "/login") 303

  unfoldable pub add_domain_handler :
      (String → Result (List String))
      → (String → Result (Unit {0}))
      → Cluster
      → ℕ
      → Request
      → Action p (Unit {0})
  add_domain_handler lookup_host proxy_add_domain cluster now r = do
    let domain = form_get "domain" r
    fail_if (domain == "") 400 "Missing domain"
    parsed ← or_fail 400 (url_parse domain)
    let owner_id = form_get "owner_id" r
    d ← gets (λ s. s.db)
    fail_if (not (exists (λ ident. ident.id == owner_id) (ok_or [] (get_identities p now d r)))) 403
        "You don't own that ID"
    verified ← or_fail 400 (verify_ips_match lookup_host domain r.host)
    forward_to_primary p cluster
    enter_domain proxy_add_domain domain owner_id
