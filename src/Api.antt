-- ===== src/Api.antt =====
-- api.go: the administration API on a unix socket, and the methods of Api that the server passes on.
-- A body is what its JSON decodes to, or the decoder's error.
pub mod Checked
use obligator.Base.{
  ℕ, String, ◌⧺◌, Bool, true, false, Result, ok, err, List, [], ◌∷◌, ◌==◌, if◌then◌else◌, split,
  Option, none, some,
}
use obligator.Types.{OAuth2Provider, User, Request}
use obligator.Pages.{json, providers, users}
use obligator.Platform.{Platform, Database}
use obligator.Base.Results.{◌>>=◌ as bind}
use obligator.Handler.{◌>>=◌, ◌>>◌, next}
use obligator.Http.{set_db, Action, World, fail, or_fail, gets, pure, respond, write, crash}

-- The first field that is missing.
unfoldable pub missing : OAuth2Provider → Option String
missing prov =
    if prov.id == ""
    then some "Missing ID"
    else if prov.name == ""
    then some "Missing name"
    else if prov.uri == ""
    then some "Missing URI"
    else if prov.client_id == ""
    then some "Missing client_id"
    else none

module _ (p : Platform) where
  open p use {Db, db, parse_address}

  -- The database, also where the update of the providers' metadata fails, and the error.
  unfoldable pub set_oauth2_provider_api :
      Result (Unit {0}) → OAuth2Provider → Db → Db × Result (Unit {0})
  set_oauth2_provider_api update prov d = elim (missing prov) [
    | some m ↦ (d, err m)
    | none ↦ elim (db.set_oauth2_provider prov d) [
      | err m ↦ (d, err m)
      | ok changed ↦ (changed, update)
    ]
  ]

  unfoldable pub add_user : User → Db → Result Db
  add_user user d = elim (parse_address user.id) [ err m ↦ err m | ok address ↦ db.set_user user d ]

  unfoldable pub list_providers : Request → Action p (Unit {0})
  list_providers r =
      if r.method == "GET"
      then (do
        d ← gets (λ s. s.db)
        found ← or_fail 500 (db.get_oauth2_providers d)
        respond (write (json (providers found))))
      else pure tt

  abbrev store_provider : Result OAuth2Provider → Action p (Unit {0})
  store_provider body = do
    prov ← or_fail 400 body
    d ← gets (λ s. s.db)
    changed ← or_fail 500 (db.set_oauth2_provider prov d)
    set_db changed

  -- The id of the path is only looked at: the provider of the body is stored. The multiplexer
  -- gives the handler no path of fewer than three parts.
  abbrev put_at : Result OAuth2Provider → List String → Action p (Unit {0})
  put_at body (a ∷ b ∷ provider_id ∷ []) =
      if provider_id == "" then fail 400 "Missing provider ID" else store_provider body
  put_at body (a ∷ b ∷ c ∷ d ∷ more) = fail 400 "Too many path segments"
  put_at body _ = crash

  unfoldable pub put_provider : Result OAuth2Provider → Request → Action p (Unit {0})
  put_provider body r = if r.method == "PUT" then put_at body (split b'/' r.path) else pure tt

  -- NewApi: without a directory there is no socket. `listen` is the listener on a socket in a
  -- directory; the socket of an earlier run is removed first.
  unfoldable pub new_api : (String → String → Result (Unit {0})) → String → Db → Result (Unit {0})
  new_api listen dir d =
      if dir == ""
      then ok tt
      else bind (db.get_prefix d) (λ prefix. listen dir (prefix ⧺ "api.sock"))

  abbrev list_users : Action p (Unit {0})
  list_users = do
    d ← gets (λ s. s.db)
    found ← or_fail 500 (db.get_users d)
    respond (write (json (users found)))

  abbrev post_user : Result User → Action p (Unit {0})
  post_user body = do
    user ← or_fail 400 body
    d ← gets (λ s. s.db)
    changed ← or_fail 500 (add_user user d)
    set_db changed

  unfoldable pub users_handler : Result User → Request → Action p (Unit {0})
  users_handler body r =
      if r.method == "GET"
      then list_users
      else if r.method == "POST"
      then post_user body
      else pure tt
