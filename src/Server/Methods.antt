-- ===== src/Server/Methods.antt =====
-- obligator.go: the methods of Server, and AuthUri.
use obligator.Base.{String, ◌⧺◌, Result, List, insert}
use obligator.Types.{OAuth2Provider, User}
use obligator.Platform.{Platform}
use obligator.Api.{set_oauth2_provider_api, add_user}
use obligator.Oidc.AuthRequest.{OAuth2AuthRequest}

unfoldable pub auth_uri : String → OAuth2AuthRequest → String
auth_uri server_uri auth_req =
    server_uri ⧺ "?client_id=" ⧺ auth_req.client_id ⧺ "&redirect_uri=" ⧺ auth_req.redirect_uri
    ⧺ "&response_type=" ⧺ auth_req.response_type ⧺ "&state=" ⧺ auth_req.state ⧺ "&scope="
    ⧺ auth_req.scope

module _ (p : Platform) where
  open p use {Db, db}

  -- muxMap[domain] = mux
  unfoldable pub proxy_mux : {A : Type 0} → String → A → List (String × A) → List (String × A)
  proxy_mux domain mux mux_map = insert domain mux mux_map

  -- The methods that pass a call on to Api; `update` is the update of the providers' metadata.
  unfoldable pub server_set_oauth2_provider :
      Result (Unit {0}) → OAuth2Provider → Db → Db × Result (Unit {0})
  server_set_oauth2_provider update prov d = set_oauth2_provider_api p update prov d

  unfoldable pub server_add_user : User → Db → Result Db
  server_add_user user d = add_user p user d

  unfoldable pub server_get_users : Db → Result (List User)
  server_get_users d = db.get_users d
