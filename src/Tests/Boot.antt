-- ===== src/Tests/Boot.antt =====
-- The theorems on the start of the server, at concrete inputs.
use obligator.Base.{
  ℕ, ◌≡◌, refl, String, ◌⧺◌, true, false, Result, ok, is_ok, Option, some, none, List, [], ◌∷◌,
  ◌++◌, map,
}
use obligator.Proxy.{
  Match, Payload, match_json, matches_json, route_json, query_json, caddy_accepted, HttpCall,
  Answer, Proxy, caddy, CaddyProxy, add_domains, new_proxy, caddy_id,
}
use obligator.Proxy.Routed.{CaddyLaws, match_for, taken, new_proxy-matches}
use obligator.Start.{ServerConfig, configure}
use obligator.Start.Configured.{IsConfigured, configure-IsConfigured}
use obligator.Start.Command.{Flags, conf_of_flags}
use obligator.Start.Served.{published-AreServed, AreServed, of_provider, of_indie_auth, of_fed_cm}
use obligator.Start.Routes.{route}
use obligator.Oidc.Endpoints.{server_metadata}
use obligator.IndieAuth.{indie_metadata}
use obligator.FedCm.{identity_document, config_document}
use obligator.Utils.CookieDomain.{domain_to_uri}
use obligator.Jose.Generate.{KeyTools, ReadsBack}
use obligator.Sqlite.Tables.{SqliteDatabase}
use obligator.Sqlite.{sqlite}
use obligator.Tests.Toy.{toy, marshal, unmarshal}
use obligator.Tests.Data.{settings, store}

-- A Caddy with one route.
abbrev Caddy : Type 0
Caddy = Option (List Match)

abbrev answer : ℕ → Result Answer
answer n = ok (record { status = n; body = ""; errors = ok [] })

abbrev obey : Payload → Caddy → Caddy × Result Answer
obey (match_json m) none = (none, answer 404)
obey (match_json m) (some l) = (some (l ++ m ∷ []), answer 200)
obey (matches_json l) none = (none, answer 404)
obey (matches_json l) (some old) = (some l, answer 200)
obey (route_json route) remote = (some route.matches, answer 200)
obey (query_json q) remote = (remote, answer 404)

abbrev answer_call : HttpCall → Caddy → Caddy × Result Answer
answer_call call remote = obey call.body remote

abbrev decimal : ℕ → String
decimal n = "1616"

abbrev matches_of : String → Caddy → Option (List Match)
matches_of id remote = remote

patched :
    (l : List Match) (remote : Caddy)
    → caddy_accepted answer_call decimal (obey (matches_json l) remote).1 ≡ ok tt
    → (obey (matches_json l) remote).0 ≡ some l
patched l none e = cc
patched l (some old) e = refl

appended :
    (m : Match) (l : List Match) (remote : Caddy)
    → remote ≡ some l
    → (obey (match_json m) remote).0 ≡ some (l ++ m ∷ [])
appended m l remote e = rw e

failed :
    (json : Payload) (remote : Caddy)
    → is_ok (caddy_accepted answer_call decimal (obey json remote).1) ≡ false
    → (obey json remote).0 ≡ remote
failed (match_json m) none e = refl
failed (match_json m) (some l) e = cc
failed (matches_json l) none e = refl
failed (matches_json l) (some old) e = cc
failed (route_json made) remote e = cc
failed (query_json q) remote e = refl

abbrev laws : CaddyLaws answer_call decimal matches_of
laws = record {
  patched = λ id l remote e. patched l remote e;
  appended = λ id m l remote at e. appended m l remote at;
  made = λ server_name made remote e. refl;
  failed = λ call id remote e. failed call.body remote e;
}

abbrev routed : CaddyProxy
routed = record {
  server_uri = "http://localhost:2019";
  server_name = "srv0";
  port = 1616;
  id = "obligator_route";
}

abbrev two_domains : List String
two_domains = "a.example.com" ∷ "b.example.com" ∷ []

new_proxy-matches_example :
    add_domains answer_call decimal (caddy routed) two_domains (some [])
    ≡ some (map match_for (taken answer_call decimal (caddy routed) two_domains (some [])))
unfolding new_proxy obligator.Proxy.new_caddy_proxy obligator.Proxy.request_bytes
    obligator.Proxy.route_to
new_proxy-matches_example =
    new_proxy-matches answer_call decimal matches_of laws "" "" 1616 "obligator_" none (some [])
      (caddy routed) two_domains refl

abbrev flags : Flags
flags = record {
  config = "";
  port = 1616;
  prefix = "obligator_";
  database_dir = "./";
  api_socket_dir = "";
  behind_proxy = false;
  display_name = "Example";
  geo_db_path = "";
  forward_auth_passthrough = false;
  proxy_type = "caddy";
  domains = two_domains;
  users = "ann@example.com" ∷ [];
}

abbrev conf : ServerConfig
conf = conf_of_flags flags

abbrev same : String → String
same s = s

configure-IsConfigured_example :
    (s' : SqliteDatabase) × (configure (sqlite same same marshal unmarshal) conf "obligator_" store
      ≡ ok s')
    × IsConfigured same same marshal unmarshal conf none settings store s'
unfolding conf_of_flags
configure-IsConfigured_example =
    configure-IsConfigured same same marshal unmarshal conf none settings store refl refl refl

published-AreServed_example :
    let uri = domain_to_uri "id.example.com" in
    AreServed uri (of_provider (server_metadata uri))
    × AreServed uri (of_indie_auth (indie_metadata uri "/indieauth"))
    × AreServed uri (of_fed_cm (identity_document uri))
    × AreServed uri (of_fed_cm (config_document uri "/login-fedcm-auto"))
    × (path : String) × ((indie_metadata uri "/indieauth").introspection_endpoint ≡ uri ⧺ path)
    × (route path ≡ none)
published-AreServed_example = published-AreServed "id.example.com"

abbrev tools : KeyTools (toy [])
tools = record {
  Raw = Unit {0};
  generate_key = λ src. ok (tt, src);
  from_raw = λ raw. ok raw;
  is_rsa_private_key = λ key. true;
  assign_key_id = λ key. ok key;
  with_alg = λ key. key;
  singleton = λ key. key;
  marshal = λ l. ok "{}";
}

abbrev new_store : SqliteDatabase
new_store = record store { config = record settings { jwks_json = "" } ∷ [] }
