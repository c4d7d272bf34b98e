-- ===== src/Proxy.antt =====
-- proxy.go: the reverse proxy in front of the server, which is told of each domain over HTTP. What
-- the other side answers is a parameter, and so is what the calls do to it.
pub mod Routed
use obligator.Base.{
  ℕ, String, ◌⧺◌, Bool, true, false, ◌&&◌, Result, ok, err, ◌>>=◌, Option, none, some, List, [],
  ◌∷◌, ◌++◌, ◌==◌, if◌then◌else◌, leb,
}

-- The JSON that is sent to Caddy, and the query for fly.io.
pub record Match : Type 0 where
  pub host : List String
  pub path : List String

pub record Upstream : Type 0 where
  pub dial : String

-- The fields that the program fills in.
pub record Handle : Type 0 where
  pub id : String
  pub handler : String
  pub upstreams : List Upstream

pub record Route : Type 0 where
  pub id : String
  pub handle : List Handle
  pub matches : List Match
  pub terminal : Bool

pub data Payload : Type 0 where
  match_json : Match → Payload
  matches_json : List Match → Payload
  route_json : Route → Payload
  query_json : String → Payload

-- An HTTP request, and the status and the body of the answer.
pub record HttpCall : Type 0 where
  pub method : String
  pub uri : String
  pub headers : List (String × String)
  pub body : Payload

abbrev pub has_status_ok : ℕ → Bool
has_status_ok n = leb n 200 && leb 200 n

abbrev pub json_header : List (String × String)
json_header = ("Content-Type", "application/json") ∷ []

pub record CaddyProxy : Type 0 where
  pub server_uri : String
  pub server_name : String
  pub port : ℕ
  pub id : String

pub record FlyIoProxy : Type 0 where
  pub token : String
  pub app_id : String

-- The implementations of the interface Proxy.
pub data Proxy : Type 0 where
  builtin : Proxy
  fly_io : FlyIoProxy → Proxy
  caddy : CaddyProxy → Proxy

abbrev pub caddy_id : String → String
caddy_id prefix = prefix ⧺ "route"

abbrev pub match_path : String → String
match_path id = "/id/" ⧺ id ⧺ "/match"

abbrev pub routes_path : String → String
routes_path server_name = "/config/apps/http/servers/" ⧺ server_name ⧺ "/routes"

-- `dial` is localhost with the port in decimal.
unfoldable pub route_to : String → String → Route
route_to prefix dial = record {
  id = caddy_id prefix;
  handle =
      record { id = ""; handler = "reverse_proxy"; upstreams = record { dial = dial } ∷ [] } ∷ [];
  matches = [];
  terminal = false;
}

-- Without the line breaks of the source, which mean nothing in GraphQL.
abbrev pub certificate_query : String → String → String
certificate_query app_id domain =
    "mutation { addCertificate(appId: \"" ⧺ app_id ⧺ "\", hostname: \"" ⧺ domain
    ⧺ "\") { certificate { hostname } } }"

-- graphQlMsg.Errors
abbrev pub first_error : List String → Result (Unit {0})
first_error [] = ok tt
first_error (m ∷ ms) = err m

-- The other side: its state, and what a call does to it and is answered. An answer has a status,
-- the text of its body, and the errors that the body decodes to.
pub record Answer : Type 0 where
  pub status : ℕ
  pub body : String
  pub errors : Result (List String)

module _ {Remote : Type 0} (send : HttpCall → Remote → Remote × Result Answer)
    (decimal : ℕ → String) where
  abbrev pub caddy_accepted : Result Answer → Result (Unit {0})
  caddy_accepted (err m) = err m
  caddy_accepted (ok a) = if has_status_ok a.status then ok tt else err "Bad code"

  unfoldable pub request_bytes :
      CaddyProxy → String → String → Payload → Remote → Remote × Result (Unit {0})
  request_bytes proxy method path json remote =
      let (next, answer) =
        send
          (record {
            method = method;
            uri = proxy.server_uri ⧺ path;
            headers = json_header;
            body = json;
          })
          remote in
      (next, caddy_accepted answer)

  unfoldable pub add_domain_caddy : CaddyProxy → String → Remote → Remote × Result (Unit {0})
  add_domain_caddy proxy domain remote =
      request_bytes proxy "POST" (match_path proxy.id)
        (match_json (record { host = domain ∷ []; path = [] })) remote

  abbrev pub graph_ql : Result Answer → Result (Unit {0})
  graph_ql (err m) = err m
  graph_ql (ok a) =
      if has_status_ok a.status
      then a.errors >>= first_error
      else err ("Adding domain to fly.io failed: " ⧺ a.body)

  unfoldable pub add_domain_fly_io : FlyIoProxy → String → Remote → Remote × Result (Unit {0})
  add_domain_fly_io proxy domain remote =
      let (next, answer) =
        send
          (record {
            method = "POST";
            uri = "https://api.fly.io/graphql";
            headers = json_header ++ ("Authorization", "Bearer " ⧺ proxy.token) ∷ [];
            body = query_json (certificate_query proxy.app_id domain);
          })
          remote in
      (next, graph_ql answer)

  unfoldable pub proxy_add_domain : Proxy → String → Remote → Remote × Result (Unit {0})
  proxy_add_domain builtin domain remote = (remote, ok tt)
  proxy_add_domain (fly_io proxy) domain remote = add_domain_fly_io proxy domain remote
  proxy_add_domain (caddy proxy) domain remote = add_domain_caddy proxy domain remote

  abbrev pub caddy_proxy : String → ℕ → String → CaddyProxy
  caddy_proxy server_name port prefix = record {
    server_uri = "http://localhost:2019";
    server_name = server_name;
    port = port;
    id = caddy_id prefix;
  }

  -- The matches of the route are emptied, or else the route is made; `none` is a panic.
  unfoldable pub new_caddy_proxy : String → ℕ → String → Remote → Remote × Option CaddyProxy
  new_caddy_proxy server_name port prefix remote =
      let p = caddy_proxy server_name port prefix in
      let (emptied, done) = request_bytes p "PATCH" (match_path p.id) (matches_json []) remote in
      elim done [
        | ok u ↦ (emptied, some p)
        | err m ↦
            let (made, done') =
              request_bytes p "POST" (routes_path server_name)
                (route_json (route_to prefix ("localhost:" ⧺ decimal port))) emptied in
            elim done' [ ok u ↦ (made, some p) | err m' ↦ (made, none) ]
      ]

  -- The environment's FLY_IO_TOKEN and FLY_IO_APP_ID; `none` is a panic.
  unfoldable pub new_proxy : String → String → String → ℕ → String → Remote → Remote × Option Proxy
  new_proxy fly_io_token fly_io_app_id proxy_type port prefix remote =
      if proxy_type == "builtin"
      then (remote, some builtin)
      else if proxy_type == "caddy"
      then (let (next, made) = new_caddy_proxy "srv0" port prefix remote in
          (next, elim made [ none ↦ none | some p ↦ some (caddy p) ]))
      else if proxy_type == "fly.io"
      then (remote, some (fly_io (record { token = fly_io_token; app_id = fly_io_app_id })))
      else (remote, none)

  -- NewServer tells the proxy of each domain; an error is logged.
  unfoldable pub add_domains : Proxy → List String → Remote → Remote
  add_domains proxy [] remote = remote
  add_domains proxy (domain ∷ rest) remote =
      add_domains proxy rest ((proxy_add_domain proxy domain remote).0)
