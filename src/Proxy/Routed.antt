-- ===== src/Proxy/Routed.antt =====
-- What Caddy routes to the server after its start.
use obligator.Base.{
  ℕ, ◌≡◌, ◌∙◌, sym, ap, String, ◌⧺◌, Result, ok, err, is_ok, false, Option, some, List, [], ◌∷◌,
  ◌++◌, map, if◌then◌else◌, arith, Option-cases, Result-cases, inl, inr,
}
use mathlib.Core.List.{append-nil, append_assoc}
use obligator.Proxy.{
  Match, Route, Payload, match_json, matches_json, route_json, HttpCall, Answer, json_header, Proxy,
  CaddyProxy, caddy, caddy_id, match_path, routes_path, route_to, caddy_accepted, request_bytes,
  proxy_add_domain, add_domain_caddy, caddy_proxy, new_caddy_proxy, new_proxy, add_domains,
}

abbrev pub caddy_call : String → String → Payload → HttpCall
caddy_call method path json = record {
  method = method;
  uri = "http://localhost:2019" ⧺ path;
  headers = json_header;
  body = json;
}

abbrev pub match_for : String → Match
match_for domain = record { host = domain ∷ []; path = [] }

module _ {Remote : Type 0} (send : HttpCall → Remote → Remote × Result Answer)
    (decimal : ℕ → String) where
  abbrev pub result_of : HttpCall → Remote → Result (Unit {0})
  result_of call remote = caddy_accepted send decimal (send call remote).1

  abbrev pub state_after : HttpCall → Remote → Remote
  state_after call remote = (send call remote).0

  -- What Caddy documents of its API, for the route with an id: PATCH replaces the value at a path
  -- and POST appends to the array at a path, each with status 200; any other answer means that the
  -- configuration is what it was, and so does a call without an answer, which is taken not to have
  -- arrived. `matches_of` are the matches of the route, if there is one.
  pub record CaddyLaws (matches_of : String → Remote → Option (List Match)) : Type 0 where
    pub patched :
        (id : String) (l : List Match) (remote : Remote)
        → result_of (caddy_call "PATCH" (match_path id) (matches_json l)) remote ≡ ok tt
        → matches_of id (state_after (caddy_call "PATCH" (match_path id) (matches_json l)) remote)
          ≡ some l
    pub appended :
        (id : String) (m : Match) (l : List Match) (remote : Remote)
        → matches_of id remote ≡ some l
        → result_of (caddy_call "POST" (match_path id) (match_json m)) remote ≡ ok tt
        → matches_of id (state_after (caddy_call "POST" (match_path id) (match_json m)) remote)
          ≡ some (l ++ m ∷ [])
    pub made :
        (server_name : String) (route : Route) (remote : Remote)
        → result_of (caddy_call "POST" (routes_path server_name) (route_json route)) remote ≡ ok tt
        → matches_of route.id
            (state_after (caddy_call "POST" (routes_path server_name) (route_json route)) remote)
          ≡ some route.matches
    pub failed :
        (call : HttpCall) (id : String) (remote : Remote)
        → is_ok (result_of call remote) ≡ false
        → matches_of id (state_after call remote) ≡ matches_of id remote

  -- The domains that the proxy took, in order.
  pub taken : Proxy → List String → Remote → List String
  taken proxy [] remote = []
  taken proxy (domain ∷ rest) remote =
      let later = taken proxy rest (proxy_add_domain send decimal proxy domain remote).0 in
      elim (proxy_add_domain send decimal proxy domain remote).1 [
        | ok u ↦ domain ∷ later
        | err m ↦ later
      ]

  taken_ok :
      (proxy : Proxy) (domain : String) (rest : List String) (remote : Remote) (u : Unit {0})
      → (proxy_add_domain send decimal proxy domain remote).1 ≡ ok u
      → taken proxy (domain ∷ rest) remote
        ≡ domain ∷ taken proxy rest (proxy_add_domain send decimal proxy domain remote).0
  unfolding taken
  taken_ok proxy domain rest remote u q = rw (taken, q)

  taken_err :
      (proxy : Proxy) (domain : String) (rest : List String) (remote : Remote) (m : String)
      → (proxy_add_domain send decimal proxy domain remote).1 ≡ err m
      → taken proxy (domain ∷ rest) remote
        ≡ taken proxy rest (proxy_add_domain send decimal proxy domain remote).0
  unfolding taken
  taken_err proxy domain rest remote m q = rw (taken, q)

  module _ (matches_of : String → Remote → Option (List Match)) (laws : CaddyLaws matches_of) where
    drawn :
        (a b : Remote) (x y : CaddyProxy)
        → ◌≡◌ {A = Remote × Option CaddyProxy} (a, some x) (b, some y)
        → (a ≡ b) × (x ≡ y)
    drawn a b x y e = ground arith

    moved :
        (id : String) {a b : Remote} {x y : CaddyProxy}
        → (a ≡ b) × (x ≡ y)
        → matches_of id a ≡ some []
        → (y ≡ x) × (matches_of id b ≡ some [])
    moved id (h, k) l = (sym k, rw (← h) l)

    new_caddy_proxy-matches :
        (server_name : String) (port : ℕ) (prefix : String) (remote r1 : Remote) (p : CaddyProxy)
        → new_caddy_proxy send decimal server_name port prefix remote ≡ (r1, some p)
        → (p ≡ caddy_proxy send decimal server_name port prefix)
          × (matches_of (caddy_id prefix) r1 ≡ some [])
    unfolding new_caddy_proxy request_bytes route_to
    new_caddy_proxy-matches server_name port prefix remote r1 p e =
        let patch = caddy_call "PATCH" (match_path (caddy_id prefix)) (matches_json []) in
        let post =
          caddy_call "POST" (routes_path server_name)
            (route_json (route_to prefix ("localhost:" ⧺ decimal port))) in
        elim (Result-cases (result_of patch remote)) [
          | inl (u, q) ↦
              moved (caddy_id prefix) (drawn _ _ _ _ (rw (new_caddy_proxy, q) at e))
                (laws.patched (caddy_id prefix) [] remote q)
          | inr (m, q) ↦ elim (Result-cases (result_of post (state_after patch remote))) [
            | inl (u, q') ↦
                moved (caddy_id prefix) (drawn _ _ _ _ (rw (new_caddy_proxy, q, q') at e)) (
                  laws.made server_name (route_to prefix ("localhost:" ⧺ decimal port))
                    (state_after patch remote) q')
            | inr (m', q') ↦ cc (rw (new_caddy_proxy, q, q') at e)
          ]
        ]

    add_domain_caddy-matches :
        (proxy : CaddyProxy) (domain : String) (l : List Match) (remote : Remote)
        → proxy.server_uri ≡ "http://localhost:2019"
        → matches_of proxy.id remote ≡ some l
        → matches_of proxy.id (proxy_add_domain send decimal (caddy proxy) domain remote).0
          ≡ some (
              if is_ok (proxy_add_domain send decimal (caddy proxy) domain remote).1
              then l ++ match_for domain ∷ []
              else l)
    unfolding proxy_add_domain add_domain_caddy request_bytes
    add_domain_caddy-matches proxy domain l remote uri at =
        let post = caddy_call "POST" (match_path proxy.id) (match_json (match_for domain)) in
        rw uri (elim (Result-cases (result_of post remote)) [
          | inl (u, q) ↦ rw q (laws.appended proxy.id (match_for domain) l remote at q)
          | inr (m, q) ↦ rw q (laws.failed post proxy.id remote (rw q) ∙ at)
        ])

    add_domains-matches :
        (proxy : CaddyProxy) (domains : List String) (l : List Match) (remote : Remote)
        → proxy.server_uri ≡ "http://localhost:2019"
        → matches_of proxy.id remote ≡ some l
        → matches_of proxy.id (add_domains send decimal (caddy proxy) domains remote)
          ≡ some (l ++ map match_for (taken (caddy proxy) domains remote))
    unfolding add_domains taken
    add_domains-matches proxy [] l remote uri at = rw (append-nil l) at
    add_domains-matches proxy (domain ∷ rest) l remote uri at =
        let one = add_domain_caddy-matches proxy domain l remote uri at in
        let next = (proxy_add_domain send decimal (caddy proxy) domain remote).0 in
        elim (Result-cases (proxy_add_domain send decimal (caddy proxy) domain remote).1) [
          | inl (u, q) ↦ rw (taken_ok (caddy proxy) domain rest remote u q) (
              add_domains-matches proxy rest (l ++ match_for domain ∷ []) next uri (rw q at one)
              ∙ ap some (
                  append_assoc l (match_for domain ∷ [])
                    (map match_for (taken (caddy proxy) rest next))))
          | inr (m, q) ↦
              rw (taken_err (caddy proxy) domain rest remote m q)
                (add_domains-matches proxy rest l next uri (rw q at one))
        ]

    chosen :
        (a b : Remote) (p : CaddyProxy) (proxy : Proxy)
        → ◌≡◌ {A = Remote × Option Proxy} (a, some (caddy p)) (b, some proxy)
        → (a ≡ b) × (caddy p ≡ proxy)
    chosen a b p proxy e = ground arith

    pair_at :
        (o : Remote × Option CaddyProxy) (a : Remote) (x : Option CaddyProxy)
        → o.0 ≡ a
        → o.1 ≡ x
        → o ≡ (a, x)
    pair_at o a x e q = ground arith

    -- When the server has started behind Caddy, the route to it has a match for each domain that
    -- Caddy took, in their order, and no other: what earlier runs left is gone, and a domain that was
    -- refused is left out. Caddy does what it documents, and a call without an answer has not
    -- reached it.
    pub new_proxy-matches :
        (token app_id : String) (port : ℕ) (prefix : String) (remote r1 : Remote) (proxy : Proxy)
        (domains : List String)
        → new_proxy send decimal token app_id "caddy" port prefix remote ≡ (r1, some proxy)
        → matches_of (caddy_id prefix) (add_domains send decimal proxy domains r1)
          ≡ some (map match_for (taken proxy domains r1))
    unfolding new_proxy
    new_proxy-matches token app_id port prefix remote r1 proxy domains e =
        elim (Option-cases (new_caddy_proxy send decimal "srv0" port prefix remote).1) [
          | inl q ↦ cc (rw q at e)
          | inr (p, q) ↦
              let (moved_to, same) = chosen _ _ p proxy (rw q at e) in
              let (is, at) =
                new_caddy_proxy-matches "srv0" port prefix remote r1 p (pair_at _ _ _ moved_to q) in
              rw (← same) (
                let h =
                  add_domains-matches p domains [] r1 (ap (λ (x : CaddyProxy). x.server_uri) is)
                    (rw (← ap (λ (x : CaddyProxy). x.id) is) at at) in
                rw (← ap (λ (x : CaddyProxy). x.id) is) h)
        ]
