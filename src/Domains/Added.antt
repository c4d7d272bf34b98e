-- ===== src/Domains/Added.antt =====
-- When a domain is added.
use obligator.Base.{
  ℕ, ◌≡◌, ◌≢◌, refl, subst, String, true, Result, ok, err, ok_or, List, [], ◌∷◌, ◌==◌, text_ne,
  exists, All, Bool-cases, Result-cases, inl, inr, ◌⊎◌, ◌↔◌,
}
use obligator.Types.{Request}
use obligator.Platform.{Platform}
use obligator.Handler.After.{After, final, final-After, then_run-After}
use obligator.Http.{World, form_get}
use obligator.Cluster.{Cluster, forward_to_primary}
use obligator.Cluster.Forward.{forward_to_primary-After}
use obligator.Utils.Cookies.{get_identities}
use obligator.Domains.{all_match, matches, verify_ips_match, add_domain_handler, enter_domain}

-- Every address of the one is an address of the other.
abbrev pub AllKnown : List String → List String → Type 0
AllKnown a_ips b_ips = All (λ a. exists (λ b. a == b) b_ips ≡ true) a_ips

all_match_sound : (a_ips b_ips : List String) → all_match a_ips b_ips ≡ ok tt → AllKnown a_ips b_ips
unfolding all_match
all_match_sound [] b_ips e = tt
all_match_sound (a ∷ a_ips) b_ips e = elim (Bool-cases (exists (λ b. a == b) b_ips)) [
  | inl h ↦ (h, all_match_sound a_ips b_ips (rw (h, all_match) at e))
  | inr h ↦ cc (rw (h, all_match) at e)
]

all_match_complete :
    (a_ips b_ips : List String) → AllKnown a_ips b_ips → all_match a_ips b_ips ≡ ok tt
unfolding all_match
all_match_complete [] b_ips h = refl
all_match_complete (a ∷ a_ips) b_ips (h, k) = rw (all_match, h) (all_match_complete a_ips b_ips k)

matches_sound :
    (a b : Result (List String))
    → matches a b ≡ ok tt
    → (a_ips : List String) × (b_ips : List String) × (a ≡ ok a_ips)
      × (b ≡ ok b_ips)
      × AllKnown a_ips b_ips
matches_sound (ok a_ips) (ok b_ips) e = (a_ips, b_ips, refl, refl, all_match_sound a_ips b_ips e)
matches_sound (ok a_ips) (err m) e = cc
matches_sound (err m) b e = cc

-- The check succeeds exactly when both names resolve and every address of the domain is one of
-- this server's.
pub verify_ips_match_iff :
    (lookup_host : String → Result (List String)) (a b : String)
    → (verify_ips_match lookup_host a b ≡ ok tt) ↔ (
        (a_ips : List String) × (b_ips : List String) × (lookup_host a ≡ ok a_ips)
        × (lookup_host b ≡ ok b_ips)
        × AllKnown a_ips b_ips)
unfolding verify_ips_match
verify_ips_match_iff lookup_host a b = (
  matches_sound (lookup_host a) (lookup_host b),
  λ (a_ips, b_ips, e1, e2, h). rw (e1, e2, verify_ips_match) (all_match_complete a_ips b_ips h),
)

module _ (p : Platform) where
  open p use {Db, db, url_parse}

  module _ (lookup_host : String → Result (List String))
      (proxy_add_domain : String → Result (Unit {0})) (cluster : Cluster) where
    -- The domain of the form is in the database for the form's owner, who is one of the session's
    -- identities, and it resolves to this server.
    pub record IsAdded (now : ℕ) (r : Request) (s t : World p) : Type 0 where
      pub owned :
          exists
            (λ ident. ident.id == form_get "owner_id" r)
            (ok_or [] (get_identities p now s.db r))
          ≡ true
      pub named : form_get "domain" r ≢ ""
      pub verified : verify_ips_match lookup_host (form_get "domain" r) r.host ≡ ok tt
      pub proxied : proxy_add_domain (form_get "domain" r) ≡ ok tt
      pub added : db.add_domain (form_get "domain" r) (form_get "owner_id" r) s.db ≡ ok t.db

    abbrev pub Adds : ℕ → Request → World p → World p → Type 0
    Adds now r s t = (t.db ≡ s.db) ⊎ IsAdded now r s t

    enter_domain-After :
        (now : ℕ) (r : Request) (s : World p)
        → exists
            (λ ident. ident.id == form_get "owner_id" r)
            (ok_or [] (get_identities p now s.db r))
          ≡ true
        → form_get "domain" r ≢ ""
        → verify_ips_match lookup_host (form_get "domain" r) r.host ≡ ok tt
        → After
            (Adds now r s)
            (λ a. Adds now r s)
            (enter_domain p proxy_add_domain (form_get "domain" r) (form_get "owner_id" r) s)
    unfolding enter_domain
    enter_domain-After now r s owned named verified =
        elim (Result-cases (proxy_add_domain (form_get "domain" r))) [
          | inr (m, e) ↦ rw (e, enter_domain) (inl refl)
          | inl (u, e) ↦
              elim (Result-cases
                (db.add_domain (form_get "domain" r) (form_get "owner_id" r) s.db)) [
                  | inr (m, q) ↦ rw (e, q, enter_domain) (inl refl)
                  | inl (changed, q) ↦
                      rw (e, q, enter_domain)
                        (inr (record {
                          owned = owned;
                          named = named;
                          verified = verified;
                          proxied = e;
                          added = q;
                        }))
                ]
        ]

    add_domain_handler-After :
        (now : ℕ) (r : Request) (s : World p)
        → After
            (Adds now r s)
            (λ a. Adds now r s)
            (add_domain_handler p lookup_host proxy_add_domain cluster now r s)
    unfolding add_domain_handler
    add_domain_handler-After now r s = elim (Bool-cases (form_get "domain" r == "")) [
      | inl b1 ↦ rw (b1, add_domain_handler) (inl refl)
      | inr b1 ↦ elim (Result-cases (url_parse (form_get "domain" r))) [
        | inr (m, e1) ↦ rw (b1, e1, add_domain_handler) (inl refl)
        | inl (parsed, e1) ↦
            elim (Bool-cases (
              exists (λ ident. ident.id == form_get "owner_id" r)
                (ok_or [] (get_identities p now s.db r)))) [
                  | inr b2 ↦ rw (b1, e1, b2, add_domain_handler) (inl refl)
                  | inl b2 ↦
                      elim (Result-cases
                        (verify_ips_match lookup_host (form_get "domain" r) r.host)) [
                          | inr (m, e2) ↦ rw (b1, e1, b2, e2, add_domain_handler) (inl refl)
                          | inl (u, e2) ↦
                              rw (b1, e1, b2, e2, add_domain_handler)
                                (then_run-After (Adds now r s) (λ a t. s ≡ t) (λ a. Adds now r s)
                                  (forward_to_primary p cluster s) _
                                  (forward_to_primary-After p cluster s (Adds now r s) (inl refl)
                                    (λ w. inl refl))
                                  (λ a t here.
                                    subst
                                      (λ u.
                                        After (Adds now r s) (λ a. Adds now r s)
                                          (enter_domain p proxy_add_domain (form_get "domain" r)
                                            (form_get "owner_id" r) u))
                                      here (enter_domain-After now r s b2 (text_ne _ _ b1) e2)))
                        ]
                ]
      ]
    ]

    -- /add-domain leaves the database as it was, or adds the domain of the form for an owner who is
    -- an identity of the session, after every address of it was found to be this server's and the
    -- reverse proxy has taken it.
    pub add_domain_handler-Adds :
        (now : ℕ) (r : Request) (s : World p)
        → Adds now r s (final (add_domain_handler p lookup_host proxy_add_domain cluster now r s))
    add_domain_handler-Adds now r s =
        final-After (Adds now r s)
          (add_domain_handler p lookup_host proxy_add_domain cluster now r s)
          (add_domain_handler-After now r s)
