-- ===== src/Email/Registered.antt =====
-- A link that /email-sent makes is pending for its address.
use obligator.Base.{
  ℕ, ◌+◌, ◌≡◌, refl, ◌∙◌, ap, String, Bool, some, lookup, lookup-insert, eq_refl, Result-cases, inl,
  inr,
}
use obligator.Types.{Request}
use obligator.Platform.{Platform}
use obligator.Handler.After.{After}
use obligator.Http.{World}
use obligator.Cluster.{Cluster}
use obligator.Utils.Random.{gen_random_key}
use obligator.Utils.CookieDomain.{build_cookie_domain, domain_to_uri}
use obligator.Utils.Cookies.{get_remote_ip}
use obligator.Email.{register_link, magic_link_of, magic_link_claims, email_timeout}

module _ (p : Platform) where
  open p use {Db, db, Key, build, jwt_serialize, execute_template}

  module _ (prefix : String) (behind_proxy : Bool) (cluster : Cluster)
      (priv_key pub_key : Key) where
    -- The link is pending for the address.
    pub record IsRegistered (now : ℕ) (r : Request) (email link : String) (t : World p)
        : Type 0 where
      pub key : String
      pub remote_ip : String
      pub text : link ≡ magic_link_of (domain_to_uri r.host) key cluster.local_id
      pub pending :
          lookup key t.pending_logins
          ≡ some (record { email = email; expires_at = now + email_timeout; remote_ip = remote_ip })

    -- What the registration leaves as it was, and what it gives.
    abbrev pub Links : ℕ → Request → String → World p → String → World p → Type 0
    Links now r email s link t = (t.jobs ≡ s.jobs) × (t.db ≡ s.db) × IsRegistered now r email link t

    pub register_link-Links :
        (now : ℕ) (r : Request) (email : String) (s : World p)
        → After
            (λ t. t.jobs ≡ s.jobs)
            (Links now r email s)
            (register_link p prefix behind_proxy cluster priv_key pub_key now r email s)
    unfolding register_link
    register_link-Links now r email s = elim (Result-cases (gen_random_key p s.random)) [
      | inr (m, e1) ↦ rw (e1, register_link) refl
      | inl (drawn, e1) ↦ elim (Result-cases (get_remote_ip p r behind_proxy)) [
        | inr (m, e2) ↦ rw (e1, e2, register_link) refl
        | inl (ip, e2) ↦
            elim (Result-cases (build (magic_link_claims email drawn.0 cluster.local_id now))) [
              | inr (m, e3) ↦ rw (e1, e2, e3, register_link) refl
              | inl (jwt, e3) ↦ elim (Result-cases (jwt_serialize priv_key pub_key jwt)) [
                | inr (m, e4) ↦ rw (e1, e2, e3, e4, register_link) refl
                | inl (sealed, e4) ↦
                    elim (Result-cases (build_cookie_domain (domain_to_uri r.host))) [
                      | inr (m, e5) ↦ rw (e1, e2, e3, e4, e5, register_link) refl
                      | inl (domain, e5) ↦
                          rw (e1, e2, e3, e4, e5, register_link)
                            (
                              refl,
                              refl,
                              record {
                                key = drawn.0;
                                remote_ip = ip;
                                text = refl;
                                pending =
                                    lookup-insert drawn.0 drawn.0 _ s.pending_logins
                                    ∙ rw (eq_refl drawn.0);
                              },
                            )
                    ]
              ]
            ]
      ]
    ]

    pub move-IsRegistered :
        (now : ℕ) (r : Request) (email link : String) (t u : World p)
        → u.pending_logins ≡ t.pending_logins
        → IsRegistered now r email link t
        → IsRegistered now r email link u
    move-IsRegistered now r email link t u e h = record {
      key = h.key;
      remote_ip = h.remote_ip;
      text = h.text;
      pending = ap (lookup h.key) e ∙ h.pending;
    }
