-- ===== src/Email/Absent.antt =====
-- What the handlers of the e-mail login do to a key that no pending login has.
use obligator.Base.{
  ℕ, ◌-◌, Bool, ◌≡◌, ◌≢◌, subst, ◌∙◌, ap, String, ok, none, ok_or, List, [], ◌==◌, eq_iff, lookup,
  insert, lookup-insert, Bool-cases, Result-cases, inl, inr,
}
use obligator.Types.{PendingLogin, Request, User}
use obligator.Platform.{Platform}
use obligator.Handler.After.{After, After-weaken, then_run-After, final, final-After}
use obligator.Http.{World, form_get}
use obligator.Cluster.{Cluster, forward_to_primary}
use obligator.Cluster.Forward.{forward_to_primary-After}
use obligator.Utils.Random.{gen_random_key}
use obligator.Utils.CookieDomain.{build_cookie_domain, domain_to_uri}
use obligator.Utils.Cookies.{get_identities, get_remote_ip}
use obligator.Email.{
  email_sent, register_link, request_mail, is_limited, rate_limit_time, magic_link_claims,
}
use obligator.Email.Permits.{Starts, send_if_known-Starts}

insert-absent :
    (k key : String) (v : PendingLogin) (m : List (String × PendingLogin))
    → key ≢ k
    → lookup k m ≡ none
    → lookup k (insert key v m) ≡ none
insert-absent k key v m n e = elim (Bool-cases (key == k)) [
  | inl b ↦ absurd (n ((eq_iff key k).0 b))
  | inr b ↦ lookup-insert key k v m ∙ rw b e
]

module _ (p : Platform) (k : String) where
  open p use {db, Key, build, jwt_serialize}

  abbrev pub Absent : World p → Type 0
  Absent s = lookup k s.pending_logins ≡ none

  -- The next key that is drawn is another one.
  abbrev pub IsFresh : World p → Type 0
  IsFresh s = (key : String) (src : p.Source) → gen_random_key p s.random ≡ ok (key, src) → key ≢ k

  module _ (prefix : String) (behind_proxy : Bool) (cluster : Cluster)
      (priv_key pub_key : Key) where
    register_link-Absent :
        (now : ℕ) (r : Request) (email : String) (s : World p)
        → IsFresh s
        → Absent s
        → After Absent
            (λ link. Absent)
            (register_link p prefix behind_proxy cluster priv_key pub_key now r email s)
    unfolding register_link
    register_link-Absent now r email s fresh h = elim (Result-cases (gen_random_key p s.random)) [
      | inr (m, e1) ↦ rw (e1, register_link) h
      | inl (drawn, e1) ↦ elim (Result-cases (get_remote_ip p r behind_proxy)) [
        | inr (m, e2) ↦ rw (e1, e2, register_link) h
        | inl (ip, e2) ↦
            let added = insert-absent k drawn.0 _ s.pending_logins (fresh drawn.0 drawn.1 e1) h in
            elim (Result-cases (build (magic_link_claims email drawn.0 cluster.local_id now))) [
              | inr (m, e3) ↦ rw (e1, e2, e3, register_link) added
              | inl (jwt, e3) ↦ elim (Result-cases (jwt_serialize priv_key pub_key jwt)) [
                | inr (m, e4) ↦ rw (e1, e2, e3, e4, register_link) added
                | inl (sealed, e4) ↦
                    elim (Result-cases (build_cookie_domain (domain_to_uri r.host))) [
                      | inr (m, e5) ↦ rw (e1, e2, e3, e4, e5, register_link) added
                      | inl (domain, e5) ↦ rw (e1, e2, e3, e4, e5, register_link) added
                    ]
              ]
            ]
      ]
    ]

    request_mail-Absent :
        (now : ℕ) (r : Request) (email : String) (users : List User) (link : String) (s : World p)
        → Absent s
        → After Absent
            (λ a. Absent)
            (request_mail p prefix behind_proxy cluster priv_key pub_key now r email users link s)
    unfolding request_mail
    request_mail-Absent now r email users link s h =
        let idents = ok_or [] (get_identities p now s.db r) in
        elim (Result-cases (db.get_email_validation_counts (now - rate_limit_time) s.db)) [
          | inr (m, q) ↦ rw (q, request_mail) h
          | inl (counts, q) ↦ elim (Bool-cases (is_limited p idents counts)) [
            | inl b ↦ rw (q, b, request_mail) h
            | inr b ↦
                rw (q, b, request_mail)
                  (then_run-After Absent (λ a t. s ≡ t) (λ a. Absent)
                    (forward_to_primary p cluster s) _
                    (forward_to_primary-After p cluster s Absent h (λ w. h))
                    (λ a t here.
                      After-weaken
                        (Starts p prefix behind_proxy cluster priv_key pub_key r email users link
                          idents t)
                        Absent _ (λ u (kept, started). ap (lookup k) kept ∙ subst Absent here h)
                        (send_if_known-Starts p prefix behind_proxy cluster priv_key pub_key now r
                          email users link idents t)))
          ]
        ]

    email_sent-After :
        (now : ℕ) (r : Request) (s : World p)
        → IsFresh s
        → Absent s
        → After Absent
            (λ a. Absent)
            (email_sent p prefix behind_proxy cluster priv_key pub_key now r s)
    unfolding email_sent
    email_sent-After now r s fresh h = elim (Bool-cases (r.method == "POST")) [
      | inr b1 ↦ rw (b1, email_sent) h
      | inl b1 ↦ elim (Bool-cases (form_get "email" r == "")) [
        | inl b2 ↦ rw (b1, b2, email_sent) h
        | inr b2 ↦ elim (Result-cases (db.get_users s.db)) [
          | inr (m, e) ↦ rw (b1, b2, e, email_sent) h
          | inl (users, e) ↦
              rw (b1, b2, e, email_sent)
                (then_run-After Absent (λ link. Absent) (λ a. Absent)
                  (register_link p prefix behind_proxy cluster priv_key pub_key now r
                    (form_get "email" r) s)
                  _ (register_link-Absent now r (form_get "email" r) s fresh h)
                  (λ link t absent.
                    request_mail-Absent now r (form_get "email" r) users link t absent))
        ]
      ]
    ]

    pub email_sent-Absent :
        (now : ℕ) (r : Request) (s : World p)
        → IsFresh s
        → Absent s
        → Absent (final (email_sent p prefix behind_proxy cluster priv_key pub_key now r s))
    email_sent-Absent now r s fresh h =
        final-After Absent (email_sent p prefix behind_proxy cluster priv_key pub_key now r s)
          (email_sent-After now r s fresh h)
