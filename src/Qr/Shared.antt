-- ===== src/Qr/Shared.antt =====
-- What is shared is received.
use obligator.Base.{
  ℕ, ◌+◌, ◌≤◌, ◌==◌, false, lookup, lookup-insert, insert, eq_refl, ◌≡◌, ◌≢◌, ◌∙◌, ap, String,
  Result, ok, ok_or, none, some, List, arith, [], ◌∷◌, ◌++◌,
}
use obligator.Types.{Identity, Cookie, Request, PendingShare}
use obligator.Platform.{Platform}
use obligator.JwtLaws.{JwtLaws, HasNoLimit}
use obligator.Jose.{get_public_jwks}
use obligator.Utils.LoginCookie.{
  merge_identities, old_identities, current_token, token_or_new, add_ident_to_cookie,
  claimed_identities,
}
use obligator.Utils.LoginCookie.Session.{
  IsSession, add_ident_to_cookie-IsSession, current_token-IsSession, get_identities-IsSession,
}
use obligator.Handler.After.{final, final-After}
use obligator.Http.{World, form_get, cookie_value, show_page-After}
use obligator.Cluster.{Cluster}
use obligator.Utils.Cookies.{get_identities, get_login_cookie, login_key_name, cross_site_detector}
use obligator.Email.LoggedIn.{Extends, go_back-Extends}
use obligator.Email.Magic.{go_back}
use obligator.Qr.{
  receive_identities, receive_logins, receive, take_share, send, selected, share_timeout,
  shared_logins, current_cookie,
}

-- A share without logins.
abbrev pub share_with : ℕ → List Identity → PendingShare
share_with now idents = record {
  identities = idents;
  logins = [];
  expires_at = now + share_timeout;
}

-- The identities of a session to which others were added one by one.
abbrev pub merged : List Identity → List Identity → List Identity
merged [] old = old
merged (ident ∷ idents) old = merged idents (merge_identities ident old)

module _ (p : Platform) where
  open p use {Db, Source, Keyset}

  -- What /send puts under the key of the code, when something was selected.
  send-shares :
      (cluster : Cluster) (now : ℕ) (r : Request) (s : World p) (ident : Identity)
      (rest : List Identity)
      → form_get "instance_id" r ≡ cluster.local_id
      → selected r.form (ok_or [] (get_identities p now s.db r)) ≡ ident ∷ rest
      → (form_get "checkbox_share_logins" r == "on") ≡ false
      → lookup (form_get "qr_key" r) (final (send p cluster now r s)).pending_shares
        ≡ some (share_with now (ident ∷ rest))
  unfolding send shared_logins
  send-shares cluster now r s ident rest here sel none_shared =
      let key = form_get "qr_key" r in
      let share = share_with now (ident ∷ rest) in
      let found : lookup key (insert key share s.pending_shares) ≡ some share =
        lookup-insert key key share s.pending_shares ∙ rw (eq_refl key) in
      rw (here, eq_refl cluster.local_id, none_shared, sel, send)
        (final-After (λ (t : World p). lookup key t.pending_shares ≡ some share) _
          (show_page-After p _ _ 400 _
            (record s { pending_shares = insert key share s.pending_shares }) (λ w. found)))

  -- The login cookie of a request, blank if there is none.
  abbrev pub session_cookie : Db → Request → Cookie
  session_cookie d r = current_cookie p (login_key_name p d) (get_login_cookie p d r)

  abbrev pub session_value : Db → Request → String
  session_value d r = (session_cookie d r).value

  -- A run of the loop in which no signature failed, and the cookie that it ends with.
  abbrev pub IsSigned :
      ℕ → Request → Db → List Identity → Cookie → Source → Cookie → Source → Type 0
  IsSigned now r d [] c src c' src' = (c ≡ c') × (src ≡ src')
  IsSigned now r d (ident ∷ idents) c src c' src' =
      (added : Cookie) × (left : Source) × (add_ident_to_cookie p now r.host d c.value ident src
        ≡ ok (added, left))
      × (added.value ≢ "")
      × IsSigned now r d idents added left c' src'

  receive_identities-IsSigned :
      (now : ℕ) (r : Request) (d : Db) (l : List Identity) (c : Cookie) (src : Source) (c' : Cookie)
      (src' : Source)
      → IsSigned now r d l c src c' src'
      → receive_identities p now r d l c src ≡ ok (c', src')
  unfolding receive_identities
  receive_identities-IsSigned now r d [] c src c' src' (e, e') = rw (e, e')
  receive_identities-IsSigned now r d (ident ∷ idents) c src c' src' (added, left, e, n, run) =
      rw (receive_identities, e) (receive_identities-IsSigned now r d idents added left c' src' run)

  module _ (laws : JwtLaws p) where
    received-IsSession :
        (now : ℕ) (r : Request) (d : Db) (public : Keyset) (l : List Identity) (ident : Identity)
        (c : Cookie) (src : Source) (c' : Cookie) (src' : Source)
        → get_public_jwks p d ≡ ok public
        → HasNoLimit p (token_or_new p (current_token p now d c.value))
        → IsSigned now r d (ident ∷ l) c src c' src'
        → IsSession p laws now d
            (merged (ident ∷ l) (old_identities p (current_token p now d c.value)))
            c'
          × (c'.value ≢ "")
    received-IsSession now r d public [] ident c src c' src' k h (added, left, e, n, run) =
        let s =
          add_ident_to_cookie-IsSession p laws now r.host d c.value ident src added left e h in
        (rw run.0 at s, rw run.0 at n)
    received-IsSession now r d public (after ∷ l) ident c src c' src' k h (added, left, e, n, run) =
        let old = old_identities p (current_token p now d c.value) in
        let s =
          add_ident_to_cookie-IsSession p laws now r.host d c.value ident src added left e h in
        let at =
          current_token-IsSession p laws now now d (merge_identities ident old) added public s n k
            (omega arith) in
        let known : old_identities p (current_token p now d added.value)
            ≡ merge_identities ident old =
          ap (old_identities p) at ∙ ap claimed_identities s.claim in
        rw known at
          (received-IsSession now r d public l after added left c' src' k (rw at s.unlimited) run)

    take_share-IsSigned :
        (now : ℕ) (r : Request) (s : World p) (idents : List Identity) (c : Cookie) (src : Source)
        (sent : ℕ)
        → s.w.status ≡ none
        → IsSigned now r s.db idents (session_cookie s.db r) s.random c src
        → Extends
            (s.w.cookies ++ c ∷ [])
            (final (take_share p now r (share_with sent idents) s)).w.cookies
    unfolding take_share receive_logins go_back
    take_share-IsSigned now r s idents c src sent open_ run =
        rw (receive_identities-IsSigned now r s.db idents _ s.random c src run, open_, take_share)
          (go_back-Extends p r _)

    -- What is shared is received: the identities of one browser whose boxes were ticked at /send,
    -- with no logins, come to /receive under the key of the QR code, whose cookie gives a later
    -- request of the other browser these identities, beside those that it had. Nothing was
    -- cleaned up in between, no signature failed, and the old token has no time limit.
    pub receive-send :
        (cluster : Cluster) (encode : String → Result String) (sent now later : ℕ)
        (r r' r'' : Request) (x : String) (s t : World p) (ident : Identity) (rest : List Identity)
        (c : Cookie) (src : Source) (public : Keyset)
        → form_get "instance_id" r ≡ cluster.local_id
        → selected r.form (ok_or [] (get_identities p sent s.db r)) ≡ ident ∷ rest
        → (form_get "checkbox_share_logins" r == "on") ≡ false
        → lookup (form_get "qr_key" r') t.pending_shares
          ≡ lookup (form_get "qr_key" r) (final (send p cluster sent r s)).pending_shares
        → t.w.status ≡ none
        → get_public_jwks p t.db ≡ ok public
        → HasNoLimit p (token_or_new p (current_token p now t.db (session_value t.db r')))
        → IsSigned now r' t.db (ident ∷ rest) (session_cookie t.db r') t.random c src
        → cookie_value c.name r'' ≡ ok c.value
        → cookie_value cross_site_detector r'' ≡ ok x
        → now ≤ later
        → Extends (t.w.cookies ++ c ∷ []) (final (receive p encode now r' t)).w.cookies
          × (get_identities p later t.db r''
              ≡ ok (
                  merged
                    (selected r.form (ok_or [] (get_identities p sent s.db r)))
                    (old_identities p (current_token p now t.db (session_value t.db r')))))
    unfolding receive
    receive-send cluster encode sent now later r r' r'' x s t ident rest c src public here sel
          unshared kept open_ k limit run b1 b2 le =
        let (session, n) =
          received-IsSession now r' t.db public rest ident (session_cookie t.db r') t.random c src k
            limit run in
        (
          rw (kept ∙ send-shares cluster sent r s ident rest here sel unshared, receive)
              (take_share-IsSigned now r' t (ident ∷ rest) c src sent open_ run),
          rw sel (
              get_identities-IsSession p laws now later t.db _ c public r'' x session n k b1 b2 le),
        )
