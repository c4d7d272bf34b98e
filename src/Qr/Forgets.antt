-- ===== src/Qr/Forgets.antt =====
-- What a share with logins does to the cookie.
use obligator.Base.{ℕ, ◌≡◌, refl, String, List, ◌∷◌}
use obligator.Types.{Login, Logins, Request, Cookie}
use obligator.Platform.{Platform}
use obligator.Qr.{receive_logins, receive_client_logins}

module _ (p : Platform) where
  open p use {Db, Source}

  -- When a share has a login, the cookie that /receive sets does not depend on the cookie with the
  -- shared identities: it is made from the cookie that the request brought.
  pub receive_logins_forgets_identities :
      (now : ℕ) (r : Request) (d : Db) (client_id : String) (login : Login) (more : List Login)
      (all : Logins) (with_identities other : Cookie) (src : Source)
      → receive_logins p now r d ((client_id, login ∷ more) ∷ all) with_identities src
        ≡ receive_logins p now r d ((client_id, login ∷ more) ∷ all) other src
  unfolding receive_logins receive_client_logins
  receive_logins_forgets_identities now r d client_id login more all with_identities other src =
      refl
