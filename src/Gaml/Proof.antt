-- ===== src/Gaml/Proof.antt =====
-- What a login with a page rests on.
use obligator.Base.{ℕ, ◌≡◌, String, ◌⧺◌, ok}
use obligator.Types.{Request}
use obligator.Platform.{Platform}
use obligator.Http.{World, cookie_value}
use obligator.Jose.{parse_jwt}
use obligator.Cluster.{Cluster}
use obligator.Utils.Hash.{hash_with}
use obligator.Utils.Cookies.{claim_from_token}
use obligator.Gaml.{Get, retrieve_code, pending_code}

module _ (p : Platform) where
  open p use {Token, sha256, hex}

  -- A page of the login state of the request, which this server signed, shows the code that was
  -- pending for it.
  pub record IsProved (get : Get) (prefix : String) (now : ℕ) (r : Request) (s : World p)
      : Type 0 where
    pub state : String
    pub login : Token
    pub code : String
    pub brought : cookie_value (prefix ⧺ "_gaml_login_state") r ≡ ok state
    pub parsed : parse_jwt p now s.db state ≡ ok login
    pub shown : retrieve_code get (claim_from_token p "url" login) ≡ ok code
    pub same :
        code
        ≡ pending_code p (hash_with sha256 hex (claim_from_token p "url" login)) s.pending_codes
