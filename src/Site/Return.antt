-- ===== src/Site/Return.antt =====
-- Where a login returns to.
use obligator.Base.{◌≡◌, String, Bool, ok, ◌⊎◌}
use obligator.Types.{Request, Url, Domain}
use obligator.Platform.{Platform}
use obligator.Http.{form_get}
use obligator.Site.{own_page}

module _ (p : Platform) where
  open p use {Db, db, url_parse}

  -- The server's own page, or a page on a domain that its owner has added.
  abbrev pub IsReturn : Bool → Request → Db → String → Type 0
  IsReturn fed_cm r d uri =
      ((form_get "return_uri" r ≡ "") × (uri ≡ own_page fed_cm))
      ⊎ ((parsed : Url) × (known : Domain) × (uri ≡ form_get "return_uri" r)
          × (url_parse uri ≡ ok parsed)
          × (db.get_domain parsed.host d ≡ ok known))
