-- ===== src/Utils/CommonPage.antt =====
-- utils.go, newCommonData: what every page shows.
use obligator.Base.{
  ℕ, String, Bool, false, ok_or, Option, none, some, List, [], ◌==◌, if◌then◌else◌,
}
use obligator.Types.{Identity, Request}
use obligator.Pages.{CommonData}
use obligator.Platform.{Platform}
use obligator.Utils.CookieDomain.{domain_to_uri}
use obligator.Utils.Cookies.{get_identities, get_return_uri_cookie}

-- commonData as an override: a nil slice is `none`.
pub record Overrides : Type 0 where
  pub root_uri : String
  pub display_name : String
  pub identities : Option (List Identity)
  pub return_uri : String
  pub disable_header_buttons : Bool

abbrev pub blank : Overrides
blank = record {
  root_uri = "";
  display_name = "";
  identities = none;
  return_uri = "";
  disable_header_buttons = false;
}

-- An override, or the default when it is "".
abbrev pub or_default : String → String → String
or_default s d = if s == "" then d else s

module _ (p : Platform) where
  open p use {Db, db}

  -- Identities that are overridden are dropped: the page then has none.
  abbrev page_identities : ℕ → Db → Request → Option (List Identity) → List Identity
  page_identities now d r none = ok_or [] (get_identities p now d r)
  page_identities now d r (some l) = []

  -- A nil override reads as a blank one.
  unfoldable pub new_common_data : Overrides → ℕ → Db → Request → CommonData
  new_common_data o now d r = record {
    root_uri = or_default o.root_uri (domain_to_uri r.host);
    display_name = or_default o.display_name (ok_or "Invalid display name" (db.get_display_name d));
    identities = page_identities now d r o.identities;
    return_uri = or_default o.return_uri (ok_or "/" (get_return_uri_cookie p d r));
    disable_header_buttons = o.disable_header_buttons;
  }
