-- ===== src/Utils/CookieDomain.antt =====
-- utils.go, buildCookieDomain and domainToUri.
pub mod Covers
use obligator.Base.{
  ℕ, ltb, length, String, ◌⧺◌, Result, ok, List, [], ◌∷◌, split, join, if◌then◌else◌,
}

-- hostParts[1:]
abbrev pub rest_of : List String → List String
rest_of [] = []
rest_of (h ∷ hs) = hs

unfoldable pub build_cookie_domain : String → Result String
build_cookie_domain domain =
    let host_parts = split b'.' domain in
    if ltb (length host_parts) 3 then ok domain else ok (join "." (rest_of host_parts))

unfoldable pub domain_to_uri : String → String
domain_to_uri host = "https://" ⧺ host
