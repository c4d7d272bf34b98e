-- ===== src/Utils/CookieDomain/Covers.antt =====
-- Which hosts the cookie domain covers.
use obligator.Base.{
  ◌<◌, length, ◌≡◌, refl, ◌⊎◌, inl, inr, String, ◌⧺◌, ok, List, [], ◌∷◌, split, join, Without,
  EachWithout, subst, join-split, split-EachWithout, sym, ◌∙◌, ap, arith,
}
use obligator.Utils.CookieDomain.{build_cookie_domain}

-- A host of fewer than three labels is its own cookie domain. Of another host the cookie domain is
-- what follows its first label, and that has a dot in it still. No list of public suffixes
-- is read, so it can be one of them.
abbrev pub Covers : String → String → Type 0
Covers c host =
    ((length (split b'.' host) < 3) × (c ≡ host))
    ⊎ ((label : String) × (host ≡ label ⧺ "." ⧺ c)
        × Without b'.' label
        × (second : String) × (rest : String) × (c ≡ second ⧺ "." ⧺ rest))

build_cookie_domain-Covers_from :
    (host : String) (parts : List String)
    → split b'.' host ≡ parts
    → (c : String) × (build_cookie_domain host ≡ ok c) × Covers c host
unfolding build_cookie_domain join
build_cookie_domain-Covers_from host [] e = (host, rw e, inl (rw e (omega arith), refl))
build_cookie_domain-Covers_from host (a ∷ []) e = (host, rw e, inl (rw e (omega arith), refl))
build_cookie_domain-Covers_from host (a ∷ b ∷ []) e = (host, rw e, inl (rw e (omega arith), refl))
build_cookie_domain-Covers_from host (a ∷ b ∷ c ∷ ps) e = (
  join "." (b ∷ c ∷ ps),
  ground (arith, e),
  inr (
    a,
    sym (join-split "." b'.' host refl) ∙ ap (join ".") e,
    (subst (EachWithout b'.') e (split-EachWithout b'.' host)).0,
    b,
    join "." (c ∷ ps),
    refl,
  ),
)

-- buildCookieDomain gives every host a domain and never fails. For a host of fewer than three labels
-- it is the host. For any other host it is exactly what follows the first label, which has at least
-- one dot, so that it is never a single label.
pub build_cookie_domain-Covers :
    (host : String) → (c : String) × (build_cookie_domain host ≡ ok c) × Covers c host
build_cookie_domain-Covers host = build_cookie_domain-Covers_from host (split b'.' host) refl
