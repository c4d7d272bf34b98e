-- ===== src/Oidc/Approve/Wildcard.antt =====
-- Identities that stand for every address of a pattern with one '*'.
use Prim.Native.String.{◌∷◌}
use text.Mathlib.TextLemmas.{cons-append, nil-append}
use obligator.Base.{
  ℕ, ◌≡◌, ◌≢◌, refl, ap, ◌∙◌, String, ◌⧺◌, false, ◌==◌, eq_iff, split, Without, split_of_Without,
  split-append, Bool-cases, inl, inr,
}
use obligator.Types.{Identity, Request}
use obligator.Platform.{Platform}
use obligator.Handler.{next, panic}
use obligator.Http.{World, form_get}
use obligator.Oidc.Approve.{expand_id, handle_wildcard_email, record_login, approve_identity}

not-eq : (s t : String) → s ≢ t → (s == t) ≡ false
not-eq s t h = elim (Bool-cases (s == t)) [ inl b ↦ absurd (h ((eq_iff s t).0 b)) | inr b ↦ b ]

module _ (p : Platform) where
  open p use {Token}

  -- The text that the user gives replaces the '*' of the address.
  pub expand_id_lem :
      (before after wildcard : String) (s : World p)
      → Without b'*' before
      → Without b'*' after
      → wildcard ≢ ""
      → expand_id p wildcard (before ⧺ "*" ⧺ after) s ≡ next (before ⧺ wildcard ⧺ after) s
  unfolding expand_id
  expand_id_lem before after wildcard s h k n = rw (
    not-eq wildcard "" n,
    ap (λ t. split b'*' (before ⧺ t)) (cons-append "*" "" after ∙ ap (◌∷◌ "*") (nil-append after)),
    split-append b'*' before "*" after h refl,
    split_of_Without b'*' after k,
  )

  -- A request to /approve that brings a wildcard text for an identity whose address has no '*'
  -- makes the handler panic, after it has recorded the login and set the login cookie.
  pub approve_identity_panics :
      (prefix : String) (now : ℕ) (r : Request) (t : Token) (i : Identity) (s s' : World p)
      → form_get "email-wildcard" r ≢ ""
      → Without b'*' i.id
      → record_login p now r t i s ≡ next tt s'
      → approve_identity p prefix now r t i s ≡ panic s'
  unfolding approve_identity handle_wildcard_email expand_id
  approve_identity_panics prefix now r t i s s' n h e =
      let typed = not-eq (form_get "email-wildcard" r) "" n in
      elim (Bool-cases (i.id_type == "email")) [
        | inl b ↦ rw (b, typed, e, typed, split_of_Without b'*' i.id h)
        | inr b ↦ rw (b, e, typed, split_of_Without b'*' i.id h)
      ]
