-- ===== src/Email/CleanUp.antt =====
-- The clean-up loop.
use obligator.Base.{
  ℕ, ◌≡◌, refl, String, Bool, ◌&&◌, none, List, [], ◌∷◌, ◌==◌, eq_iff, if◌then◌else◌, lookup,
  delete, lookup-delete, exists, arith, Bool-cases, inl, inr,
}
use obligator.Types.{PendingLogin}
use obligator.Email.{clean_expired, has_expired}

-- The copy has an expired login under the key.
abbrev pub is_stale : ℕ → String → List (String × PendingLogin) → Bool
is_stale now key = exists (λ (e : String × PendingLogin). e.0 == key && has_expired now e.1)

-- A round of the clean-up takes away what had expired when the map was copied, and every other
-- login, also one that came in between, stays as it is.
pub lookup-clean_expired :
    (now : ℕ) (key : String) (copy m : List (String × PendingLogin))
    → lookup key (clean_expired now copy m) ≡ (if is_stale now key copy then none else lookup key m)
unfolding clean_expired
lookup-clean_expired now key [] m = refl
lookup-clean_expired now key ((k, pending) ∷ copy) m = elim (Bool-cases (has_expired now pending)) [
  | inl b ↦
      rw (b, lookup-clean_expired now key copy (delete k m))
        (ground (arith, eq_iff k key, lookup-delete k key m))
  | inr b ↦ rw (b, lookup-clean_expired now key copy m) (ground (arith, eq_iff k key))
]
