-- ===== src/Email/Spent.antt =====
-- The pending logins of an instance over time: a link that was used stays used.
use obligator.Base.{
  ℕ, ◌≡◌, subst, sym, ◌∙◌, ap, String, Bool, not, ◌==◌, none, List, lookup, delete, lookup-delete,
  Bool-cases, Option-cases, inl, inr, arith,
}
use obligator.Types.{PendingLogin, Request}
use obligator.Platform.{Platform}
use obligator.Handler.After.{After, After-final, then_run-After, final, final-After}
use obligator.Handler.{◌>>◌}
use obligator.Http.{World, form_get, fail}
use obligator.Cluster.{Cluster, forward_if}
use obligator.Cluster.Forward.{forward_if-After}
use obligator.Email.{email_sent, clean_expired}
use obligator.Email.CleanUp.{is_stale, lookup-clean_expired}
use obligator.Email.Magic.{complete_email_login, log_in, go_back}
use obligator.Email.Once.{log_in-pending, used_up, unknown}
use obligator.Email.Absent.{Absent, IsFresh, email_sent-Absent}

module _ (p : Platform) where
  open p use {Key}

  module _ (prefix : String) (behind_proxy : Bool) (cluster : Cluster) (priv_key pub_key : Key)
      (k : String) where
    -- What can happen to the pending logins of an instance: a request to /email-sent that draws
    -- another key, a form of any link, a round of the clean-up with a copy that it took at any time,
    -- and whatever leaves them as they are: the other handlers, the other components' state, and the
    -- response of a new request.
    pub data Step (s t : World p) : Type 0 where
      asked :
          (now : ℕ) (r : Request)
          → IsFresh p k s
          → t ≡ final (email_sent p prefix behind_proxy cluster priv_key pub_key now r s)
          → Step s t
      completed :
          (now : ℕ) (r : Request) → t ≡ final (complete_email_login p cluster now r s) → Step s t
      cleaned :
          (now : ℕ) (copy : List (String × PendingLogin))
          → t ≡ record s { pending_logins = clean_expired now copy s.pending_logins }
          → Step s t
      other : t.pending_logins ≡ s.pending_logins → Step s t

    pub data Reach (s : World p) : World p → Type 0 where
      here : Reach s s
      more : {t u : World p} → Reach s t → Step t u → Reach s u

    delete-absent :
        (key : String) (m : List (String × PendingLogin))
        → lookup k m ≡ none
        → lookup k (delete key m) ≡ none
    delete-absent key m e = lookup-delete key k m ∙ ground (arith, e)

    -- After the link is deleted.
    logged_in-Absent :
        (now : ℕ) (r : Request) (email key : String) (s : World p)
        → Absent p k s
        → After
            (Absent p k)
            (λ a. Absent p k)
            ((log_in p now r email >> go_back p r)
              (record s { pending_logins = delete key s.pending_logins }))
    logged_in-Absent now r email key s h = After-final (Absent p k) _ (
        ap (lookup k)
          (log_in-pending p now r email (record s { pending_logins = delete key s.pending_logins }))
        ∙ delete-absent key s.pending_logins h)

    completed-After :
        (now : ℕ) (r : Request) (s : World p)
        → Absent p k s
        → After (Absent p k) (λ a. Absent p k) (complete_email_login p cluster now r s)
    unfolding complete_email_login
    completed-After now r s h =
        let key = form_get "magic_link_key" r in
        let away = not (form_get "instance_id" r == cluster.local_id) in
        elim (Bool-cases (r.method == "POST")) [
          | inr b ↦ rw (b, complete_email_login) h
          | inl b ↦
              rw (b, complete_email_login)
                (then_run-After (Absent p k) (λ a t. s ≡ t) (λ a. Absent p k)
                  (forward_if p away cluster (form_get "instance_id" r) s) _
                  (forward_if-After p cluster away (form_get "instance_id" r) s (Absent p k)
                    (λ w. h))
                  (λ a t same.
                    let h' = subst (Absent p k) same h in
                    elim (Option-cases (lookup key t.pending_logins)) [
                      | inl e ↦ rw e h'
                      | inr (pending, e) ↦ rw e (logged_in-Absent now r pending.email key t h')
                    ]))
        ]

    Step-Absent : (s t : World p) → Step s t → Absent p k s → Absent p k t
    Step-Absent s t (asked now r fresh e) h =
        subst (Absent p k) (sym e)
          (email_sent-Absent p k prefix behind_proxy cluster priv_key pub_key now r s fresh h)
    Step-Absent s t (completed now r e) h = subst (Absent p k) (sym e) (
        final-After (Absent p k) (complete_email_login p cluster now r s)
          (completed-After now r s h))
    Step-Absent s t (cleaned now copy e) h = subst (Absent p k) (sym e) (
        lookup-clean_expired now k copy s.pending_logins
        ∙ elim (Bool-cases (is_stale now k copy)) [ inl b ↦ rw b | inr b ↦ rw b h ])
    Step-Absent s t (other e) h = ap (lookup k) e ∙ h

    Reach-Absent : (s t : World p) → Reach s t → Absent p k s → Absent p k t
    Reach-Absent s t here h = h
    Reach-Absent s t (more run step) h = Step-Absent _ t step (Reach-Absent s _ run h)

  module _ (prefix : String) (behind_proxy : Bool) (cluster : Cluster)
      (priv_key pub_key : Key) where
    -- A link works once: after its form was handled by its instance, whatever came of it, and after
    -- any steps of that instance, the form is refused with a 500, and nothing changes. The keys that
    -- are drawn in between are others.
    pub complete_email_login-Reach :
        (now later : ℕ) (r r' : Request) (s t : World p)
        → r.method ≡ "POST"
        → r'.method ≡ "POST"
        → form_get "instance_id" r ≡ cluster.local_id
        → form_get "instance_id" r' ≡ cluster.local_id
        → form_get "magic_link_key" r' ≡ form_get "magic_link_key" r
        → Reach prefix behind_proxy cluster priv_key pub_key
            (form_get "magic_link_key" r)
            (final (complete_email_login p cluster now r s))
            t
        → complete_email_login p cluster later r' t ≡ fail 500 "Not a valid session" t
    complete_email_login-Reach now later r r' s t post post' at at' same run =
        unknown p cluster later r' t post' at' (
          rw same (
            Reach-Absent prefix behind_proxy cluster priv_key pub_key (form_get "magic_link_key" r)
              _ t run (used_up p cluster now r s post at)))
