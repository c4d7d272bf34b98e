-- ===== src/Email/Mail.antt =====
-- add_identity_email.go, StartEmailValidation: the requests that are counted, and the mail. What
-- net/smtp does with the mail is not modelled.
use obligator.Base.{
  ℕ, String, ◌⧺◌, not, ◌&&◌, Result, ok, err, ◌>>=◌, Option, none, some, List, [], ◌∷◌, ◌==◌,
  if◌then◌else◌, split,
}
use obligator.Types.{Identity, SmtpConfig}
use obligator.Platform.{Platform}
use obligator.Http.{EmailJob}
use obligator.Utils.Random.{gen_random_key}

-- The arguments of smtp.SendMail: the authentication has a user name and a password, or is nil.
pub record Mail : Type 0 where
  pub server : String
  pub port : ℕ
  pub auth : Option (String × String)
  pub from : String
  pub to : String
  pub body : String

abbrev pub email_body : String → String → String → String → String → String → String
email_body from_text from_email send_email sender_name email magic_link =
    "From: " ⧺ from_text ⧺ " <" ⧺ from_email ⧺ ">\r\nTo: " ⧺ send_email
    ⧺ "\r\nSubject: Email Validation\r\n\r\nThis is an email validation request from " ⧺ sender_name
    ⧺ ". Use the link below to prove you have access to " ⧺ email ⧺ ".\r\n\r\n" ⧺ magic_link

unfoldable pub mail_of : SmtpConfig → String → EmailJob → Mail
mail_of smtp send_email job = record {
  server = smtp.server;
  port = smtp.port;
  auth =
      if not (smtp.username == "") && not (smtp.password == "")
      then some (smtp.username, smtp.password)
      else none;
  from = smtp.sender;
  to = send_email;
  body =
      email_body (smtp.sender_name ⧺ " email validator") smtp.sender send_email smtp.sender_name
        job.email job.magic_link;
}

module _ (p : Platform) where
  open p use {Db, db, Source}

  abbrev filled : String → String → Result (String × Source) → Result (String × Source)
  filled before after drawn = drawn >>= λ d. ok (before ⧺ d.0 ⧺ after, d.1)

  -- A '*' stands for a random text, so that the mail shows that all such addresses are the user's.
  abbrev of_parts : String → Source → List String → Result (String × Source)
  of_parts email src (before ∷ after ∷ []) = filled before after (gen_random_key p src)
  of_parts email src (before ∷ between ∷ after ∷ more) = err "Wildcard emails can only have 1 '*'"
  of_parts email src _ = ok (email, src)

  unfoldable pub send_address : String → Source → Result (String × Source)
  send_address email src = of_parts email src (split b'*' email)

  -- The requests that were added before one failed stay in the database.
  unfoldable pub add_requests : List Identity → String → Db → Db × Result (Unit {0})
  add_requests [] email d = (d, ok tt)
  add_requests (ident ∷ idents) email d = elim (db.add_email_validation_request ident.id email d) [
    | err m ↦ (d, err m)
    | ok next ↦ add_requests idents email next
  ]

  abbrev prepared : EmailJob → String → Db → Result (Unit {0}) → Result Mail
  prepared job send_email d (err m) = err m
  prepared job send_email d (ok done) =
      db.get_smtp_config d >>= λ smtp. ok (mail_of smtp send_email job)

  -- The next database, and the mail or the error.
  unfoldable pub start_email_validation : EmailJob → Source → Db → Db × Result Mail
  start_email_validation job src d = elim (send_address job.email src) [
    | err m ↦ (d, err m)
    | ok to ↦
        let added = add_requests job.identities job.email d in
        (added.0, prepared job to.0 added.0 added.1)
  ]
