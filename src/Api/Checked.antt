-- ===== src/Api/Checked.antt =====
-- What the API lets into the database.
use obligator.Base.{◌≡◌, String, Result, ok, ◌==◌, eq_iff, Bool-cases, Result-cases, inl, inr, ◌⊎◌}
use obligator.Types.{User, Request}
use obligator.Platform.{Platform}
use obligator.Handler.After.{final}
use obligator.Http.{World}
use obligator.Api.{add_user, users_handler}

module _ (p : Platform) where
  open p use {Db, db, parse_address}

  -- /users leaves the database as it was, or it is a POST and stores the user of the body, whose
  -- id is an address.
  pub users_handler-Stores :
      (body : Result User) (r : Request) (s : World p)
      → ((final (users_handler p body r s)).db ≡ s.db)
        ⊎ ((user : User) × (address : String) × (r.method ≡ "POST")
            × (body ≡ ok user)
            × (parse_address user.id ≡ ok address)
            × (db.set_user user s.db ≡ ok (final (users_handler p body r s)).db))
  unfolding users_handler add_user
  users_handler-Stores body r s = elim (Bool-cases (r.method == "GET")) [
    | inl b1 ↦ elim (Result-cases (db.get_users s.db)) [
      | inr (m, e) ↦ inl (rw (users_handler, b1, e))
      | inl (found, e) ↦ inl (rw (users_handler, b1, e))
    ]
    | inr b1 ↦ elim (Bool-cases (r.method == "POST")) [
      | inr b2 ↦ inl (rw (users_handler, b1, b2))
      | inl b2 ↦ elim (Result-cases body) [
        | inr (m, e) ↦ inl (rw (users_handler, b1, b2, e))
        | inl (user, e1) ↦ elim (Result-cases (parse_address user.id)) [
          | inr (m, e2) ↦ inl (rw (users_handler, b1, b2, e1, add_user, e2))
          | inl (address, e2) ↦ elim (Result-cases (db.set_user user s.db)) [
            | inr (m, e3) ↦ inl (rw (users_handler, b1, b2, e1, add_user, e2, e3))
            | inl (changed, e3) ↦ inr (
              user,
              address,
              (eq_iff _ _).0 b2,
              e1,
              e2,
              rw (users_handler, b1, b2, e1, add_user, e2, e3),
            )
          ]
        ]
      ]
    ]
  ]
