-- ===== src/Jose/Generate.antt =====
-- jose.go, GenerateJWKS and NewJOSE: the key set that the server signs with is made once, by the
-- primary. What crypto/rsa and jwx do is a parameter.
use obligator.Base.{
  ◌≡◌, String, Bool, ◌&&◌, Result, ok, ◌>>=◌, Option, none, some, ◌==◌, if◌then◌else◌,
}
use obligator.Platform.{Platform}
use obligator.Cluster.{i_am_the_primary}

pub record KeyTools (p : Platform) : Type 1 where
  pub Raw : Type 0
  pub generate_key : p.Source → Result (Raw × p.Source)
  pub from_raw : Raw → Result p.Key
  pub is_rsa_private_key : p.Key → Bool
  pub assign_key_id : p.Key → Result p.Key
  -- key.Set("alg", "RS256"), whose error is dropped, and a set with the one key.
  pub with_alg : p.Key → p.Key
  pub singleton : p.Key → p.Keyset
  -- json.Marshal; of a nil set it is null.
  pub marshal : Option p.Keyset → Result String

module _ (p : Platform) (tools : KeyTools p) where
  open p use {Db, db, Source, Keyset, Key}

  abbrev named_set : Key → Result Keyset
  named_set key = tools.assign_key_id key >>= λ named. ok (tools.singleton (tools.with_alg named))

  -- A key of another type gives no set, and no error: the one that is returned is nil.
  abbrev set_of : Source → Key → Result (Option Keyset × Source)
  set_of src key =
      if tools.is_rsa_private_key key
      then (named_set key >>= λ jwks. ok (some jwks, src))
      else ok (none, src)

  unfoldable pub generate_jwks : Source → Result (Option Keyset × Source)
  generate_jwks src = do raw ← tools.generate_key src; key ← tools.from_raw raw.0; set_of raw.1 key

  abbrev store_new : Db → Source → Result (Db × Source)
  store_new d src = do
    jwks ← generate_jwks src
    json ← tools.marshal jwks.0
    stored ← db.set_jwks_json json d
    ok (stored, jwks.1)

  -- The database and the source that are left.
  unfoldable pub new_jose : Db → Source → Result (Db × Source)
  new_jose d src = do
    jwks_json ← db.get_jwks_json d
    if jwks_json == "" && i_am_the_primary p then store_new d src else ok (d, src)

  -- What of the database the proof relies on: a key set that was stored is read back, where one
  -- could be read before.
  abbrev pub ReadsBack : Type 0
  ReadsBack =
      (old json : String) (d d' : Db)
      → db.get_jwks_json d ≡ ok old
      → db.set_jwks_json json d ≡ ok d'
      → db.get_jwks_json d' ≡ ok json
