-- ===== src/Start/Replica.antt =====
-- What the start of a replica leaves as it was.
use obligator.Base.{
  ◌≡◌, refl, sym, ◌∙◌, ap, String, false, Result, ok, err, ok-injective, >>=-eq-ok, some, ◌==◌,
  if◌then◌else◌, Bool-cases, inl, inr, arith,
}
use obligator.Platform.{Platform}
use obligator.Cluster.{drawn_id, i_am_the_primary, new_cluster}
use obligator.Utils.Random.{gen_random_key}
use obligator.Jose.Generate.{new_jose}
use obligator.Api.{new_api}
use obligator.Start.{ServerConfig, with_defaults}
use obligator.Start.NewServer.{
  Started, running, no_server, exited, crashed, ◌>>=◌, or_exit, or_crash, Surroundings, Server,
  configured, proxy_for, geo_db_of, new_handlers, new_server,
}

module _ {A B : Type 0} where
  >>=-eq-running :
      (x : Started A) (f : A → Started B) (b : B)
      → (x >>= f) ≡ running b
      → (a : A) × (x ≡ running a) × (f a ≡ running b)
  >>=-eq-running (running a) f b e = (a, refl, e)
  >>=-eq-running no_server f b e = cc
  >>=-eq-running exited f b e = cc
  >>=-eq-running crashed f b e = cc

running-injective : {A : Type 0} (x y : A) → running x ≡ running y → x ≡ y
running-injective x y e = ground arith

or_exit-eq-running : {A : Type 0} (x : Result A) (a : A) → or_exit x ≡ running a → x ≡ ok a
or_exit-eq-running (ok b) a e = ground arith
or_exit-eq-running (err m) a e = cc

module _ (p : Platform) {Remote : Type 0} (outside : Surroundings p Remote) where
  open p use {Db, db, Source}

  configured_replica :
      (conf : ServerConfig) (prefix : String) (d d' : Db)
      → i_am_the_primary p ≡ false
      → configured p outside conf prefix d ≡ ok d'
      → d ≡ d'
  configured_replica conf prefix d d' r e = ok-injective d d' (rw r at e)

  new_jose_replica :
      (d d' : Db) (src src' : Source)
      → i_am_the_primary p ≡ false
      → new_jose p outside.tools d src ≡ ok (d', src')
      → (d ≡ d') × (src ≡ src')
  unfolding new_jose
  new_jose_replica d d' src src' r e =
      let (json, e1, r1) = >>=-eq-ok (db.get_jwks_json d) _ (d', src') e in
      let kept : ok (d, src) ≡ ok (d', src') = elim (Bool-cases (json == "")) [
        | inl b ↦ rw (r, b) at r1
        | inr b ↦ rw (r, b) at r1
      ] in
      let same = ok-injective (d, src) (d', src') kept in
      (ap (λ (x : Db × Source). x.0) same, ap (λ (x : Db × Source). x.1) same)

  -- The source after genRandomKey, also where it failed.
  abbrev pub left_of : Source → Result (String × Source) → Source
  left_of src (ok (id, rest)) = rest
  left_of src (err m) = src

  drawn_id-left_of :
      (src : Source) (drawn : Result (String × Source))
      → (drawn_id p src drawn).1 ≡ left_of src drawn
  drawn_id-left_of src (ok (id, rest)) = refl
  drawn_id-left_of src (err m) = refl

  new_cluster-left_of :
      (id : String) (src : Source)
      → (new_cluster p id src).1 ≡ (if id == "" then left_of src (gen_random_key p src) else src)
  unfolding new_cluster
  new_cluster-left_of id src = elim (Bool-cases (id == "")) [
    | inl b ↦ rw b (drawn_id-left_of src (gen_random_key p src))
    | inr b ↦ rw b
  ]

  -- When a replica has started with a database that was passed in, it has changed nothing in that
  -- database, whatever its configuration says, and it has made no keys: of the random source it has
  -- drawn the id of its instance where the environment gives none, and nothing else.
  pub new_server-replica :
      (given : ServerConfig) (d : Db) (src : Source) (remote : Remote) (server : Server p Remote)
      → i_am_the_primary p ≡ false
      → new_server p outside given (some d) src remote ≡ running server
      → (server.db ≡ d)
        × (server.random
            ≡ (if outside.fly_alloc_id == "" then left_of src (gen_random_key p src) else src))
  unfolding new_server with_defaults
  new_server-replica given d src remote server replica e =
      let conf = with_defaults given in
      let drawn = (new_cluster p outside.fly_alloc_id src).1 in
      let (stored_prefix, e2, r2) = >>=-eq-running (or_exit (db.get_prefix d)) _ server e in
      let (written, e3, r3) =
        >>=-eq-running (or_exit (configured p outside conf stored_prefix d)) _ server r2 in
      let (prefix, e4, r4) = >>=-eq-running (or_exit (db.get_prefix written)) _ server r3 in
      let (proxy, e5, r5) =
        >>=-eq-running (or_crash (proxy_for p outside conf prefix remote).1) _ server r4 in
      let (api, e6, r6) =
        >>=-eq-running (or_exit (new_api p outside.listen conf.api_socket_dir written)) _ server
          r5 in
      let (keyed, e7, r7) =
        >>=-eq-running (or_exit (new_jose p outside.tools written drawn)) _ server r6 in
      let (templates, e8, r8) = >>=-eq-running (or_exit outside.parse_templates) _ server r7 in
      let (geo_db, e9, r9) = >>=-eq-running (geo_db_of p outside conf.geo_db_path) _ server r8 in
      let (logos, e10, r10) = >>=-eq-running (new_handlers p outside keyed.0) _ server r9 in
      let same = running-injective _ _ r10 in
      let (unwritten, undrawn) =
        new_jose_replica written keyed.0 drawn keyed.1 replica (or_exit-eq-running _ _ e7) in
      let unconfigured =
        configured_replica conf stored_prefix d written replica (or_exit-eq-running _ _ e3) in
      (
        sym (unconfigured ∙ unwritten ∙ ap (λ (x : Server p Remote). x.db) same),
        sym (undrawn ∙ ap (λ (x : Server p Remote). x.random) same)
            ∙ new_cluster-left_of outside.fly_alloc_id src,
      )
