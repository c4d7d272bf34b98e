-- ===== src/Sqlite/Keys.antt =====
-- A table with a key is a finite map.
use obligator.Base.{
  ◌≡◌, ◌≢◌, refl, sym, String, Bool, true, false, not, ok, Option, none, some, List, [], ◌∷◌, ◌++◌,
  ◌==◌, eq_iff, if◌then◌else◌, find, exists, keep, All, All-append, All-keep, arith, Bool-cases,
  inl, inr,
}
use obligator.Sqlite.Tables.{replace_into, insert_unique}

module _ {A : Type 0} (key : A → String) where
  abbrev pub with_key : String → List A → Option A
  with_key k = find (λ row. key row == k)

  -- No two rows have one key.
  abbrev pub IsKeyed : List A → Type 0
  IsKeyed [] = Unit
  IsKeyed (row ∷ rows) = All (λ other. key other ≢ key row) rows × IsKeyed rows

  with_key-keep :
      (k n : String) (rows : List A)
      → with_key k (keep (λ old. not (key old == n)) rows)
        ≡ (if n == k then none else with_key k rows)
  with_key-keep k n [] = ground arith
  with_key-keep k n (row ∷ rows) =
      ground (arith, eq_iff (key row) n, eq_iff (key row) k, eq_iff n k, with_key-keep k n rows)

  with_key-append :
      (k : String) (row : A) (rows : List A)
      → with_key k (rows ++ row ∷ []) ≡ (elim (with_key k rows) [
        | some found ↦ some found
        | none ↦ if key row == k then some row else none
      ])
  with_key-append k row [] = refl
  with_key-append k row (r ∷ rows) = ground (arith, with_key-append k row rows)

  -- INSERT OR REPLACE is the update of a map.
  pub with_key-replace_into :
      (k : String) (row : A) (rows : List A)
      → with_key k (replace_into key row rows)
        ≡ (if key row == k then some row else with_key k rows)
  with_key-replace_into k row rows = ground (
    arith,
    with_key-append k row (keep (λ old. not (key old == key row)) rows),
    with_key-keep k (key row) rows,
  )

  keep-IsKeyed : (q : A → Bool) (rows : List A) → IsKeyed rows → IsKeyed (keep q rows)
  keep-IsKeyed q [] h = tt
  keep-IsKeyed q (row ∷ rows) (n, h) =
      ground (arith, keep-IsKeyed q rows h, All-keep (λ (o : A). key o ≢ key row) q rows n)

  append-IsKeyed :
      (row : A) (rows : List A)
      → All (λ other. key other ≢ key row) rows
      → IsKeyed rows
      → IsKeyed (rows ++ row ∷ [])
  append-IsKeyed row [] n h = (tt, tt)
  append-IsKeyed row (r ∷ rows) (m, n) (q, h) = (
    All-append (λ o. key o ≢ key r) rows (row ∷ []) q ((λ e. m (sym e)), tt),
    append-IsKeyed row rows n h,
  )

  keep-All : (n : String) (rows : List A) → All (λ o. key o ≢ n) (keep (λ o. not (key o == n)) rows)
  keep-All n [] = tt
  keep-All n (row ∷ rows) = ground (arith, eq_iff (key row) n, keep-All n rows)

  pub replace_into-IsKeyed :
      (row : A) (rows : List A) → IsKeyed rows → IsKeyed (replace_into key row rows)
  replace_into-IsKeyed row rows h =
      append-IsKeyed row (keep (λ old. not (key old == key row)) rows) (keep-All (key row) rows)
        (keep-IsKeyed (λ old. not (key old == key row)) rows h)

  absent-All :
      (n : String) (rows : List A)
      → exists (λ old. key old == n) rows ≡ false
      → All (λ o. key o ≢ n) rows
  absent-All n [] e = tt
  absent-All n (row ∷ rows) e = ground (arith, eq_iff (key row) n, absent-All n rows)

  pub exists-with_key :
      (n : String) (rows : List A)
      → exists (λ old. key old == n) rows
        ≡ (elim (with_key n rows) [ none ↦ false | some _ ↦ true ])
  exists-with_key n [] = refl
  exists-with_key n (row ∷ rows) = ground (arith, exists-with_key n rows)

  -- INSERT with a UNIQUE key adds to the map, or fails where the key is there.
  pub insert_unique-cases :
      (k : String) (row : A) (rows rows' : List A)
      → insert_unique key row rows ≡ ok rows'
      → (with_key (key row) rows ≡ none)
        × (with_key k rows' ≡ (if key row == k then some row else with_key k rows))
  insert_unique-cases k row rows rows' e =
      ground (arith, exists-with_key (key row) rows, with_key-append k row rows, eq_iff (key row) k)

  pub insert_unique-IsKeyed :
      (row : A) (rows rows' : List A)
      → insert_unique key row rows ≡ ok rows'
      → IsKeyed rows
      → IsKeyed rows'
  insert_unique-IsKeyed row rows rows' e h =
      elim (Bool-cases (exists (λ old. key old == key row) rows)) [
        | inl b ↦ cc (rw b at e)
        | inr b ↦
            let q : rows ++ row ∷ [] ≡ rows' = ground (arith, rw b at e) in
            rw (← q) (append-IsKeyed row rows (absent-All (key row) rows b) h)
      ]
