-- ===== src/Sqlite/Counts.antt =====
-- The counts that the e-mail limit is decided by.
use obligator.Base.{
  ℕ, ◌≡◌, refl, String, not, Option, none, some, List, [], ◌∷◌, ◌==◌, eq_iff, zero, suc,
  if◌then◌else◌, find, keep, length, arith,
}
use obligator.Types.{EmailValidationCount}
use obligator.Sqlite.Tables.{RequestRow, of_requester, counts_since}

abbrev pub count_of : String → List EmailValidationCount → Option EmailValidationCount
count_of id = find (λ c. c.hashed_requester_id == id)

-- A row of the answer, if the requester has any.
abbrev pub row_of : String → ℕ → Option EmailValidationCount
row_of id zero = none
row_of id (suc n) = some (record { hashed_requester_id = id; count = suc n })

count_of-keep :
    (id n : String) (l : List EmailValidationCount)
    → count_of id (keep (λ c. not (c.hashed_requester_id == n)) l)
      ≡ (if n == id then none else count_of id l)
count_of-keep id n [] = ground arith
count_of-keep id n (c ∷ l) = ground (
  arith,
  eq_iff c.hashed_requester_id n,
  eq_iff c.hashed_requester_id id,
  eq_iff n id,
  count_of-keep id n l,
)

-- The answer has, for every requester, the number of its rows that are later than the given time,
-- and no row where that is 0.
pub count_of-counts_since :
    (since : ℕ) (id : String) (rows : List RequestRow)
    → count_of id (counts_since since rows) ≡ row_of id (length (of_requester since id rows))
unfolding counts_since
count_of-counts_since since id [] = refl
count_of-counts_since since id (row ∷ rows) = ground (
  arith,
  eq_iff row.hashed_requester_id id,
  count_of-keep id row.hashed_requester_id (counts_since since rows),
  count_of-counts_since since id rows,
)
