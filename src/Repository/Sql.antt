-- ===== src/Repository/Sql.antt =====
-- What the SQL texts of the repositories use: a comparison with a nullable column, and
-- `ORDER BY key DESC LIMIT 1`.
use bank_statement_processor.Prelude.{
  ℕ, String, Bool, false, Option, none, some, List, [], ◌∷◌, ltb, str_eq, if◌then◌else◌,
}

-- `column = $1`; NULL equals nothing.
unfoldable pub column_eq : Option String → String → Bool
column_eq none s = false
column_eq (some c) s = str_eq c s

-- Among rows with one key the statement leaves the choice open; here the newest row is taken.
unfoldable pub latest_by {ℓ} : {A : Type ℓ} → (A → ℕ) → List A → Option A
latest_by key [] = none
latest_by key (x ∷ xs) = elim (latest_by key xs) [
  | none ↦ some x
  | some y ↦ if ltb (key x) (key y) then some y else some x
]
