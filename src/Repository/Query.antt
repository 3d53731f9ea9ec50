-- ===== src/Repository/Query.antt =====
-- `do` blocks of reading statements: `.await?` one after another.
use bank_statement_processor.Repository.Db.{Query, continue}

module _ {V E A B : Type 0} where
  infixl 5 ◌>>=◌
  abbrev pub ◌>>=◌ : Query V E A → (A → Query V E B) → Query V E B
  ◌>>=◌ m f t o = let (r, o') = m t o in continue r f t o'
