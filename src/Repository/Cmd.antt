-- ===== src/Repository/Cmd.antt =====
-- `do` blocks of statements that may write.
use bank_statement_processor.Repository.Db.{Cmd, continue_cmd}

module _ {V E A B : Type 0} where
  infixl 5 ◌>>=◌ ◌>>◌
  abbrev pub ◌>>=◌ : Cmd V E A → (A → Cmd V E B) → Cmd V E B
  ◌>>=◌ m f t o = let (r, t', o') = m t o in continue_cmd r f t' o'

  abbrev pub ◌>>◌ : Cmd V E A → Cmd V E B → Cmd V E B
  m >> n = m >>= λ _. n
