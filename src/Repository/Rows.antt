-- ===== src/Repository/Rows.antt =====
-- Rows that a query returned are in their table, and an update by id reaches them.
use bank_statement_processor.Prelude.{
  ℕ, Bool, true, some, List, [], ◌∷◌, ◌≡◌, arith, find, select, any, update_where,
}
use bank_statement_processor.Repository.Sql.{latest_by}

module _ {ℓ} {A : Type ℓ} where
  -- If some row passes `p`, an update of at least these rows by an `f` whose results pass `r` leaves a
  -- row that passes `r`.
  pub any-update_where :
      (p q r : A → Bool) (f : A → A) (xs : List A)
      → ((x : A) → p x ≡ true → q x ≡ true)
      → ((x : A) → p x ≡ true → r (f x) ≡ true)
      → any p xs ≡ true
      → any r (update_where q f xs) ≡ true
  unfolding any update_where
  any-update_where p q r f [] h k e = e
  any-update_where p q r f (x ∷ xs) h k e =
      ground (arith, h x, k x, any-update_where p q r f xs h k)

  pub any-find :
      (p r : A → Bool) (xs : List A) {x : A}
      → (p x ≡ true → r x ≡ true)
      → find p xs ≡ some x
      → any r xs ≡ true
  unfolding any find
  any-find p r [] {x} h e = absurd (ground arith)
  any-find p r (y ∷ xs) {x} h e = ground (arith, any-find p r xs {x = x} h)

  pub any-select :
      (p r : A → Bool) (xs : List A) {x : A} {ys : List A}
      → (p x ≡ true → r x ≡ true)
      → select p xs ≡ x ∷ ys
      → any r xs ≡ true
  unfolding any select
  any-select p r [] {x} {ys} h e = absurd (ground arith)
  any-select p r (y ∷ xs) {x} {ys} h e = ground (arith, any-select p r xs {x = x} {ys = ys} h)

  pub any-latest_by :
      (key : A → ℕ) (p r : A → Bool) (xs : List A) {x : A}
      → (p x ≡ true → r x ≡ true)
      → latest_by key (select p xs) ≡ some x
      → any r xs ≡ true
  unfolding any select latest_by
  any-latest_by key p r [] {x} h e = absurd (ground arith)
  any-latest_by key p r (y ∷ xs) {x} h e = ground (arith, any-latest_by key p r xs {x = x} h)
