-- ===== src/Repository/Steady.antt =====
-- Failures of the database, in general: a computation is steady when an outage at any of its statements
-- makes it report the database error, and otherwise changes nothing of what it returns and writes.
use bank_statement_processor.Prelude.{
  ◌≡◌, refl, ◌⊎◌, inl, inr, Bool, true, false, Option, none, some, [], arith, if◌then◌else◌,
}
use bank_statement_processor.Repository.Db.{
  Result, ok, err, Tables, Outages, Query, Cmd, query, exec, return, reads, transaction, fails,
  later, continue, continue_cmd, settle,
}
use bank_statement_processor.Repository.Query
use bank_statement_processor.Repository.Cmd

pub record Steady {V E A : Type 0} (e : E) (m : Query V E A) : Type 0 where
  pub agrees : (t : Tables V) (o : Outages) → ((m t o).0 ≡ err e) ⊎ ((m t o).0 ≡ (m t []).0)
  pub clear : (t : Tables V) → (m t []).1 ≡ []

pub record SteadyCmd {V E A : Type 0} (e : E) (m : Cmd V E A) : Type 0 where
  pub agrees :
      (t : Tables V) (o : Outages)
      → ((m t o).0 ≡ err e) ⊎ (((m t o).0 ≡ (m t []).0) × ((m t o).1 ≡ (m t []).1))
  pub clear : (t : Tables V) → (m t []).2 ≡ []

module _ {V E A : Type 0} (e : E) where
  pub return-Steady : (r : Result E A) → Steady e (return {V = V} r)
  return-Steady r = record { agrees = λ t o. inr refl; clear = λ t. refl }

  pub query-Steady : (f : Tables V → A) → Steady e (query e f)
  unfolding query fails later
  query-Steady f = record { agrees = λ t o. ground arith; clear = λ t. refl }

  pub exec-Steady : (f : Tables V → Result E A × Tables V) → SteadyCmd e (exec e f)
  unfolding exec fails later
  exec-Steady f = record { agrees = λ t o. ground arith; clear = λ t. refl }

  pub reads-Steady : {m : Query V E A} → Steady e m → SteadyCmd e (reads m)
  reads-Steady {m} s = record {
    agrees = λ t o. ground (arith, s.agrees t o);
    clear = λ t. s.clear t;
  }

module _ {V E A B : Type 0} (e : E) where
  continue_agrees :
      (r r' : Result E A) (f : A → Query V E B) (t : Tables V) (o : Outages)
      → ((a : A) → Steady e (f a))
      → (r ≡ err e) ⊎ (r ≡ r')
      → ((continue r f t o).0 ≡ err e) ⊎ ((continue r f t o).0 ≡ (continue r' f t []).0)
  continue_agrees (ok a) r' f t o s (inr h) = rw (← h) ((s a).agrees t o)
  continue_agrees (ok a) r' f t o s (inl h) = inl (cc)
  continue_agrees (err x) r' f t o s (inl h) = inl (cc)
  continue_agrees (err x) r' f t o s (inr h) = rw (← h) (inr refl)

  continue_clear :
      (r : Result E A) (f : A → Query V E B) (t : Tables V)
      → ((a : A) → Steady e (f a))
      → (continue r f t []).1 ≡ []
  continue_clear (ok a) f t s = (s a).clear t
  continue_clear (err x) f t s = refl

  pub bind-Steady :
      {m : Query V E A} {f : A → Query V E B}
      → Steady e m
      → ((a : A) → Steady e (f a))
      → Steady e (Query.◌>>=◌ m f)
  bind-Steady {m} {f} s sf = record {
    agrees = λ t o.
        rw (s.clear t) (continue_agrees (m t o).0 (m t []).0 f t (m t o).1 sf (s.agrees t o));
    clear = λ t. rw (s.clear t) (continue_clear (m t []).0 f t sf);
  }

  continue_cmd_agrees :
      (r r' : Result E A) (f : A → Cmd V E B) (t t' : Tables V) (o : Outages)
      → ((a : A) → SteadyCmd e (f a))
      → (r ≡ err e) ⊎ ((r ≡ r') × (t ≡ t'))
      → ((continue_cmd r f t o).0 ≡ err e)
        ⊎ (((continue_cmd r f t o).0 ≡ (continue_cmd r' f t' []).0)
            × ((continue_cmd r f t o).1 ≡ (continue_cmd r' f t' []).1))
  continue_cmd_agrees (ok a) r' f t t' o s (inr (h, k)) = rw (← h, ← k) ((s a).agrees t o)
  continue_cmd_agrees (ok a) r' f t t' o s (inl h) = inl (cc)
  continue_cmd_agrees (err x) r' f t t' o s (inl h) = inl (cc)
  continue_cmd_agrees (err x) r' f t t' o s (inr (h, k)) = rw (← h, ← k) (inr (refl, refl))

  continue_cmd_clear :
      (r : Result E A) (f : A → Cmd V E B) (t : Tables V)
      → ((a : A) → SteadyCmd e (f a))
      → (continue_cmd r f t []).2 ≡ []
  continue_cmd_clear (ok a) f t s = (s a).clear t
  continue_cmd_clear (err x) f t s = refl

  pub bind-SteadyCmd :
      {m : Cmd V E A} {f : A → Cmd V E B}
      → SteadyCmd e m
      → ((a : A) → SteadyCmd e (f a))
      → SteadyCmd e (Cmd.◌>>=◌ m f)
  bind-SteadyCmd {m} {f} s sf = record {
    agrees = λ t o. rw (s.clear t) (
        continue_cmd_agrees (m t o).0 (m t []).0 f (m t o).1 (m t []).1 (m t o).2 sf
          (s.agrees t o));
    clear = λ t. rw (s.clear t) (continue_cmd_clear (m t []).0 f (m t []).1 sf);
  }

-- A failed transaction has written nothing.
module _ {V E A : Type 0} where
  settle_unchanged :
      (t : Tables V) (r : Result E A) (t' : Tables V) (o : Outages) {e : E}
      → (settle t (r, t', o)).0 ≡ err e
      → (settle t (r, t', o)).1 ≡ t
  settle_unchanged t (ok a) t' o h = absurd (ground arith)
  settle_unchanged t (err x) t' o h = refl

  pub transaction_unchanged :
      (m : Cmd V E A) (t : Tables V) (o : Outages) {e : E}
      → (transaction m t o).0 ≡ err e
      → (transaction m t o).1 ≡ t
  transaction_unchanged m t o h = settle_unchanged t (m t o).0 (m t o).1 (m t o).2 h

  settle_agrees :
      (t : Tables V) (e : E) (r r' : Result E A) (t₁ t₂ : Tables V) (o o' : Outages)
      → (r ≡ err e) ⊎ ((r ≡ r') × (t₁ ≡ t₂))
      → ((settle t (r, t₁, o)).0 ≡ err e)
        ⊎ (((settle t (r, t₁, o)).0 ≡ (settle t (r', t₂, o')).0)
            × ((settle t (r, t₁, o)).1 ≡ (settle t (r', t₂, o')).1))
  settle_agrees t e (ok a) r' t₁ t₂ o o' (inl h) = inl (cc)
  settle_agrees t e (err x) r' t₁ t₂ o o' (inl h) = inl (cc)
  settle_agrees t e (ok a) r' t₁ t₂ o o' (inr (h, k)) = rw (← h) (inr (refl, k))
  settle_agrees t e (err x) r' t₁ t₂ o o' (inr (h, k)) = rw (← h) (inr (refl, refl))

  settle_clear :
      (t : Tables V) (r : Result E A) (t' : Tables V) (o : Outages)
      → o ≡ []
      → (settle t (r, t', o)).2 ≡ []
  settle_clear t (ok a) t' o h = h
  settle_clear t (err x) t' o h = h

  pub transaction-Steady : {e : E} {m : Cmd V E A} → SteadyCmd e m → SteadyCmd e (transaction m)
  transaction-Steady {e} {m} s = record {
    agrees = λ t o.
        settle_agrees t e (m t o).0 (m t []).0 (m t o).1 (m t []).1 (m t o).2 (m t []).2
          (s.agrees t o);
    clear = λ t. settle_clear t (m t []).0 (m t []).1 (m t []).2 (s.clear t);
  }

-- The shapes of the services' code: an error carried over to the caller's type, a test, a match.
module _ {V E F A B : Type 0} where
  pub map-Steady :
      {e : E} {e' : F} (g : Result E A → Result F B) {m : Query V E A}
      → g (err e) ≡ err e'
      → Steady e m
      → Steady e' (λ t o. let (r, o') = m t o in (g r, o'))
  map-Steady {e} {e'} g {m} h s = record {
    agrees = λ t o. elim (s.agrees t o) [ inl k ↦ inl (rw k h) | inr k ↦ inr (rw k) ];
    clear = λ t. s.clear t;
  }

  pub map-SteadyCmd :
      {e : E} {e' : F} (g : Result E A → Result F B) {m : Cmd V E A}
      → g (err e) ≡ err e'
      → SteadyCmd e m
      → SteadyCmd e' (λ t o. let (r, t', o') = m t o in (g r, t', o'))
  map-SteadyCmd {e} {e'} g {m} h s = record {
    agrees = λ t o. elim (s.agrees t o) [ inl k ↦ inl (rw k h) | inr (k, l) ↦ inr (rw k, l) ];
    clear = λ t. s.clear t;
  }

module _ {V E A : Type 0} {e : E} where
  pub if-Steady :
      (b : Bool) {x y : Query V E A} → Steady e x → Steady e y → Steady e (if b then x else y)
  if-Steady true sx sy = sx
  if-Steady false sx sy = sy

  pub match-Steady :
      {B : Type 0} (o : Option B) {n : Query V E A} {f : B → Query V E A}
      → Steady e n
      → ((b : B) → Steady e (f b))
      → Steady e (elim o [ none ↦ n | some b ↦ f b ])
  match-Steady none sn sf = sn
  match-Steady (some b) sn sf = sf b
