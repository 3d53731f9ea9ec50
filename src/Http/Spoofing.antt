-- ===== src/Http/Spoofing.antt =====
-- Which address a login is counted for (server/src/rate_limit.rs, `resolve_client_ip`).
use bank_statement_processor.Prelude.{
  ℕ, Bool, true, false, not, Option, none, some, List, [], ◌∷◌, ◌++◌, ◌==◌, ◌≡◌, ◌⊎◌, inl, inr,
  refl, sym, ap, ◌∙◌, arith, if◌then◌else◌, find, find-some, Bool-cases, Option-cases,
}
use mathlib.Core.List.{reverse, reverse-append, filter_map}
use bank_statement_processor.Http.ClientIp.{
  Network, comma, split, or_peer, is_trusted_proxy, entries, from_header, resolve_client_ip,
}

split-cons : (cs : List ℕ) → (w : List ℕ) × (ws : List (List ℕ)) × (split cs ≡ w ∷ ws)
unfolding split
split-cons [] = ([], [], refl)
split-cons (c ∷ cs) = elim (Bool-cases (c == comma)) [
  | inl e ↦ ([], split cs, rw e refl)
  | inr e ↦ (let (w, ws, k) = split-cons cs in (c ∷ w, ws, rw (e, k) refl))
]

-- A comma separates the pieces of what stands before it and of what stands after it.
split-append : (pre suf : List ℕ) → split (pre ++ comma ∷ suf) ≡ split pre ++ split suf
unfolding split
split-append [] suf = refl
split-append (c ∷ cs) suf = elim (Bool-cases (c == comma)) [
  | inl e ↦ rw (e, split-append cs suf) refl
  | inr e ↦ (let (w, ws, k) = split-cons cs in rw (e, split-append cs suf, k) refl)
]

filter_map-append :
    {A B : Type 0} (f : A → Option B) (xs ys : List A)
    → filter_map f (xs ++ ys) ≡ filter_map f xs ++ filter_map f ys
unfolding filter_map
filter_map-append f [] ys = refl
filter_map-append f (x ∷ xs) ys = elim (Option-cases (f x)) [
  | inl e ↦ rw (e, filter_map-append f xs ys) refl
  | inr (b, e) ↦ rw (e, filter_map-append f xs ys) refl
]

find-append :
    {A : Type 0} (p : A → Bool) (xs ys : List A) (x : A)
    → find p xs ≡ some x
    → find p (xs ++ ys) ≡ some x
unfolding find
find-append p [] ys x h = absurd (ground arith)
find-append p (y ∷ xs) ys x h = ground (arith, find-append p xs ys x)

module _ (N : Network) where
  open N use {Address, Net, parse}

  abbrev pub is_outside : List Net → Address → Bool
  is_outside trusted_proxies ip = not (is_trusted_proxy N trusted_proxies ip)

  entries-append :
      (pre suf : List ℕ) → entries N (pre ++ comma ∷ suf) ≡ entries N suf ++ entries N pre
  unfolding entries
  entries-append pre suf =
      rw (split-append pre suf, reverse-append (split pre) (split suf))
        (filter_map-append parse (reverse (split suf)) (reverse (split pre)))

  from_header_outside :
      (peer : Address) (nets : List Net) (header : Option (List ℕ))
      → (from_header N peer nets header ≡ peer)
        ⊎ (is_outside nets (from_header N peer nets header) ≡ true)
  unfolding from_header
  from_header_outside peer nets none = inl refl
  from_header_outside peer nets (some header) =
      elim (Option-cases (find (is_outside nets) (entries N header))) [
        | inl e ↦ inl (rw e refl)
        | inr (ip, e) ↦ inr (rw e (find-some (is_outside nets) (entries N header) e))
      ]

  -- A client cannot choose the address that it is counted under. The header is not read at all when the
  -- connection does not come from a trusted proxy; the address is the connection's or one that is no
  -- trusted proxy; and when what stands after a comma of the header (as a proxy appended it) names an
  -- address that is no trusted proxy, nothing that stands before this comma has an influence.
  pub client_ip_unspoofable :
      (peer : Address) (nets : List Net) (header : Option (List ℕ)) (pre suf : List ℕ)
      → (is_trusted_proxy N nets peer ≡ false → resolve_client_ip N peer nets header ≡ peer)
        × ((resolve_client_ip N peer nets header ≡ peer)
            ⊎ (is_outside nets (resolve_client_ip N peer nets header) ≡ true))
        × ((ip : Address)
            → find (is_outside nets) (entries N suf) ≡ some ip
            → resolve_client_ip N peer nets (some (pre ++ comma ∷ suf))
              ≡ resolve_client_ip N peer nets (some suf))
  unfolding resolve_client_ip from_header
  client_ip_unspoofable peer nets header pre suf = (
    λ h. rw h refl,
    elim (Bool-cases (is_trusted_proxy N nets peer)) [
      | inl e ↦ rw e (from_header_outside peer nets header)
      | inr e ↦ rw e (inl refl)
    ],
    λ ip h.
        ap (λ x. if is_outside nets peer then peer else or_peer peer x)
          (ap (find (is_outside nets)) (entries-append pre suf)
            ∙ find-append (is_outside nets) (entries N suf) (entries N pre) ip h
            ∙ sym h),
  )
