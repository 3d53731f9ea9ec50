-- ===== src/Http/ClientIp.antt =====
-- The address that a login is counted for (server/src/rate_limit.rs). A header is the list of its ASCII
-- codes.
use bank_statement_processor.Prelude.{
  ℕ, Bool, not, Option, none, some, List, [], ◌∷◌, ◌==◌, if◌then◌else◌, find, any,
}
use mathlib.Core.List.{reverse, filter_map}
use bank_statement_processor.Repository.Db.{Result, err}
use bank_statement_processor.Http.Error.{ApiError, rate_limited}

-- What the module takes from its libraries: whether a network contains an address (ipnet), an entry of
-- the header without its white space as an address, and one request of a key against its quota
-- (governor).
pub record Network : Type 1 where
  pub Address : Type 0
  pub Net : Type 0
  pub Limiter : Type 0
  pub contains : Net → Address → Bool
  pub parse : List ℕ → Option Address
  pub check_key : Address → Limiter → Bool × Limiter

abbrev pub comma : ℕ
comma = 44

abbrev pub onto_first : ℕ → List (List ℕ) → List (List ℕ)
onto_first c [] = (c ∷ []) ∷ []
onto_first c (w ∷ ws) = (c ∷ w) ∷ ws

-- `header.split(',')`
unfoldable pub split : List ℕ → List (List ℕ)
split [] = [] ∷ []
split (c ∷ cs) = if c == comma then [] ∷ split cs else onto_first c (split cs)

abbrev pub or_peer {ℓ} : {A : Type ℓ} → A → Option A → A
or_peer peer none = peer
or_peer peer (some ip) = ip

module _ (N : Network) where
  open N use {Address, Net, Limiter, contains, parse, check_key}

  unfoldable pub is_trusted_proxy : List Net → Address → Bool
  is_trusted_proxy trusted_proxies ip = any (λ net. contains net ip) trusted_proxies

  -- The entries that are addresses, the last one first.
  unfoldable pub entries : List ℕ → List Address
  entries header = filter_map parse (reverse (split header))

  unfoldable pub from_header : Address → List Net → Option (List ℕ) → Address
  from_header peer_ip trusted_proxies none = peer_ip
  from_header peer_ip trusted_proxies (some header) =
      or_peer peer_ip (find (λ ip. not (is_trusted_proxy trusted_proxies ip)) (entries header))

  unfoldable pub resolve_client_ip : Address → List Net → Option (List ℕ) → Address
  resolve_client_ip peer_ip trusted_proxies forwarded_for =
      if not (is_trusted_proxy trusted_proxies peer_ip)
      then peer_ip
      else from_header peer_ip trusted_proxies forwarded_for

  -- `next` is the handler that the request is passed on to.
  unfoldable pub login_rate_limit :
      {A : Type 0}
      → List Net
      → Option Address
      → Option (List ℕ)
      → (Limiter → Result ApiError A × Limiter)
      → Limiter
      → Result ApiError A × Limiter
  login_rate_limit trusted_proxies none forwarded_for next limiter = next limiter
  login_rate_limit trusted_proxies (some peer_ip) forwarded_for next limiter =
      let (within, limiter') =
        check_key (resolve_client_ip peer_ip trusted_proxies forwarded_for) limiter in
      if within then next limiter' else (err rate_limited, limiter')
