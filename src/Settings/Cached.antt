-- ===== src/Settings/Cached.antt =====
-- The secret cache: what it returns is at most SECRET_TTL_SECONDS old, and a hit makes no call.
use shard_vpn.Prelude.{
  ℕ, ◌+◌, ◌≤◌, ◌<◌, ◌≡◌, Text, ◌==◌, ==_iff, true, none, some, [], ◌∷◌, arith, inl, inr,
  Option-cases, if◌then◌else◌,
}
use shard_vpn.Python.{Exc, Outcome-cases, Outcome, ok, err}
use shard_vpn.World.{Env, Call}
use shard_vpn.Exec.{State, pure, call, ◌>>=◌}
use shard_vpn.Settings.{
  Cache, secret_ttl, cache_get, cache_put, cached, store, fetch_secret, cached_secret,
  get_parameter,
}

cache_get-cache_put :
    (name k : Text) (now : ℕ) (value : Text) (c : Cache)
    → cache_get k (cache_put name now value c)
      ≡ (if name == k then some (now, value) else cache_get k c)
unfolding cache_get cache_put
cache_get-cache_put name k now value [] = ground (arith, ==_iff k name, ==_iff name k)
cache_get-cache_put name k now value ((j, at, v) ∷ c) = ground (
  arith,
  ==_iff k name,
  ==_iff name k,
  ==_iff name j,
  ==_iff k j,
  cache_get-cache_put name k now value c,
)

-- No entry for the name is younger than the limit.
abbrev pub Missed : Text → ℕ → State → Type 0
Missed name now s =
    (at : ℕ) (v : Text) → cache_get name s.cache ≡ some (at, v) → at + secret_ttl ≤ now

-- What a call of `cached_secret` may do.
pub data Served (ssm name : Text) (now : ℕ) (env : Env) (s : State) (r : Outcome Text × State)
    : Type 0 where
  -- an entry younger than the limit, with no call and no change
  hit :
      (at : ℕ) (v : Text)
      → cache_get name s.cache ≡ some (at, v)
      → now < at + secret_ttl
      → r ≡ (ok v, s)
      → Served ssm name now env s r
  -- without such an entry, the answer of SSM to one call, which is kept for this name alone
  fetched :
      (v : Text)
      → Missed name now s
      → env.get_parameter s.calls ssm name true ≡ ok v
      → r.0 ≡ ok v
      → r.1.calls ≡ Call.get_parameter ssm name true ∷ s.calls
      → ((k : Text)
          → cache_get k r.1.cache ≡ (if name == k then some (now, v) else cache_get k s.cache))
      → Served ssm name now env s r
  -- without such an entry, a failed call, which leaves the cache as it was
  failed :
      (e : Exc)
      → Missed name now s
      → env.get_parameter s.calls ssm name true ≡ err e
      → r.0 ≡ err e
      → r.1.calls ≡ Call.get_parameter ssm name true ∷ s.calls
      → r.1.cache ≡ s.cache
      → Served ssm name now env s r

cached-Missed :
    (name : Text) (now : ℕ) (s : State) → cached name now s.cache ≡ none → Missed name now s
unfolding cached
cached-Missed name now s h at v e = ground (arith, e, h)

fetch_secret-Served :
    (ssm name : Text) (now : ℕ) (env : Env) (s : State)
    → Missed name now s
    → Served ssm name now env s (fetch_secret ssm name now env s)
unfolding fetch_secret get_parameter call store pure ◌>>=◌
fetch_secret-Served ssm name now env s missed =
    elim (Outcome-cases (env.get_parameter s.calls ssm name true)) [
      | inl (v, e) ↦
          fetched v missed e (rw e) (rw e) (λ k. rw e (cache_get-cache_put name k now v s.cache))
      | inr (x, e) ↦ failed x missed e (rw e) (rw e) (rw e)
    ]

-- A secret whose entry is less than five minutes old is served with no call and no change; otherwise it
-- is read from SSM by one call, and the answer kept for this name alone, or, if the call fails, nothing
-- changed in the cache.
pub cached_secret-Served :
    (ssm name : Text) (now : ℕ) (env : Env) (s : State)
    → Served ssm name now env s (cached_secret ssm name now env s)
unfolding cached_secret cached
cached_secret-Served ssm name now env s = elim (Option-cases (cached name now s.cache)) [
  | inl miss ↦
      rw (miss, cached_secret)
        (fetch_secret-Served ssm name now env s (cached-Missed name now s miss))
  | inr (v, found) ↦ elim (Option-cases (cache_get name s.cache)) [
    | inl absent ↦ absurd (ground (arith, absent, found))
    | inr ((at, w), e) ↦
        hit at v (ground (arith, e, found)) (ground (arith, e, found)) (rw (found, cached_secret))
  ]
]
