-- ===== src/Auth/Tokens.antt =====
-- auth.py: the tokens that reset a password, kept in memory. Times are of the monotonic clock, in
-- microseconds.
use clab_manager.Prelude.{
  ℕ, ◌+◌, not, none, some, keep, ltb, if◌then◌else◌, Text, ◌==◌, Dict, lookup, insert, erase,
  has_key,
}
use clab_manager.Auth.Data.{Storage, normalize_username}

pub record Token : Type 0 where
  pub username : Text
  pub expires_at : ℕ

abbrev pub Tokens : Type 0
Tokens = Dict Token

-- Two hours.
abbrev pub reset_token_ttl : ℕ
reset_token_ttl = 7_200_000_000

pub data Reason : Type 0 where
  unknown_user invalid_link expired_link : Reason

pub data Reply (A : Type 0) : Type 0 where
  ok : A → Reply A
  err : Reason → Reply A

-- Drops the tokens that have expired by `now`, then those of the user.
unfoldable pub purge : ℕ → Text → Tokens → Tokens
purge now username = λ tokens.
    keep (λ e. not (e.1.username == username)) (keep (λ e. not (ltb e.1.expires_at now)) tokens)

-- `token` is what `secrets.token_urlsafe` drew; `issued` and `now` are the two readings of the clock.
unfoldable pub generate_reset_token : Text → ℕ → ℕ → Text → Storage → Tokens → Reply Text × Tokens
unfolding purge
generate_reset_token token issued now username s tokens =
    let normalized = normalize_username username in
    if has_key normalized s.users
    then (
      ok token,
      insert token (record { username = normalized; expires_at = issued + reset_token_ttl })
          (purge now normalized tokens),
    )
    else (err unknown_user, tokens)

unfoldable pub consume_reset_token : Text → ℕ → Tokens → Reply Text × Tokens
consume_reset_token token now tokens = elim (lookup token tokens) [
  | none ↦ (err invalid_link, tokens)
  | some e ↦
      if ltb e.expires_at now
      then (err expired_link, erase token tokens)
      else (ok e.username, erase token tokens)
]
