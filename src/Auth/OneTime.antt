-- ===== src/Auth/OneTime.antt =====
-- auth.py, the reset tokens: proofs on `generate_reset_token` and `consume_reset_token`.
use clab_manager.Prelude.{
  ℕ, ◌+◌, ◌≤◌, ◌≡◌, sym, Bool, true, not, some, [], ◌∷◌, inl, inr, keep, ltb, arith, Text, ◌==◌,
  eq_iff, Dict, lookup, has_key, lookup-insert, lookup-insert_self, lookup-erase_self, Bool-cases,
  Option-cases,
}
use clab_manager.Auth.Data.{Storage, normalize_username}
use clab_manager.Auth.Tokens.{
  Token, Tokens, Reason, Reply, reset_token_ttl, purge, generate_reset_token, consume_reset_token,
}

lookup_of_keep :
    {V : Type 0} (p : (Text × V) → Bool) (k : Text) (v : V) (d : Dict V)
    → lookup k (keep p d) ≡ some v
    → p (k, v) ≡ true
lookup_of_keep p k v [] h = absurd (ground arith)
lookup_of_keep p k v ((j, w) ∷ d) h = elim (Bool-cases (p (j, w))) [
  | inl e ↦ elim (Bool-cases (j == k)) [
    | inl s ↦ ground (arith, eq_iff j k)
    | inr s ↦ lookup_of_keep p k v d (ground arith)
  ]
  | inr e ↦ lookup_of_keep p k v d (ground arith)
]

-- The token that was made for a known account gives its username back up to two hours after its
-- issue.
pub consume-generate :
    (token : Text) (issued now later : ℕ) (username : Text) (s : Storage) (tokens : Tokens)
    → has_key (normalize_username username) s.users ≡ true
    → later ≤ issued + reset_token_ttl
    → (consume_reset_token token later
        (generate_reset_token token issued now username s tokens).1).0
      ≡ Reply.ok (normalize_username username)
unfolding consume_reset_token generate_reset_token
consume-generate token issued now later username s tokens known h =
    let n = normalize_username username in
    let e : Token = record { username = n; expires_at = issued + reset_token_ttl } in
    ground (arith, lookup-insert_self token e (purge now n tokens))

-- A token that was presented once, whatever the answer was, is unknown the next time.
pub consume-consume :
    (token : Text) (now later : ℕ) (tokens : Tokens)
    → (consume_reset_token token later (consume_reset_token token now tokens).1).0
      ≡ Reply.err Reason.invalid_link
unfolding consume_reset_token
consume-consume token now later tokens = ground (arith, lookup-erase_self token tokens)

-- After a new token was made for a known account, a token that gives this account is the new one.
pub generate-IsLatest :
    (token other : Text) (issued now later : ℕ) (username : Text) (s : Storage) (tokens : Tokens)
    → has_key (normalize_username username) s.users ≡ true
    → (consume_reset_token other later
        (generate_reset_token token issued now username s tokens).1).0
      ≡ Reply.ok (normalize_username username)
    → other ≡ token
unfolding consume_reset_token generate_reset_token purge
generate-IsLatest token other issued now later username s tokens known h =
    let n = normalize_username username in
    let e : Token = record { username = n; expires_at = issued + reset_token_ttl } in
    let fresh = λ (t : Text × Token). not (t.1.username == n) in
    let young = λ (t : Text × Token). not (ltb t.1.expires_at now) in
    elim (Bool-cases (token == other)) [
      | inl same ↦ sym ((eq_iff token other).0 same)
      | inr differ ↦ elim (Option-cases (lookup other (purge now n tokens))) [
        | inl out ↦ absurd (ground (arith, lookup-insert token other e (purge now n tokens)))
        | inr (f, l) ↦
            let kept = lookup_of_keep fresh other f (keep young tokens) l in
            absurd (
              ground (arith, lookup-insert token other e (purge now n tokens), eq_iff f.username n))
      ]
    ]
