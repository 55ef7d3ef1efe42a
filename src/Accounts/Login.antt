-- ===== src/Accounts/Login.antt =====
-- Authenticate of pkg/store/sqlite.go.
use nodepulse.Base.{
  String, ℕ, ◌⊎◌, inl, inr, ◌&&◌, Option, none, some, List, [], ◌∷◌, leb, ◌==◌, if◌then◌else◌,
  str_eq,
}
use nodepulse.Base.Int.{ℤ}
use nodepulse.Accounts.{
  Accounts, User, Token, AccountError, invalid_credentials, fails, spent, find_user, hash_password,
  issue_default,
}

older : Token → Option Token → Option Token
older t none = some t
older t (some u) = if leb t.created_at u.created_at then some t else some u

-- ORDER BY created_at ASC LIMIT 1, the first of several in the order of the table.
unfoldable pub oldest_token : ℕ → List Token → Option Token
unfolding older
oldest_token uid [] = none
oldest_token uid (t ∷ ts) =
    let rest = oldest_token uid ts in if t.user_id == uid then older t rest else rest

-- `sha` is the hexadecimal text of the SHA-256 of a text, `show` a number in digits, `show_id` one with a
-- sign.
module _ (sha : String → String) (show : ℕ → String) (show_id : ℤ → String) where
  -- Behind the lookup of the oldest token, of which any error counts as a missing row.
  unfoldable pub token_found :
      Accounts → User → Option Token → ℕ → ℕ → Accounts × (AccountError ⊎ (ℕ × String))
  unfolding issue_default
  token_found p u (some t) nano now = (p, inr (u.id, t.token))
  token_found p u none nano now = issue_default sha show show_id p u.username u.id nano now

  unfoldable pub user_found :
      Accounts → Option User → ℕ → ℕ → Accounts × (AccountError ⊎ (ℕ × String))
  unfolding token_found oldest_token
  user_found p none nano now = (p, inl invalid_credentials)
  user_found p (some u) nano now =
      token_found (spent p) u (if fails p then none else oldest_token u.id p.tokens) nano now

  unfoldable pub authenticate :
      Accounts → String → String → ℕ → ℕ → Accounts × (AccountError ⊎ (ℕ × String))
  unfolding user_found find_user hash_password
  authenticate p username password nano now =
      user_found (spent p)
        (if fails p
          then none
          else find_user
              (λ u.
                str_eq u.username username
                && str_eq u.password_hash (hash_password sha show show_id password))
              p.users)
        nano now
