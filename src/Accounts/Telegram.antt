-- ===== src/Accounts/Telegram.antt =====
-- RegisterByTelegram of pkg/store/sqlite.go.
use nodepulse.Base.{
  String, ℕ, ◌⊎◌, inl, Bool, true, false, not, ◌&&◌, ◌||◌, Option, none, some, List, [], ◌∷◌, ◌++◌,
  if◌then◌else◌,
}
use nodepulse.Base.Int.{ℤ, eq_ℤ}
use nodepulse.Text.{is_empty}
use Prim.Native.String.{◌++◌ as join}
use nodepulse.Accounts.{
  Accounts, TelegramUser, AccountError, username_exists, settings_failed, link_failed,
  refresh_failed, fails, spent, is_some, insert_user, insert_settings, insert_token, cut,
  hash_password, issued,
}

-- The row of a Telegram id.
unfoldable pub find_telegram : ℤ → List TelegramUser → Option TelegramUser
find_telegram tg_id [] = none
find_telegram tg_id (t ∷ ts) =
    let rest = find_telegram tg_id ts in if eq_ℤ t.tg_id tg_id then some t else rest

unfoldable pub rename_telegram : ℤ → String → String → List TelegramUser → List TelegramUser
rename_telegram tg_id first_name username [] = []
rename_telegram tg_id first_name username (t ∷ ts) =
    (if eq_ℤ t.tg_id tg_id
      then record t { tg_first_name = first_name; tg_username = username }
      else t)
    ∷ rename_telegram tg_id first_name username ts

-- `sha` is the hexadecimal text of the SHA-256 of a text, `show` a number in digits, `show_id` one with a
-- sign.
module _ (sha : String → String) (show : ℕ → String) (show_id : ℤ → String) where
  unfoldable pub telegram_token : ℤ → ℕ → String
  telegram_token tg_id nano =
      cut 36 (join "np_tg_" (sha (join (show_id tg_id) (join "-" (show nano)))))

  unfoldable pub issue_telegram :
      Accounts → ℤ → ℕ → ℕ → ℕ → Accounts × (AccountError ⊎ (ℕ × String))
  unfolding issued insert_token telegram_token
  issue_telegram p tg_id uid nano now =
      issued sha show show_id uid (telegram_token tg_id nano)
        (insert_token p (telegram_token tg_id nano) uid "tg-login" now)

  -- A known Telegram user.
  unfoldable pub login_telegram :
      Accounts → ℤ → String → String → ℕ → ℕ → ℕ → Accounts × (AccountError ⊎ (ℕ × String))
  unfolding issue_telegram rename_telegram
  login_telegram p tg_id first_name username uid nano now =
      if is_empty first_name && is_empty username
      then issue_telegram p tg_id uid nano now
      else if fails p
      then (spent p, inl refresh_failed)
      else issue_telegram
          (record (spent p) { telegram = rename_telegram tg_id first_name username p.telegram })
          tg_id uid nano now

  -- INSERT INTO telegram_users; the id is the primary key.
  unfoldable pub link_telegram : Accounts → TelegramUser → Accounts × Bool
  unfolding find_telegram
  link_telegram p row =
      if fails p || is_some (find_telegram row.tg_id p.telegram)
      then (spent p, false)
      else (record (spent p) { telegram = p.telegram ++ row ∷ [] }, true)

  unfoldable pub new_telegram_user :
      Accounts → TelegramUser → Option ℕ → ℕ → ℕ → Accounts × (AccountError ⊎ (ℕ × String))
  unfolding insert_settings link_telegram issue_telegram
  new_telegram_user p row none nano now = (p, inl username_exists)
  new_telegram_user p row (some uid) nano now =
      let (q, ok) = insert_settings p uid in
      let (r, linked) = link_telegram q (record row { user_id = uid }) in
      let result = issue_telegram r row.tg_id uid nano now in
      if not ok then (q, inl settings_failed) else if linked then result else (r, inl link_failed)

  -- Behind the lookup, of which any error counts as a missing row.
  unfoldable pub telegram_found :
      Accounts
      → ℤ
      → String
      → String
      → Option TelegramUser
      → ℕ
      → ℕ
      → ℕ
      → Accounts × (AccountError ⊎ (ℕ × String))
  unfolding login_telegram new_telegram_user insert_user hash_password
  telegram_found p tg_id first_name username (some t) hashed nano now =
      login_telegram p tg_id first_name username t.user_id nano now
  telegram_found p tg_id first_name username none hashed nano now =
      let name = join "tg_" (show_id tg_id) in
      let (q, uid) =
        insert_user p name (hash_password sha show show_id (join name (join "_" (show hashed)))) in
      new_telegram_user q
        (record { tg_id = tg_id; user_id = 0; tg_username = username; tg_first_name = first_name })
        uid nano now

  unfoldable pub register_by_telegram :
      Accounts → ℤ → String → String → ℕ → ℕ → ℕ → Accounts × (AccountError ⊎ (ℕ × String))
  unfolding telegram_found find_telegram
  register_by_telegram p tg_id first_name username hashed nano now =
      telegram_found (spent p) tg_id first_name username
        (if fails p then none else find_telegram tg_id p.telegram) hashed nano now
