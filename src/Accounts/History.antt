-- ===== src/Accounts/History.antt =====
-- Histories of calls of the users and tokens of pkg/store/sqlite.go: no call takes a token away.
use nodepulse.Base.{
  ℕ, String, ◌≡◌, refl, ◌∙◌, ◌⊎◌, inl, inr, Bool, true, false, ◌&&◌, ◌||◌, Option, none, some, List,
  [], ◌∷◌, ◌++◌, arith, str_eq, Bool-cases,
}
use mathlib.Core.Path.{subst}
use Prim.Native.String.{◌++◌ as join}
use nodepulse.Text.{is_empty}
use nodepulse.Accounts.{
  spent, hash_password, Accounts, User, Token, TelegramUser, find_token, is_some, fails,
  insert_user, insert_settings, insert_token, issued, issue_default, default_token, register_user,
  register, get_user_by_token, validate_token, ℤ,
}
use nodepulse.Accounts.Telegram.{
  rename_telegram, telegram_token, issue_telegram, login_telegram, link_telegram, new_telegram_user,
  telegram_found, register_by_telegram,
}
use nodepulse.Accounts.Login.{token_found, user_found, authenticate}

-- The calls, with the readings of the clock of each.
pub data AccountCall : Type 0 where
  registers : (username password : String) (nano now : ℕ) → AccountCall
  registers_by_telegram :
      (tg_id : ℤ) (first_name username : String) (hashed nano now : ℕ) → AccountCall
  authenticates : (username password : String) (nano now : ℕ) → AccountCall
  gets_user : (token : String) → AccountCall
  validates : (token : String) → AccountCall

-- A table of tokens behind a call: as it was, or with a row more.
abbrev Grown : List Token → List Token → Type 0
Grown ts us = (us ≡ ts) ⊎ ((row : Token) × (us ≡ ts ++ row ∷ []))

find_token-append :
    (token : String) (ts us : List Token) (row : Token)
    → find_token token ts ≡ some row
    → find_token token (ts ++ us) ≡ some row
unfolding find_token
find_token-append token [] us row h = absurd (ground (arith, h))
find_token-append token (t ∷ ts) us row h = elim (Bool-cases (str_eq t.token token)) [
  | inl y ↦ rw y (rw y at h)
  | inr n ↦ rw n (find_token-append token ts us row (rw n at h))
]

Grown-found :
    (token : String) (ts us : List Token) (row : Token)
    → Grown ts us
    → find_token token ts ≡ some row
    → find_token token us ≡ some row
Grown-found token ts us row (inl e) h = rw e h
Grown-found token ts us row (inr (t, e)) h = rw e (find_token-append token ts (t ∷ []) row h)

from_same : {ts ts' us : List Token} → ts' ≡ ts → Grown ts' us → Grown ts us
from_same {us = us} e g = subst (λ t. Grown t us) e g

insert_token-Grown :
    (p : Accounts) (token : String) (uid : ℕ) (name : String) (now : ℕ)
    → Grown p.tokens (insert_token p token uid name now).0.tokens
unfolding insert_token
insert_token-Grown p token uid name now =
    elim (Bool-cases (fails p || is_some (find_token token p.tokens))) [
      | inl y ↦ inl (rw y refl)
      | inr n ↦
          inr (record { token = token; user_id = uid; name = name; created_at = now }, rw n refl)
    ]

insert_user_tokens :
    (p : Accounts) (username hash : String) → (insert_user p username hash).0.tokens ≡ p.tokens
unfolding insert_user
insert_user_tokens p username hash = ground arith

insert_settings_tokens : (p : Accounts) (uid : ℕ) → (insert_settings p uid).0.tokens ≡ p.tokens
unfolding insert_settings
insert_settings_tokens p uid = ground arith

module _ (sha : String → String) (show : ℕ → String) (show_id : ℤ → String) where
  issued_same :
      (uid : ℕ) (token : String) (r : Accounts × Bool)
      → (issued sha show show_id uid token r).0 ≡ r.0
  unfolding issued
  issued_same uid token (p, true) = refl
  issued_same uid token (p, false) = refl

  issue_default-Grown :
      (p : Accounts) (username : String) (uid nano now : ℕ)
      → Grown p.tokens (issue_default sha show show_id p username uid nano now).0.tokens
  unfolding issue_default
  issue_default-Grown p username uid nano now =
      rw
        (issued_same uid (default_token sha show show_id username nano)
          (insert_token p (default_token sha show show_id username nano) uid "default" now))
        (insert_token-Grown p (default_token sha show show_id username nano) uid "default" now)

  register_user-Grown :
      (p : Accounts) (username : String) (uid : Option ℕ) (nano now : ℕ)
      → Grown p.tokens (register_user sha show show_id p username uid nano now).0.tokens
  unfolding register_user
  register_user-Grown p username none nano now = inl refl
  register_user-Grown p username (some uid) nano now =
      let q = (insert_settings p uid).0 in
      elim (Bool-cases (insert_settings p uid).1) [
        | inl y ↦
            rw y (
              from_same (insert_settings_tokens p uid)
                (issue_default-Grown q username uid nano now))
        | inr n ↦ rw n (inl (insert_settings_tokens p uid))
      ]

  register-Grown :
      (p : Accounts) (username password : String) (nano now : ℕ)
      → Grown p.tokens (register sha show show_id p username password nano now).0.tokens
  unfolding register
  register-Grown p username password nano now =
      let hash = hash_password sha show show_id password in
      let (q, uid) = insert_user p username hash in
      from_same (insert_user_tokens p username hash) (register_user-Grown q username uid nano now)

  issue_telegram-Grown :
      (p : Accounts) (tg_id : ℤ) (uid nano now : ℕ)
      → Grown p.tokens (issue_telegram sha show show_id p tg_id uid nano now).0.tokens
  unfolding issue_telegram
  issue_telegram-Grown p tg_id uid nano now =
      let token = telegram_token sha show show_id tg_id nano in
      rw (issued_same uid token (insert_token p token uid "tg-login" now))
        (insert_token-Grown p token uid "tg-login" now)

  login_telegram-Grown :
      (p : Accounts) (tg_id : ℤ) (first_name username : String) (uid nano now : ℕ)
      → Grown p.tokens
          (login_telegram sha show show_id p tg_id first_name username uid nano now).0.tokens
  unfolding login_telegram
  login_telegram-Grown p tg_id first_name username uid nano now =
      elim (Bool-cases (is_empty first_name && is_empty username)) [
        | inl y ↦ rw y (issue_telegram-Grown p tg_id uid nano now)
        | inr n ↦ elim (Bool-cases (fails p)) [
          | inl f ↦ rw (n, f) (inl refl)
          | inr g ↦
              rw (n, g)
                (issue_telegram-Grown
                  (record (spent p) {
                    telegram = rename_telegram tg_id first_name username p.telegram;
                  })
                  tg_id uid nano now)
        ]
      ]

  link_telegram_tokens :
      (p : Accounts) (row : TelegramUser)
      → (link_telegram sha show show_id p row).0.tokens ≡ p.tokens
  unfolding link_telegram
  link_telegram_tokens p row = ground arith

  new_telegram_user-Grown :
      (p : Accounts) (row : TelegramUser) (uid : Option ℕ) (nano now : ℕ)
      → Grown p.tokens (new_telegram_user sha show show_id p row uid nano now).0.tokens
  unfolding new_telegram_user
  new_telegram_user-Grown p row none nano now = inl refl
  new_telegram_user-Grown p row (some uid) nano now =
      let q = (insert_settings p uid).0 in
      let (r, linked) = link_telegram sha show show_id q (record row { user_id = uid }) in
      let same =
        link_telegram_tokens q (record row { user_id = uid }) ∙ insert_settings_tokens p uid in
      elim (Bool-cases (insert_settings p uid).1) [
        | inr n ↦ rw n (inl (insert_settings_tokens p uid))
        | inl y ↦ elim (Bool-cases linked) [
          | inl l ↦ rw (y, l) (from_same same (issue_telegram-Grown r row.tg_id uid nano now))
          | inr m ↦ rw (y, m) (inl same)
        ]
      ]

  telegram_found-Grown :
      (p : Accounts) (tg_id : ℤ) (first_name username : String) (found : Option TelegramUser)
      (hashed nano now : ℕ)
      → Grown p.tokens
          (telegram_found sha show show_id p tg_id first_name username found hashed nano
            now).0.tokens
  unfolding telegram_found
  telegram_found-Grown p tg_id first_name username (some t) hashed nano now =
      login_telegram-Grown p tg_id first_name username t.user_id nano now
  telegram_found-Grown p tg_id first_name username none hashed nano now =
      let name = join "tg_" (show_id tg_id) in
      let hash = hash_password sha show show_id (join name (join "_" (show hashed))) in
      let (q, uid) = insert_user p name hash in
      from_same (insert_user_tokens p name hash) (
        new_telegram_user-Grown q
          (record {
            tg_id = tg_id;
            user_id = 0;
            tg_username = username;
            tg_first_name = first_name;
          })
          uid nano now)

  token_found-Grown :
      (p : Accounts) (u : User) (found : Option Token) (nano now : ℕ)
      → Grown p.tokens (token_found sha show show_id p u found nano now).0.tokens
  unfolding token_found
  token_found-Grown p u (some t) nano now = inl refl
  token_found-Grown p u none nano now = issue_default-Grown p u.username u.id nano now

  user_found-Grown :
      (p : Accounts) (found : Option User) (nano now : ℕ)
      → Grown p.tokens (user_found sha show show_id p found nano now).0.tokens
  unfolding user_found
  user_found-Grown p none nano now = inl refl
  user_found-Grown p (some u) nano now = token_found-Grown (spent p) u _ nano now

  call : Accounts → AccountCall → Accounts
  call p (registers username password nano now) =
      (register sha show show_id p username password nano now).0
  call p (registers_by_telegram tg_id first_name username hashed nano now) =
      (register_by_telegram sha show show_id p tg_id first_name username hashed nano now).0
  call p (authenticates username password nano now) =
      (authenticate sha show show_id p username password nano now).0
  call p (gets_user token) = (get_user_by_token p token).0
  call p (validates token) = (validate_token p token).0

  unfoldable pub calls : Accounts → List AccountCall → Accounts
  unfolding call
  calls p [] = p
  calls p (c ∷ cs) = calls (call p c) cs

  call-Grown : (p : Accounts) (c : AccountCall) → Grown p.tokens (call p c).tokens
  unfolding call register_by_telegram authenticate get_user_by_token validate_token
  call-Grown p (registers username password nano now) = register-Grown p username password nano now
  call-Grown p (registers_by_telegram tg_id first_name username hashed nano now) =
      telegram_found-Grown (spent p) tg_id first_name username _ hashed nano now
  call-Grown p (authenticates username password nano now) = user_found-Grown (spent p) _ nano now
  call-Grown p (gets_user token) = inl (ground arith)
  call-Grown p (validates token) = inl (ground arith)

  -- A row of the table of tokens is found behind any calls.
  pub calls_found :
      (p : Accounts) (cs : List AccountCall) (token : String) (row : Token)
      → find_token token p.tokens ≡ some row
      → find_token token (calls p cs).tokens ≡ some row
  unfolding calls
  calls_found p [] token row h = h
  calls_found p (c ∷ cs) token row h =
      calls_found (call p c) cs token row
        (Grown-found token p.tokens (call p c).tokens row (call-Grown p c) h)
