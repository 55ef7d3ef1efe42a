-- ===== src/Accounts.antt =====
-- Users and tokens of pkg/store/sqlite.go: Register, RegisterByTelegram, Authenticate, GetUserByToken,
-- ValidateToken, IsMasterToken, HashPassword.
pub mod Telegram
pub mod Login
pub mod Tokens
pub mod History
pub mod Prefix
use nodepulse.Base.{
  String, ℕ, zero, suc, ◌+◌, ◌-◌, ◌*◌, ◌/◌, ◌%◌, ◌^◌, ◌≤◌, ◌<◌, ◌≡◌, refl, sym, ap, ◌∙◌, ◌≢◌, ◌↔◌,
  ◌⊎◌, inl, inr, Bool, true, false, not, ◌&&◌, ◌||◌, Option, none, some, List, [], ◌∷◌, ◌++◌, map,
  arith, ltb, leb, ◌==◌, if◌then◌else◌, ltb→lt, lt→ltb, leb→le, ==_iff, str_eq, str_eq_iff,
  str_eq_refl, Bool-cases, Option-cases, length, length-append, All, All-append, All-map, update,
  update_self, update_ne,
}
use nodepulse.Base.Int.{ℤ, eq_ℤ}
use nodepulse.Text.{is_empty}
use nodepulse.Store.{next_fault, later_faults}
use Prim.Native.String.{◌++◌ as join}

pub record User : Type 0 where
  pub id : ℕ
  pub username : String
  pub password_hash : String

pub record Token : Type 0 where
  pub token : String
  pub user_id : ℕ
  pub name : String
  pub created_at : ℕ

pub record TelegramUser : Type 0 where
  pub tg_id : ℤ
  pub user_id : ℕ
  pub tg_username : String
  pub tg_first_name : String

-- The tables, of user_settings only its keys, the id of the next user, the master token, and the
-- outcomes of the statements to come: `true` is an error of the driver.
pub record Accounts : Type 0 where
  pub users : List User
  pub next_id : ℕ
  pub settings : List ℕ
  pub tokens : List Token
  pub telegram : List TelegramUser
  pub master_token : String
  pub faults : List Bool

-- The errors, by the statement that met one.
pub data AccountError : Type 0 where
  username_exists settings_failed link_failed refresh_failed token_failed : AccountError
  invalid_credentials invalid_token : AccountError

abbrev pub fails : Accounts → Bool
fails p = next_fault p.faults

abbrev pub spent : Accounts → Accounts
spent p = record p { faults = later_faults p.faults }

unfoldable pub find_user : (User → Bool) → List User → Option User
find_user matches [] = none
find_user matches (u ∷ us) = let rest = find_user matches us in if matches u then some u else rest

unfoldable pub find_token : String → List Token → Option Token
find_token token [] = none
find_token token (t ∷ ts) =
    let rest = find_token token ts in if str_eq t.token token then some t else rest

unfoldable pub has_settings : ℕ → List ℕ → Bool
has_settings uid [] = false
has_settings uid (u ∷ us) = u == uid || has_settings uid us

abbrev pub is_some : {A : Type 0} → Option A → Bool
is_some none = false
is_some (some a) = true

-- INSERT INTO users; the username is unique.
unfoldable pub insert_user : Accounts → String → String → Accounts × Option ℕ
unfolding find_user
insert_user p username hash =
    if fails p || is_some (find_user (λ u. str_eq u.username username) p.users)
    then (spent p, none)
    else (
      record (spent p) {
        users =
            p.users ++ record { id = p.next_id; username = username; password_hash = hash } ∷ [];
        next_id = suc p.next_id;
      },
      some p.next_id,
    )

-- INSERT INTO user_settings; `true` without an error.
unfoldable pub insert_settings : Accounts → ℕ → Accounts × Bool
unfolding has_settings
insert_settings p uid =
    if fails p || has_settings uid p.settings
    then (spent p, false)
    else (record (spent p) { settings = p.settings ++ uid ∷ [] }, true)

-- INSERT INTO api_tokens; the token is the primary key.
unfoldable pub insert_token : Accounts → String → ℕ → String → ℕ → Accounts × Bool
unfolding find_token
insert_token p token uid name now =
    if fails p || is_some (find_token token p.tokens) then (spent p, false) else (
      record (spent p) {
        tokens =
            p.tokens ++ record { token = token; user_id = uid; name = name; created_at = now } ∷ [];
      },
      true,
    )

-- `s[:n]` of a text of ASCII characters that is long enough.
unfoldable pub cut : ℕ → String → String
cut zero s = ""
cut (suc n) String.[] = ""
cut (suc n) (String.◌∷◌ c s) = String.◌∷◌ c (cut n s)

-- `sha` is the hexadecimal text of the SHA-256 of a text, `show` a number in digits, `show_id` one with a
-- sign.
module _ (sha : String → String) (show : ℕ → String) (show_id : ℤ → String) where
  unfoldable pub hash_password : String → String
  hash_password password = sha password

  unfoldable pub default_token : String → ℕ → String
  default_token username nano =
      cut 36 (join "np_" (join username (join "_" (sha (join (show nano) (join "-" username))))))

  -- Behind the insertion of the token.
  unfoldable pub issued : ℕ → String → Accounts × Bool → Accounts × (AccountError ⊎ (ℕ × String))
  issued uid token (p, true) = (p, inr (uid, token))
  issued uid token (p, false) = (p, inl token_failed)

  unfoldable pub issue_default :
      Accounts → String → ℕ → ℕ → ℕ → Accounts × (AccountError ⊎ (ℕ × String))
  unfolding issued insert_token default_token
  issue_default p username uid nano now =
      issued uid (default_token username nano)
        (insert_token p (default_token username nano) uid "default" now)

  -- Behind the insertion of the user.
  unfoldable pub register_user :
      Accounts → String → Option ℕ → ℕ → ℕ → Accounts × (AccountError ⊎ (ℕ × String))
  unfolding issue_default insert_settings
  register_user p username none nano now = (p, inl username_exists)
  register_user p username (some uid) nano now =
      let (q, ok) = insert_settings p uid in
      let result = issue_default q username uid nano now in
      if ok then result else (q, inl settings_failed)

  -- `nano` is the reading of the clock for the token, `now` the one of the database.
  unfoldable pub register :
      Accounts → String → String → ℕ → ℕ → Accounts × (AccountError ⊎ (ℕ × String))
  unfolding register_user insert_user hash_password
  register p username password nano now =
      let (q, uid) = insert_user p username (hash_password password) in
      register_user q username uid nano now

-- A comparison in constant time is an equality.
unfoldable pub is_master_token : Accounts → String → Bool
is_master_token p token = str_eq token p.master_token

abbrev identity_of : Option User → Option (ℕ × String)
identity_of none = none
identity_of (some u) = some (u.id, u.username)

-- The join on the user of the token.
unfoldable pub owner_of : Accounts → Option Token → Option (ℕ × String)
unfolding find_user
owner_of p none = none
owner_of p (some t) = identity_of (find_user (λ u. u.id == t.user_id) p.users)

-- `none` is an invalid token.
unfoldable pub get_user_by_token : Accounts → String → Accounts × Option (ℕ × String)
unfolding is_master_token owner_of find_token
get_user_by_token p token =
    if is_master_token p token
    then (p, some (1, "admin"))
    else (spent p, if fails p then none else owner_of p (find_token token p.tokens))

unfoldable pub validate_token : Accounts → String → Accounts × Bool
unfolding is_master_token find_token
validate_token p token =
    if is_empty token
    then (p, false)
    else if is_master_token p token
    then (p, true)
    else (spent p, not (fails p) && is_some (find_token token p.tokens))
