-- ===== src/Accounts/Tokens.antt =====
-- The tokens that Register issues.
use nodepulse.Base.{
  String, ℕ, ◌<◌, ◌≡◌, refl, sym, ap, ◌⊎◌, inl, inr, false, ◌||◌, Option, none, some, List, [], ◌∷◌,
  ◌++◌, arith, ◌==◌, str_eq_refl, Bool-cases, All, suc, ◌∙◌, true, str_eq,
}
use nodepulse.Base.Int.{ℤ}
use nodepulse.Text.{is_empty}
use mathlib.Core.Path.{subst}
use text.Mathlib.TextLemmas.{cons-append}
use nodepulse.Accounts.{
  Accounts, User, Token, settings_failed, token_failed, fails, spent, find_user, find_token,
  has_settings, is_some, insert_settings, insert_token, cut, default_token, issue_default, issued,
  register_user, validate_token, register, get_user_by_token, insert_user, is_master_token,
  username_exists, hash_password, owner_of,
}

find_token_last :
    (ts : List Token) (t : Token)
    → find_token t.token ts ≡ none
    → find_token t.token (ts ++ t ∷ []) ≡ some t
unfolding find_token
find_token_last [] t h = rw (str_eq_refl t.token) refl
find_token_last (s ∷ ts) t h = ground (arith, h, find_token_last ts t)

find_user_last :
    (us : List User) (u : User) (n : ℕ)
    → All (λ v. v.id < n) us
    → u.id ≡ n
    → find_user (λ v. v.id == n) (us ++ u ∷ []) ≡ some u
unfolding find_user
find_user_last [] u n h e = ground (arith, e)
find_user_last (v ∷ us) u n h e = ground (arith, h.0, find_user_last us u n h.1 e)

is_some-none : {A : Type 0} (o : Option A) → is_some o ≡ false → o ≡ none
is_some-none none h = refl
is_some-none (some a) h = absurd (ground (arith, h))

refused : {A B : Type 0} (a : A) (b : B) → ◌≡◌ {A = A ⊎ B} (inl a) (inr b) → ⊥
refused a b e = cc e

given : {A B : Type 0} (a b : B) → ◌≡◌ {A = A ⊎ B} (inr a) (inr b) → a ≡ b
given a b e = cc e

abbrev new_user : ℕ → String → String → User
new_user id username hash = record { id = id; username = username; password_hash = hash }

owner_known :
    (q : Accounts) (t : Token) (u : User) (n : ℕ)
    → t.user_id ≡ n
    → find_user (λ v. v.id == n) q.users ≡ some u
    → owner_of q (some t) ≡ some (u.id, u.username)
unfolding owner_of
owner_known q t u n e h = rw (e, h) refl

module _ (sha : String → String) (show : ℕ → String) (show_id : ℤ → String) where
  -- The tables behind a token that was issued.
  record Issued (p : Accounts) (username : String) (nano uid uid' : ℕ) (token : String)
      (q : Accounts) : Type 0 where
    row : Token
    tokens : q.tokens ≡ p.tokens ++ row ∷ []
    users : q.users ≡ p.users
    owned : row.user_id ≡ uid
    own_token : row.token ≡ token
    same_id : uid' ≡ uid
    text : token ≡ default_token sha show show_id username nano
    fresh : find_token token p.tokens ≡ none
    master : q.master_token ≡ p.master_token

  default_token_text :
      (username : String) (nano : ℕ)
      → is_empty (default_token sha show show_id username nano) ≡ false
  unfolding default_token cut
  default_token_text username nano = rw cons-append refl

  not_there :
      (p : Accounts) (token : String)
      → (fails p || is_some (find_token token p.tokens)) ≡ false
      → find_token token p.tokens ≡ none
  not_there p token h = is_some-none (find_token token p.tokens) (ground (arith, h))

  issue-Issued :
      (p : Accounts) (username : String) (uid nano now uid' : ℕ) (token : String)
      → (issue_default sha show show_id p username uid nano now).1 ≡ inr (uid', token)
      → Issued p username nano uid uid' token
          (issue_default sha show show_id p username uid nano now).0
  unfolding issue_default issued insert_token
  issue-Issued p username uid nano now uid' token e =
      elim (Bool-cases
        (fails p || is_some (find_token (default_token sha show show_id username nano) p.tokens))) [
          | inl bad ↦ absurd (refused token_failed (uid', token) (rw bad at e))
          | inr good ↦
              let same =
                given (uid, default_token sha show show_id username nano) (uid', token)
                  (rw good at e) in
              rw good (record {
                row = record {
                  token = default_token sha show show_id username nano;
                  user_id = uid;
                  name = "default";
                  created_at = now;
                };
                tokens = refl;
                users = refl;
                owned = refl;
                own_token = ap (λ x. x.1) same;
                same_id = sym (ap (λ x. x.0) same);
                text = sym (ap (λ x. x.1) same);
                fresh =
                    rw (sym (ap (λ x. x.1) same))
                      (not_there p (default_token sha show show_id username nano) good);
                master = refl;
              })
        ]

  -- Behind the insertion of the user.
  user-Issued :
      (p : Accounts) (username : String) (uid nano now uid' : ℕ) (token : String)
      → (register_user sha show show_id p username (some uid) nano now).1 ≡ inr (uid', token)
      → Issued p username nano uid uid' token
          (register_user sha show show_id p username (some uid) nano now).0
  unfolding register_user insert_settings
  user-Issued p username uid nano now uid' token e =
      elim (Bool-cases (fails p || has_settings uid p.settings)) [
        | inl bad ↦ absurd (refused settings_failed (uid', token) (rw bad at e))
        | inr good ↦
            let i =
              issue-Issued (record (spent p) { settings = p.settings ++ uid ∷ [] }) username uid
                nano now uid' token (rw good at e) in
            rw good (record {
              row = i.row;
              tokens = i.tokens;
              users = i.users;
              owned = i.owned;
              own_token = i.own_token;
              same_id = i.same_id;
              text = i.text;
              fresh = i.fresh;
              master = i.master;
            })
      ]

  -- The tables behind a Register that answers with an id and a token.
  pub record Added (p : Accounts) (username : String) (nano uid : ℕ) (token : String) (q : Accounts)
      : Type 0 where
    user : User
    pub row : Token
    users : q.users ≡ p.users ++ user ∷ []
    pub tokens : q.tokens ≡ p.tokens ++ row ∷ []
    named : user.username ≡ username
    numbered : user.id ≡ p.next_id
    owned : row.user_id ≡ p.next_id
    pub own_token : row.token ≡ token
    same_id : uid ≡ p.next_id
    pub text : token ≡ default_token sha show show_id username nano
    pub fresh : find_token token p.tokens ≡ none
    master : q.master_token ≡ p.master_token

  pub register-Added :
      (p : Accounts) (username password : String) (nano now uid : ℕ) (token : String)
      → (register sha show show_id p username password nano now).1 ≡ inr (uid, token)
      → Added p username nano uid token (register sha show show_id p username password nano now).0
  unfolding register insert_user
  register-Added p username password nano now uid token e =
      elim (Bool-cases (fails p || is_some (find_user (λ u. str_eq u.username username) p.users))) [
        | inl bad ↦ absurd (nobody (spent p) (rw bad at e))
        | inr good ↦
            let user = new_user p.next_id username (hash_password sha show show_id password) in
            let i =
              user-Issued
                (record (spent p) { users = p.users ++ user ∷ []; next_id = suc p.next_id })
                username p.next_id nano now uid token (rw good at e) in
            rw good (record {
              user = user;
              row = i.row;
              users = i.users;
              tokens = i.tokens;
              named = refl;
              numbered = refl;
              owned = i.owned;
              own_token = i.own_token;
              same_id = i.same_id;
              text = i.text;
              fresh = i.fresh;
              master = i.master;
            })
      ]
    where
      nobody :
          (q : Accounts)
          → (register_user sha show show_id q username none nano now).1 ≡ inr (uid, token)
          → ⊥
      nobody q d = refused username_exists (uid, token) d

  pub found_token :
      (p q : Accounts) (username : String) (nano uid : ℕ) (token : String)
      (a : Added p username nano uid token q)
      → find_token token q.tokens ≡ some a.row
  found_token p q username nano uid token a = rw a.tokens (
      subst (λ t. find_token t (p.tokens ++ a.row ∷ []) ≡ some a.row) a.own_token
        (find_token_last p.tokens a.row (rw a.own_token a.fresh)))

  -- If Register answers with an id and a token, on a table of users with ids below the next one, and the
  -- token is not the master token, then ValidateToken accepts the token, and GetUserByToken answers it with
  -- that id and that username, where the query meets no error.
  pub register_accepted :
      (p : Accounts) (username password : String) (nano now uid : ℕ) (token : String)
      → All (λ u. u.id < p.next_id) p.users
      → (register sha show show_id p username password nano now).1 ≡ inr (uid, token)
      → is_master_token p token ≡ false
      → fails (register sha show show_id p username password nano now).0 ≡ false
      → ((validate_token (register sha show show_id p username password nano now).0 token).1 ≡ true)
        × ((get_user_by_token (register sha show show_id p username password nano now).0 token).1
            ≡ some (uid, username))
  unfolding validate_token get_user_by_token is_master_token owner_of
  register_accepted p username password nano now uid token h e m f =
      let q = (register sha show show_id p username password nano now).0 in
      let a = register-Added p username password nano now uid token e in
      let k = found_token p q username nano uid token a in
      let t : is_empty token ≡ false = rw a.text (default_token_text username nano) in
      let u = find_user_last p.users a.user p.next_id h a.numbered in
      (
        rw (t, a.master, m, f, k) refl,
        rw (a.master, m, f, k)
            (owner_known q a.row a.user p.next_id a.owned (rw a.users u)
              ∙ rw (a.numbered, a.named, a.same_id) refl),
      )
