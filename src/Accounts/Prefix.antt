-- ===== src/Accounts/Prefix.antt =====
-- The tokens that Register of pkg/store/sqlite.go issues for long usernames.
use nodepulse.Base.{
  ℕ, zero, suc, String, ◌≡◌, refl, sym, ap, ◌∙◌, ◌≢◌, inr, Bool, true, false, Option, none, some,
  List, arith,
}
use text.Mathlib.TextLemmas.{cons-append, nil-append}
use Prim.Native.String.{◌++◌ as join}
use nodepulse.Accounts.{Accounts, Token, find_token, cut, default_token, register, ℤ}
use nodepulse.Accounts.Tokens.{register-Added, found_token}
use nodepulse.Accounts.History.{AccountCall, calls, calls_found}

-- Whether a text has at least so many characters.
unfoldable pub is_long : ℕ → String → Bool
is_long zero s = true
is_long (suc n) String.[] = false
is_long (suc n) (String.◌∷◌ c s) = is_long n s

nothing_is_token : (t : Token) → ◌≡◌ {A = Option Token} none (some t) → ⊥
nothing_is_token t e = cc e

cut-join : (n : ℕ) (s t : String) → is_long n s ≡ true → cut n (join s t) ≡ cut n s
unfolding cut is_long
cut-join zero s t h = refl
cut-join (suc n) String.[] t h = absurd (ground (arith, h))
cut-join (suc n) (String.◌∷◌ c s) t h = rw cons-append (ap (String.◌∷◌ c) (cut-join n s t h))

np_text : (x : String) → join "np_" x ≡ String.◌∷◌ "n" (String.◌∷◌ "p" (String.◌∷◌ "_" x))
np_text x = rw (cons-append, cons-append, cons-append, nil-append) refl

cut_np : (x : String) → cut 36 (join "np_" x) ≡ join "np_" (cut 33 x)
unfolding cut
cut_np x = ap (cut 36) (np_text x) ∙ sym (np_text (cut 33 x))

module _ (sha : String → String) (show : ℕ → String) (show_id : ℤ → String) where
  -- The token of a long username is a part of it.
  long_token :
      (username : String) (nano : ℕ)
      → is_long 33 username ≡ true
      → default_token sha show show_id username nano ≡ join "np_" (cut 33 username)
  unfolding default_token
  long_token username nano h =
      cut_np (join username (join "_" (sha (join (show nano) (join "-" username)))))
      ∙ ap (join "np_")
          (cut-join 33 username (join "_" (sha (join (show nano) (join "-" username)))) h)

  -- If Register answers a username of 33 characters or more with a token, then, behind any calls of
  -- Register, RegisterByTelegram, Authenticate, GetUserByToken and ValidateToken, it answers no call for a
  -- username with the same first 33 characters with a token, whatever the passwords, the clock and the SQL
  -- statements that fail.
  pub shared_prefix_refused :
      (p : Accounts) (a b password other : String) (nano now uid nano' now' uid' : ℕ)
      (token token' : String) (cs : List AccountCall)
      → is_long 33 a ≡ true
      → is_long 33 b ≡ true
      → cut 33 a ≡ cut 33 b
      → (register sha show show_id p a password nano now).1 ≡ inr (uid, token)
      → (register sha show show_id
          (calls sha show show_id (register sha show show_id p a password nano now).0 cs)
          b
          other
          nano'
          now').1
        ≢ inr (uid', token')
  shared_prefix_refused p a b password other nano now uid nano' now' uid' token token' cs h k same e
        d =
      let q = (register sha show show_id p a password nano now).0 in
      let r = calls sha show show_id q cs in
      let first = register-Added sha show show_id p a password nano now uid token e in
      let second = register-Added sha show show_id r b other nano' now' uid' token' d in
      let tokens_same =
        first.text
        ∙ long_token a nano h
        ∙ ap (join "np_") same
        ∙ sym (long_token b nano' k)
        ∙ sym second.text in
      nothing_is_token first.row (
        sym second.fresh
        ∙ ap (λ t. find_token t r.tokens) (sym tokens_same)
        ∙ calls_found sha show show_id q cs token first.row
            (found_token sha show show_id p q a nano uid token first))
