-- ===== src/Examples/Logins.antt =====
-- Users with short and with long names.
use nodepulse.Base.{
  String, ℕ, ◌≡◌, refl, ◌≢◌, inr, true, some, [], ◌==◌, if◌then◌else◌, str_eq, List, ◌∷◌,
}
use nodepulse.Base.Int.{ℤ}
use nodepulse.Accounts.{
  Accounts, register, register_user, insert_user, find_user, find_token, has_settings,
  insert_settings, insert_token, issue_default, issued, hash_password, default_token, cut,
  is_master_token, validate_token, get_user_by_token,
}
use nodepulse.Accounts.Tokens.{register_accepted}
use nodepulse.Accounts.History.{AccountCall, registers, validates, calls}
use nodepulse.Accounts.Prefix.{is_long, shared_prefix_refused}

-- Not a hash, but a text of 64 characters.
abbrev zeros : String → String
zeros s = "0000000000000000000000000000000000000000000000000000000000000000"

abbrev one_digit : ℕ → String
one_digit n = if n == 1 then "1" else "2"

abbrev no_digit : ℤ → String
no_digit z = "7"

abbrev nobody : Accounts
nobody = record {
  users = [];
  next_id = 2;
  settings = [];
  tokens = [];
  telegram = [];
  master_token = "master";
  faults = [];
}

ann_token :
    (register zeros one_digit no_digit nobody "ann" "pw" 1 1).1
    ≡ inr (2, "np_ann_00000000000000000000000000000")
unfolding register register_user insert_user find_user find_token has_settings insert_settings
    insert_token issue_default issued hash_password default_token cut
ann_token = refl

register_accepted_example :
    ((validate_token
        (register zeros one_digit no_digit nobody "ann" "pw" 1 1).0
        "np_ann_00000000000000000000000000000").1
      ≡ true)
    × ((get_user_by_token
          (register zeros one_digit no_digit nobody "ann" "pw" 1 1).0
          "np_ann_00000000000000000000000000000").1
        ≡ some (2, "ann"))
unfolding is_master_token str_eq register register_user insert_user find_user find_token
    has_settings insert_settings insert_token issue_default issued hash_password default_token cut
register_accepted_example =
    register_accepted zeros one_digit no_digit nobody "ann" "pw" 1 1 2
      "np_ann_00000000000000000000000000000" tt refl refl refl

abbrev mail : String
mail = "administrator@monitoring.example.com"

abbrev other_mail : String
other_mail = "administrator@monitoring.example.org"

-- The token of a long name holds nothing of the hash.
mail_token :
    (register zeros one_digit no_digit nobody mail "pw" 1 1).1
    ≡ inr (2, "np_administrator@monitoring.example.")
unfolding register register_user insert_user find_user find_token has_settings insert_settings
    insert_token issue_default issued hash_password default_token cut
mail_token = refl

abbrev between : List AccountCall
between = registers "ann" "pw" 2 2 ∷ validates "np_x" ∷ []

shared_prefix_refused_example :
    (register zeros one_digit no_digit
      (calls zeros one_digit no_digit
        (register zeros one_digit no_digit nobody mail "pw" 1 1).0
        between)
      other_mail
      "pw2"
      3
      3).1
    ≢ inr (4, "np_administrator@monitoring.example.")
unfolding is_long cut
shared_prefix_refused_example =
    shared_prefix_refused zeros one_digit no_digit nobody mail other_mail "pw" "pw2" 1 1 2 3 3 4
      "np_administrator@monitoring.example." "np_administrator@monitoring.example." between refl
      refl refl mail_token
