-- ===== src/Examples/Invites.antt =====
-- Two chats race for one invitation.
use nodepulse.Base.{◌≤◌, ◌≡◌, refl, none, List, [], ◌∷◌, arith, str_eq, false, true}
use nodepulse.Base.Int.{pos}
use nodepulse.Invite.{is_expired, Invite, Invites, create_invite, redeem_invite}
use nodepulse.Invite.Once.{Call, mint, redeem, step, successes, redeem_once}

abbrev invite : Invite
invite = record {
  token = "np_inv_1";
  created_by = pos 1;
  target_user_id = pos 0;
  auto_create_user = true;
  default_username = "";
  created_at = pos 0;
  expires_at = pos 500;
  redeemed_at = 0;
  redeemed_by_chat_id = pos 0;
}

-- The second statement of the driver fails.
abbrev no_invites : Invites
no_invites = record { rows = λ k. none; faults = false ∷ true ∷ [] }

abbrev race : List Call
race =
    mint invite 100
    ∷ redeem "np_inv_1" (pos 7) 200
    ∷ redeem "np_inv_1" (pos 8) 201
    ∷ redeem "np_inv_1" (pos 9) 202
    ∷ []

race_won : successes no_invites "np_inv_1" race ≡ 1
unfolding successes step create_invite redeem_invite str_eq is_expired
race_won = refl

redeem_once_example : successes no_invites "np_inv_1" race ≤ 1
redeem_once_example =
    redeem_once no_invites "np_inv_1" race (tt, (omega arith, (omega arith, (omega arith, tt))))
