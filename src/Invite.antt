-- ===== src/Invite.antt =====
-- CreateInvite, GetInvite and RedeemInvite of pkg/store/sqlite.go: one-time invitations.
pub mod Once
use nodepulse.Base.{
  ℕ, zero, suc, ◌+◌, ◌-◌, ◌*◌, ◌/◌, ◌%◌, ◌^◌, ◌≤◌, ◌<◌, String, ◌≡◌, refl, sym, ap, ◌∙◌, ◌≢◌, ◌↔◌,
  ◌⊎◌, inl, inr, Bool, true, false, not, ◌&&◌, ◌||◌, Option, none, some, List, [], ◌∷◌, ◌++◌, map,
  arith, ltb, leb, ◌==◌, if◌then◌else◌, ltb→lt, lt→ltb, leb→le, ==_iff, str_eq, str_eq_iff,
  str_eq_refl, Bool-cases, Option-cases, length, length-append, All, All-append, All-map, update,
  update_self, update_ne,
}
use nodepulse.Base.Int.{ℤ, pos, ltb_ℤ, eq_ℤ}
use nodepulse.Text.{is_empty}
use nodepulse.Store.{next_fault, later_faults}

pub record Invite : Type 0 where
  pub token : String
  pub created_by : ℤ
  pub target_user_id : ℤ
  pub auto_create_user : Bool
  pub default_username : String
  pub created_at : ℤ
  pub expires_at : ℤ
  pub redeemed_at : ℕ
  pub redeemed_by_chat_id : ℤ

-- The table by its primary key, the token, and the outcomes of the statements to come: `true` is an
-- error of the driver.
pub record Invites : Type 0 where
  pub rows : String → Option Invite
  pub faults : List Bool

abbrev pub used : Invites → Invites
used t = record t { faults = later_faults t.faults }

pub data Minted : Type 0 where
  minted : Invite → Minted
  no_token no_creator insert_failed : Minted

dated : Invite → ℕ → Invite
dated inv now = record inv {
  created_at = if eq_ℤ inv.created_at (pos 0) then pos now else inv.created_at;
}

-- INSERT leaves the two redemption columns at 0, and fails where the token is taken.
insert_invite : Invites → Invite → Option Invite → Invites × Minted
insert_invite t inv (some old) = (used t, insert_failed)
insert_invite t inv none = if next_fault t.faults then (used t, insert_failed) else (
  record (used t) {
    rows =
        update t.rows inv.token
          (some (record inv { redeemed_at = 0; redeemed_by_chat_id = pos 0 }));
  },
  minted inv,
)

unfoldable pub create_invite : Invites → Invite → ℕ → Invites × Minted
unfolding insert_invite dated
create_invite t inv now =
    if is_empty inv.token
    then (t, no_token)
    else if eq_ℤ inv.created_by (pos 0)
    then (t, no_creator)
    else insert_invite t (dated inv now) (t.rows inv.token)

-- The answers of RedeemInvite. `expired` also answers for an invite that this call redeemed.
pub data Redeemed : Type 0 where
  redeemed expired already_redeemed : Invite → Redeemed
  not_found empty_token failed : Redeemed

unfoldable pub is_expired : Invite → ℕ → Bool
is_expired inv now = ltb_ℤ (pos 0) inv.expires_at && ltb_ℤ inv.expires_at (pos now)

-- The read of the row after the UPDATE matched none.
lost : Invites → Option Invite → ℕ → Invites × Redeemed
lost t none now = (used t, if next_fault t.faults then failed else not_found)
lost t (some inv) now = (
  used t,
  if next_fault t.faults
      then failed
      else if is_expired inv now
      then expired inv
      else already_redeemed inv,
)

-- The UPDATE matched the row: it is read back.
won : Invites → Invite → ℕ → Invites × Redeemed
won t inv now = (
  used t,
  if next_fault t.faults then failed else if is_expired inv now then expired inv else redeemed inv,
)

claim_row : Invites → String → ℤ → ℕ → Option Invite → Invites × Redeemed
unfolding lost won
claim_row t token chat_id now none = lost t none now
claim_row t token chat_id now (some inv) =
    let inv' = record inv { redeemed_at = now; redeemed_by_chat_id = chat_id } in
    if inv.redeemed_at == 0
    then won (record t { rows = update t.rows token (some inv') }) inv' now
    else lost t (some inv) now

unfoldable pub redeem_invite : Invites → String → ℤ → ℕ → Invites × Redeemed
unfolding claim_row
redeem_invite t token chat_id now =
    if is_empty token
    then (t, empty_token)
    else if next_fault t.faults
    then (used t, failed)
    else claim_row (used t) token chat_id now (t.rows token)
