-- ===== src/Invite/Once.antt =====
-- Histories of CreateInvite and RedeemInvite of pkg/store/sqlite.go.
use nodepulse.Base.{
  ℕ, suc, ◌<◌, String, ◌≡◌, refl, inl, inr, Bool, true, false, ◌&&◌, Option, none, some, List, [],
  ◌∷◌, arith, ◌==◌, if◌then◌else◌, str_eq, str_eq_iff, Bool-cases, ◌≤◌, All,
}
use nodepulse.Base.Int.{ℤ, eq_ℤ, pos}
use nodepulse.Invite.{
  Invite, Invites, Redeemed, redeemed, expired, already_redeemed, not_found, empty_token, failed,
  create_invite, insert_invite, redeem_invite, claim_row, lost, won, dated, is_empty, next_fault,
  used,
}

pub data Call : Type 0 where
  mint : Invite → ℕ → Call
  redeem : String → ℤ → ℕ → Call

unfoldable pub step : Invites → Call → Invites
step t (mint inv now) = (create_invite t inv now).0
step t (redeem token chat_id now) = (redeem_invite t token chat_id now).0

abbrev is_redeemed : Redeemed → Bool
is_redeemed (redeemed inv) = true
is_redeemed (expired inv) = false
is_redeemed (already_redeemed inv) = false
is_redeemed not_found = false
is_redeemed empty_token = false
is_redeemed failed = false

-- The calls of RedeemInvite for a token that answer with success.
unfoldable pub successes : Invites → String → List Call → ℕ
successes t token [] = 0
successes t token (mint inv now ∷ cs) = successes (step t (mint inv now)) token cs
successes t token (redeem k chat_id now ∷ cs) =
    let rest = successes (step t (redeem k chat_id now)) token cs in
    if str_eq k token && is_redeemed (redeem_invite t k chat_id now).1 then suc rest else rest

-- The clock of a call is past 0.
abbrev pub IsDated : Call → Type 0
IsDated (mint inv now) = Unit
IsDated (redeem token chat_id now) = 0 < now

-- The row of a token is taken, with this row.
record Taken (t : Invites) (token : String) (inv : Invite) : Type 0 where
  row : t.rows token ≡ some inv
  at : 0 < inv.redeemed_at

insert-Taken :
    (t : Invites) (token : String) (inv new : Invite) (o : Option Invite)
    → t.rows new.token ≡ o
    → Taken t token inv
    → (insert_invite t new o).0.rows token ≡ some inv
unfolding insert_invite
insert-Taken t token inv new (some old) e h = h.row
insert-Taken t token inv new none e h = grind (arith, str_eq_iff new.token token, h.row, e)

lost_rows : (t : Invites) (o : Option Invite) (now : ℕ) → (lost t o now).0.rows ≡ t.rows
unfolding lost
lost_rows t none now = refl
lost_rows t (some inv) now = refl

lost_not : (t : Invites) (o : Option Invite) (now : ℕ) → is_redeemed (lost t o now).1 ≡ false
unfolding lost
lost_not t none now = ground arith
lost_not t (some inv) now = ground arith

mint-Taken :
    (t : Invites) (token : String) (inv new : Invite) (now : ℕ)
    → Taken t token inv
    → (create_invite t new now).0.rows token ≡ some inv
unfolding create_invite dated
mint-Taken t token inv new now h = elim (Bool-cases (is_empty new.token)) [
  | inl bad ↦ rw bad h.row
  | inr good ↦ elim (Bool-cases (eq_ℤ new.created_by (pos 0))) [
    | inl nobody ↦ rw (good, nobody) h.row
    | inr user ↦
        rw (good, user) (insert-Taken t token inv (dated new now) (t.rows new.token) refl h)
  ]
]

won_rows : (t : Invites) (inv : Invite) (now : ℕ) → (won t inv now).0.rows ≡ t.rows
unfolding won
won_rows t inv now = refl

same_row :
    (t : Invites) (token k : String) (inv old : Invite)
    → str_eq k token ≡ true
    → t.rows k ≡ some old
    → Taken t token inv
    → old.redeemed_at ≡ inv.redeemed_at
same_row t token k inv old same e h = grind (arith, str_eq_iff k token, same, e, h.row)

claim-Taken :
    (t : Invites) (token k : String) (inv : Invite) (chat_id : ℤ) (now : ℕ) (o : Option Invite)
    → t.rows k ≡ o
    → Taken t token inv
    → ((claim_row t k chat_id now o).0.rows token ≡ some inv)
      × ((str_eq k token && is_redeemed (claim_row t k chat_id now o).1) ≡ false)
unfolding claim_row
claim-Taken t token k inv chat_id now none e h =
    (rw (lost_rows t none now) h.row, rw (lost_not t none now) (ground arith))
claim-Taken t token k inv chat_id now (some old) e h = elim (Bool-cases (old.redeemed_at == 0)) [
  | inr late ↦
      rw late (rw (lost_rows t (some old) now) h.row, rw (lost_not t (some old) now) (ground arith))
  | inl first ↦ elim (Bool-cases (str_eq k token)) [
    | inl same ↦ ground (arith, first, h.at, same_row t token k inv old same e h)
    | inr other ↦ rw (first, other) (h.row, refl)
  ]
]

redeem-Taken :
    (t : Invites) (token k : String) (inv : Invite) (chat_id : ℤ) (now : ℕ)
    → Taken t token inv
    → ((redeem_invite t k chat_id now).0.rows token ≡ some inv)
      × ((str_eq k token && is_redeemed (redeem_invite t k chat_id now).1) ≡ false)
unfolding redeem_invite
redeem-Taken t token k inv chat_id now h = elim (Bool-cases (is_empty k)) [
  | inl bad ↦ rw bad (h.row, ground arith)
  | inr good ↦ elim (Bool-cases (next_fault t.faults)) [
    | inl f ↦ rw (good, f) (h.row, ground arith)
    | inr f ↦
        rw (good, f)
          (claim-Taken (used t) token k inv chat_id now (t.rows k) refl
            (record { row = h.row; at = h.at }))
  ]
]

step-Taken :
    (t : Invites) (token : String) (inv : Invite) (c : Call)
    → Taken t token inv
    → Taken (step t c) token inv
unfolding step
step-Taken t token inv (mint new now) h = record {
  row = mint-Taken t token inv new now h;
  at = h.at;
}
step-Taken t token inv (redeem k chat_id now) h = record {
  row = (redeem-Taken t token k inv chat_id now h).0;
  at = h.at;
}

Taken-none :
    (t : Invites) (token : String) (inv : Invite) (cs : List Call)
    → Taken t token inv
    → successes t token cs ≡ 0
unfolding successes
Taken-none t token inv [] h = refl
Taken-none t token inv (mint new now ∷ cs) h =
    Taken-none (step t (mint new now)) token inv cs (step-Taken t token inv (mint new now) h)
Taken-none t token inv (redeem k chat_id now ∷ cs) h =
    rw ((redeem-Taken t token k inv chat_id now h).1) (
      Taken-none (step t (redeem k chat_id now)) token inv cs
        (step-Taken t token inv (redeem k chat_id now) h))

-- A call that answers with success leaves a row that is taken.
claim_takes :
    (t : Invites) (token k : String) (chat_id : ℤ) (now : ℕ) (o : Option Invite)
    → 0 < now
    → str_eq k token ≡ true
    → is_redeemed (claim_row t k chat_id now o).1 ≡ true
    → (inv : Invite) × Taken (claim_row t k chat_id now o).0 token inv
unfolding claim_row won lost
claim_takes t token k chat_id now none g m e = ground (arith, e)
claim_takes t token k chat_id now (some old) g m e = elim (Bool-cases (old.redeemed_at == 0)) [
  | inr late ↦ ground (arith, lost_not t (some old) now, (rw late at e))
  | inl first ↦ (
    record old { redeemed_at = now; redeemed_by_chat_id = chat_id },
    rw first (record { row = rw m refl; at = g }),
  )
]

redeem_takes :
    (t : Invites) (token k : String) (chat_id : ℤ) (now : ℕ)
    → 0 < now
    → str_eq k token ≡ true
    → is_redeemed (redeem_invite t k chat_id now).1 ≡ true
    → (inv : Invite) × Taken (redeem_invite t k chat_id now).0 token inv
unfolding redeem_invite
redeem_takes t token k chat_id now g m e = elim (Bool-cases (is_empty k)) [
  | inl bad ↦ ground (arith, bad, e)
  | inr good ↦ elim (Bool-cases (next_fault t.faults)) [
    | inl f ↦ ground (arith, good, f, e)
    | inr f ↦
        rw (good, f) (claim_takes (used t) token k chat_id now (t.rows k) g m (rw (good, f) at e))
  ]
]

both : (a b : Bool) → (a && b) ≡ true → (a ≡ true) × (b ≡ true)
both a b h = ground (arith, h)

-- In any history of CreateInvite and RedeemInvite on a clock past 0, from any table and whichever SQL
-- statements fail, at most one call of RedeemInvite for a token answers with success.
pub redeem_once :
    (t : Invites) (token : String) (cs : List Call) → All IsDated cs → successes t token cs ≤ 1
unfolding successes step
redeem_once t token [] h = omega arith
redeem_once t token (mint new now ∷ cs) h = redeem_once (step t (mint new now)) token cs h.1
redeem_once t token (redeem k chat_id now ∷ cs) h =
    elim (Bool-cases (str_eq k token && is_redeemed (redeem_invite t k chat_id now).1)) [
      | inr lost_ ↦ rw lost_ (redeem_once (step t (redeem k chat_id now)) token cs h.1)
      | inl won_ ↦
          let parts = both (str_eq k token) (is_redeemed (redeem_invite t k chat_id now).1) won_ in
          let row = redeem_takes t token k chat_id now h.0 parts.0 parts.1 in
          rw (won_, Taken-none (step t (redeem k chat_id now)) token row.0 cs row.1) (omega arith)
    ]
