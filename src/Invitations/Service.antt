-- ===== src/Invitations/Service.antt =====
-- `withdraw`, `accept`, `decline` and `leave` of src/app/services/SharedInvitationService.ts. The users
-- and the groups are read only; `rivals` is what other requests write between the first reads of a
-- call and its write.
use lag_money_manager.Prelude.{
  ℕ, Bool, true, false, not, ◌&&◌, ◌||◌, Option, none, some, is_some, is_none, List, ◌==◌, any,
  same_id, if◌then◌else◌, or_default,
}
use lag_money_manager.Errors.{
  Result, ok, err, ◌>>=◌, ◌>>◌, throw_if, Error, api, no_code, not_found, bad_request, forbidden,
  invitation_unavailable, email_not_verified, invitation_to_self, currency_mismatch,
  participant_already_in_group,
}
use lag_money_manager.Invitations.{
  SharedInvitation, InvitationStatus, accepted, declined, is_accepted, is_declined, is_left,
  is_answerable, get_by_id, answer, withdraw, leave, has_joined,
}

-- The fields of `User` that an invitation reads.
pub record User : Type 0 where
  pub id : ℕ
  pub email : ℕ
  pub email_verified_at : Option ℕ
  pub currency : ℕ

-- The fields of `SharedGroup` that an invitation reads.
pub record SharedGroup : Type 0 where
  pub user_id : ℕ
  pub archived_at : Option ℕ
  pub participants : List ℕ

pub record Directory : Type 0 where
  pub users : ℕ → Option User
  pub groups : ℕ → Option SharedGroup
  pub require_confirmed_email : Bool

-- `unavailable()`, `notVerified()` and a plain 404
abbrev pub unavailable : Error
unavailable = api bad_request invitation_unavailable

abbrev pub not_verified : Error
not_verified = api forbidden email_not_verified

abbrev pub missing : Error
missing = api not_found no_code

-- `if (!x) throw e;` on what was read.
abbrev pub or_throw {ℓ} : {A : Type ℓ} → Error → Option A → Result A
or_throw e none = err e
or_throw e (some a) = ok a

abbrev pub answered_by : User → Option SharedInvitation → Bool
answered_by me none = false
answered_by me (some i) = same_id i.invitee_id (some me.id)

abbrev pub is_mine : User → SharedInvitation → Bool
is_mine me i = same_id i.invitee_id (some me.id) || ((i.email == me.email) && is_none i.invitee_id)

-- `addressedToMe`
unfoldable pub addressed_to_me :
    Directory → ℕ → User → List SharedInvitation → Result SharedInvitation
addressed_to_me d id me is = do
  throw_if
      (not (answered_by me (get_by_id id is))
        && d.require_confirmed_email
        && is_none me.email_verified_at)
      not_verified
  i ← or_throw missing (get_by_id id is)
  throw_if (not (is_mine me i)) missing
  throw_if (i.user_id == me.id) (api bad_request invitation_to_self)
  ok i

-- `settledAs`
abbrev pub settled_as : (InvitationStatus → Bool) → User → SharedInvitation → Bool
settled_as status me i = status i.status && same_id i.invitee_id (some me.id)

-- A write that must have found its row.
abbrev pub written :
    Option SharedInvitation × List SharedInvitation
    → Result (SharedInvitation × List SharedInvitation)
written (none, after) = err unavailable
written (some i, after) = ok (i, after)

-- `!group || group.archivedAt || !group.participants.some(...)`
abbrev pub no_seat : ℕ → Option SharedGroup → Bool
no_seat contact none = true
no_seat contact (some group) =
    is_some group.archived_at || not (any (λ p. p == contact) group.participants)

-- The database transaction of `accept`.
unfoldable pub join :
    Directory
    → ℕ
    → ℕ
    → User
    → SharedInvitation
    → List SharedInvitation
    → Result (SharedInvitation × List SharedInvitation)
join d now id me i is = do
  throw_if (no_seat i.contact_id (d.groups i.group_id)) unavailable
  throw_if (has_joined i.group_id me.id is) (api bad_request participant_already_in_group)
  written (answer now id accepted me.id is)

module _ (d : Directory) (now id user_id : ℕ)
    (rivals : List SharedInvitation → List SharedInvitation) where
  -- What `accept` does when it has not been accepted before.
  unfoldable pub accept_new :
      User
      → SharedInvitation
      → List SharedInvitation
      → Result (SharedInvitation × List SharedInvitation)
  accept_new me i is = do
    throw_if (not (is_answerable now i)) unavailable
    throw_if (is_none (d.users i.user_id)) unavailable
    throw_if (not (i.group_currency == me.currency)) (api bad_request currency_mismatch)
    join d now id me i (rivals is)

  -- `accept`
  unfoldable pub accept : List SharedInvitation → Result (SharedInvitation × List SharedInvitation)
  accept is = do
    me ← or_throw missing (d.users user_id)
    i ← addressed_to_me d id me is
    if settled_as is_accepted me i then ok (i, is) else accept_new me i is

  -- `decline`
  unfoldable pub decline : List SharedInvitation → Result (SharedInvitation × List SharedInvitation)
  decline is = do
    me ← or_throw missing (d.users user_id)
    i ← addressed_to_me d id me is
    if settled_as is_declined me i
        then ok (i, is)
        else written (answer now id declined me.id (rivals is))

  -- `leave`
  unfoldable pub leave_group :
      List SharedInvitation → Result (SharedInvitation × List SharedInvitation)
  leave_group is = do
    i ← or_throw missing (get_by_id id is)
    throw_if (not (same_id i.invitee_id (some user_id))) missing
    if is_left i.status then ok (i, is) else written (leave now id user_id (rivals is))

  -- `sentView(withdrawn)`, or else the row as it is after the write.
  abbrev pub withdrawn_or_current :
      SharedInvitation
      → Option SharedInvitation × List SharedInvitation
      → SharedInvitation × List SharedInvitation
  withdrawn_or_current existing (some i, after) = (i, after)
  withdrawn_or_current existing (none, after) = (or_default (get_by_id id after) existing, after)

  -- `withdraw`, of an invitation to a group
  unfoldable pub withdraw_sent :
      ℕ → List SharedInvitation → Result (SharedInvitation × List SharedInvitation)
  withdraw_sent group_id is = do
    existing ← or_throw missing (get_by_id id is)
    throw_if (not (existing.user_id == user_id) || not (existing.group_id == group_id)) missing
    ok (withdrawn_or_current existing (withdraw now id (rivals is)))
