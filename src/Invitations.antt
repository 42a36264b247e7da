-- ===== src/Invitations.antt =====
-- src/domain/entities/SharedInvitation.ts and
-- src/infrastructure/repositories/sharedInvitation/SharedInvitationRepository.ts: an invitation of a
-- contact to a group, from its opening to its answer and its end. `is_open`, the field `open`, marks the row that a unique
-- index allows once for a group and a contact. Emails are only compared, so they are numbers.

pub mod Open
pub mod Service
pub mod Joined
mod Tests
use lag_money_manager.Prelude.{
  ℕ, suc, Bool, true, false, ◌&&◌, ◌||◌, Option, none, some, List, [], ◌∷◌, ◌==◌, any, same_id, ltb,
  leb, if◌then◌else◌,
}
use lag_money_manager.Errors.{Result, ok, err, plain}

-- `INVITATION_STATUSES`
pub data InvitationStatus : Type 0 where
  pending accepted declined withdrawn left : InvitationStatus

pub record SharedInvitation : Type 0 where
  pub id : ℕ
  pub user_id : ℕ
  pub group_id : ℕ
  pub contact_id : ℕ
  pub email : ℕ
  pub status : InvitationStatus
  pub expires_at : ℕ
  pub invitee_id : Option ℕ
  pub answered_at : Option ℕ
  pub withdrawn_at : Option ℕ
  pub left_at : Option ℕ
  pub group_currency : ℕ
  pub is_open : Bool

abbrev pub is_pending : InvitationStatus → Bool
is_pending pending = true
is_pending _ = false

abbrev pub is_accepted : InvitationStatus → Bool
is_accepted accepted = true
is_accepted _ = false

abbrev pub is_declined : InvitationStatus → Bool
is_declined declined = true
is_declined _ = false

abbrev pub is_left : InvitationStatus → Bool
is_left left = true
is_left _ = false

-- `isAnswerable`
abbrev pub is_answerable : ℕ → SharedInvitation → Bool
is_answerable now i = is_pending i.status && ltb now i.expires_at

-- `LIVE.includes(status)`
abbrev pub is_live : InvitationStatus → Bool
is_live status = is_pending status || is_accepted status

-- A row of a group and a contact that is open.
abbrev pub is_open_for : ℕ → ℕ → SharedInvitation → Bool
is_open_for group contact i = (i.group_id == group) && (i.contact_id == contact) && i.is_open

-- `findOne`
unfoldable pub find : (SharedInvitation → Bool) → List SharedInvitation → Option SharedInvitation
find p [] = none
find p (i ∷ is) = let rest = find p is in if p i then some i else rest

-- `findOneAndUpdate`: the first row that passes is written.
unfoldable pub update_one :
    (SharedInvitation → Bool)
    → (SharedInvitation → SharedInvitation)
    → List SharedInvitation
    → List SharedInvitation
update_one p change [] = []
update_one p change (i ∷ is) =
    let rest = update_one p change is in if p i then change i ∷ is else i ∷ rest

-- `updateMany`
unfoldable pub update_many :
    (SharedInvitation → Bool)
    → (SharedInvitation → SharedInvitation)
    → List SharedInvitation
    → List SharedInvitation
update_many p change [] = []
update_many p change (i ∷ is) =
    let rest = update_many p change is in if p i then change i ∷ rest else i ∷ rest

abbrev pub changed :
    Option SharedInvitation → (SharedInvitation → SharedInvitation) → Option SharedInvitation
changed none change = none
changed (some i) change = some (change i)

-- `$unset: { open: "" }`
abbrev pub closed : SharedInvitation → SharedInvitation
closed i = record i { is_open = false }

-- `getById`
abbrev pub get_by_id : ℕ → List SharedInvitation → Option SharedInvitation
get_by_id id is = find (λ i. i.id == id) is

-- `findLive`
abbrev pub find_live : ℕ → ℕ → List SharedInvitation → Option SharedInvitation
find_live group contact is = find (is_open_for group contact) is

-- `countWaitingBy`
unfoldable pub count_waiting_by : ℕ → ℕ → List SharedInvitation → ℕ
count_waiting_by user now [] = 0
count_waiting_by user now (i ∷ is) =
    let rest = count_waiting_by user now is in
    if (i.user_id == user) && is_answerable now i then suc rest else rest

-- The rows of a pair that are open, wait, and have expired.
abbrev pub is_expired_open : ℕ → ℕ → ℕ → SharedInvitation → Bool
is_expired_open now group contact i =
    is_open_for group contact i && is_pending i.status && leb i.expires_at now

-- What `openOne` inserts.
abbrev pub opened : SharedInvitation → SharedInvitation
opened i = record i { is_open = true; invitee_id = none }

-- The upsert of `openOne`: a row is added unless one is open. The flag says whether.
abbrev pub upsert_open : SharedInvitation → List SharedInvitation → Bool × List SharedInvitation
upsert_open i is =
    if any (is_open_for i.group_id i.contact_id) is then (false, is) else (true, opened i ∷ is)

-- `OpenInvitationResult`
abbrev pub OpenInvitationResult : Type 0
OpenInvitationResult = SharedInvitation × Bool

abbrev pub live_or_vanished : Bool → Option SharedInvitation → Result OpenInvitationResult
live_or_vanished created none = err plain
live_or_vanished created (some i) = ok (i, created)

abbrev pub read_open :
    SharedInvitation
    → (List SharedInvitation → List SharedInvitation)
    → Bool × List SharedInvitation
    → Result OpenInvitationResult × List SharedInvitation
read_open i others (created, is) =
    (live_or_vanished created (find_live i.group_id i.contact_id (others is)), others is)

-- `openOne`: what has expired is closed, a row is added unless one is open, and the open row is read.
-- `others` is what is written before that read. The unique index refuses an upsert that lost a race,
-- which is one that finds an open row.
unfoldable pub open_one :
    ℕ
    → SharedInvitation
    → (List SharedInvitation → List SharedInvitation)
    → List SharedInvitation
    → Result OpenInvitationResult × List SharedInvitation
open_one now i others is =
    let kept = update_many (is_expired_open now i.group_id i.contact_id) closed is in
    read_open i others (upsert_open i kept)

-- What `answer` writes.
abbrev pub answered : ℕ → InvitationStatus → ℕ → SharedInvitation → SharedInvitation
answered now status invitee i = record i {
  status = status;
  invitee_id = some invitee;
  answered_at = some now;
  is_open = is_accepted status && i.is_open;
}

abbrev pub can_answer : ℕ → ℕ → SharedInvitation → Bool
can_answer now id i = (i.id == id) && is_answerable now i

-- `answer`
unfoldable pub answer :
    ℕ
    → ℕ
    → InvitationStatus
    → ℕ
    → List SharedInvitation
    → Option SharedInvitation × List SharedInvitation
answer now id status invitee is = (
  changed (find (can_answer now id) is) (answered now status invitee),
  update_one (can_answer now id) (answered now status invitee) is,
)

abbrev pub taken_back : ℕ → SharedInvitation → SharedInvitation
taken_back now i = record i { status = withdrawn; withdrawn_at = some now; is_open = false }

abbrev pub can_withdraw : ℕ → SharedInvitation → Bool
can_withdraw id i = (i.id == id) && is_live i.status

-- `withdraw`
unfoldable pub withdraw :
    ℕ → ℕ → List SharedInvitation → Option SharedInvitation × List SharedInvitation
withdraw now id is = (
  changed (find (can_withdraw id) is) (taken_back now),
  update_one (can_withdraw id) (taken_back now) is,
)

-- `...(groupId && { groupId })`
abbrev pub is_any_or : Option ℕ → ℕ → Bool
is_any_or none id = true
is_any_or (some wanted) id = id == wanted

-- `InvitationScope`, with `statuses.includes`
abbrev pub in_scope : ℕ → Option ℕ → Option ℕ → (InvitationStatus → Bool) → SharedInvitation → Bool
in_scope user group contact statuses i =
    (i.user_id == user)
    && is_any_or group i.group_id
    && is_any_or contact i.contact_id
    && statuses i.status

-- `withdrawAll`
unfoldable pub withdraw_all :
    ℕ
    → ℕ
    → Option ℕ
    → Option ℕ
    → (InvitationStatus → Bool)
    → List SharedInvitation
    → List SharedInvitation
withdraw_all now user group contact statuses is =
    update_many (in_scope user group contact statuses) (taken_back now) is

abbrev pub gone : ℕ → SharedInvitation → SharedInvitation
gone now i = record i { status = left; left_at = some now; is_open = false }

abbrev pub can_leave : ℕ → ℕ → SharedInvitation → Bool
can_leave id invitee i = (i.id == id) && same_id i.invitee_id (some invitee) && is_accepted i.status

-- `leave`
unfoldable pub leave :
    ℕ → ℕ → ℕ → List SharedInvitation → Option SharedInvitation × List SharedInvitation
leave now id invitee is = (
  changed (find (can_leave id invitee) is) (gone now),
  update_one (can_leave id invitee) (gone now) is,
)

abbrev pub can_leave_any : ℕ → SharedInvitation → Bool
can_leave_any invitee i = same_id i.invitee_id (some invitee) && is_accepted i.status

-- `leaveAll`
unfoldable pub leave_all : ℕ → ℕ → List SharedInvitation → List SharedInvitation
leave_all now invitee is = update_many (can_leave_any invitee) (gone now) is

-- `hasJoined`
abbrev pub has_joined : ℕ → ℕ → List SharedInvitation → Bool
has_joined group invitee is =
    any (λ i. (i.group_id == group) && same_id i.invitee_id (some invitee) && is_accepted i.status)
      is
