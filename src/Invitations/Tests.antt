-- ===== src/Invitations/Tests.antt =====
-- Runs of src/infrastructure/repositories/sharedInvitation/SharedInvitationRepository.ts on two
-- invitations of a contact, and the theorems at them.
use lag_money_manager.Errors.{ok}
use lag_money_manager.Invitations.Service.{
  User, Directory, accept, accept_new, addressed_to_me, join,
}
use lag_money_manager.Invitations.Joined.{IsJoined, IsStored, IsRepeat, IsAnswer, accept_joins}
use lag_money_manager.Prelude.{some, ◌⊎◌, ◌==◌, if◌then◌else◌}
use lag_money_manager.Invitations.{accepted, answer, find, update_one}
use lag_money_manager.Prelude.{◌≡◌, refl, true, none, [], ◌∷◌, arith}
use lag_money_manager.Invitations.{SharedInvitation, pending, open_one, update_many, false}
use lag_money_manager.Invitations.Open.{OneOpen, opens, OneOpen-Step, open_count}

abbrev old : SharedInvitation
old = record {
  id = 1;
  user_id = 9;
  group_id = 4;
  contact_id = 5;
  email = 77;
  status = pending;
  expires_at = 100;
  invitee_id = none;
  answered_at = none;
  withdrawn_at = none;
  left_at = none;
  group_currency = 840;
  is_open = true;
}

abbrev again : SharedInvitation
again = record old { id = 2; expires_at = 300 }

old_open : OneOpen (old ∷ [])
unfolding open_count
old_open group contact = ground arith

-- The first one has expired, so it is closed and the second takes its place.
reopened :
    (open_one 200 again (λ is. is) (old ∷ [])).1 ≡ again ∷ record old { is_open = false } ∷ []
unfolding open_one update_many
reopened = refl

OneOpen-Step_example : OneOpen (open_one 200 again (λ is. is) (old ∷ [])).1
OneOpen-Step_example = OneOpen-Step (old ∷ []) _ (opens 200 again (old ∷ [])) old_open

-- The inviter, and the one who is invited, whose email is confirmed.
abbrev inviter : User
inviter = record { id = 9; email = 66; email_verified_at = some 1; currency = 840 }

abbrev guest : User
guest = record { id = 8; email = 77; email_verified_at = some 2; currency = 840 }

abbrev directory : Directory
directory = record {
  users = λ id. if id == 9 then some inviter else (if id == 8 then some guest else none);
  groups = λ id. some (record { user_id = 9; archived_at = none; participants = 5 ∷ [] });
  require_confirmed_email = true;
}

abbrev joined : SharedInvitation
joined = record old { status = accepted; invitee_id = some 8; answered_at = some 50 }

joined_run : accept directory 50 1 8 (λ is. is) (old ∷ []) ≡ ok (joined, joined ∷ [])
unfolding accept accept_new addressed_to_me join answer find update_one
joined_run = refl

accept_joins_example :
    (me : User) × (directory.users 8 ≡ some me)
    × IsJoined me joined
    × IsStored joined (joined ∷ [])
    × (IsRepeat 1 joined (old ∷ []) (joined ∷ [])
        ⊎ IsAnswer 50 1 me joined (old ∷ []) (joined ∷ []))
accept_joins_example = accept_joins directory 50 1 8 (λ is. is) (old ∷ []) joined_run
