-- ===== src/Invitations/Joined.antt =====
-- `accept` of src/app/services/SharedInvitationService.ts: what it answers, and what it leaves.
use mathlib.Core.Path.{subst}
use lag_money_manager.Prelude.{
  ℕ, Bool, true, ◌&&◌, ◌≡◌, refl, ap, ◌∙◌, Option, none, some, List, [], ◌∷◌, ◌++◌, ◌⊎◌, inl, inr,
  same_id, same_id_iff, Bool-cases, arith, not, is_none, ◌==◌,
}
use lag_money_manager.Errors.{
  ok, Error, api, bad_request, currency_mismatch, invitation_to_self, participant_already_in_group,
  >>=-eq-ok, >>-eq-ok, ok_inj, throw_if,
}
use lag_money_manager.Invitations.{
  SharedInvitation, InvitationStatus, accepted, is_accepted, answer, answered, find, update_one,
  get_by_id, changed, can_answer, is_answerable, has_joined,
}
use lag_money_manager.Invitations.Service.{
  User, Directory, or_throw, missing, unavailable, written, join, accept_new, accept, settled_as,
  addressed_to_me, no_seat, not_verified, answered_by, is_mine,
}

some_inj : {A : Type 0} {a b : A} → some a ≡ some b → a ≡ b
some_inj h = cc

or_throw_eq : {A : Type 0} (e : Error) (o : Option A) {a : A} → or_throw e o ≡ ok a → o ≡ some a
or_throw_eq e none h = cc
or_throw_eq e (some b) h = ap some (ok_inj h)

-- What `accept` is to leave: the row it answers is accepted by the caller.
abbrev pub IsJoined : User → SharedInvitation → Type 0
IsJoined me i = (i.status ≡ accepted) × (i.invitee_id ≡ some me.id)

is_accepted_eq : (s : InvitationStatus) → is_accepted s ≡ true → s ≡ accepted
is_accepted_eq s h = ground arith

both_true : (a b : Bool) → (a && b) ≡ true → (a ≡ true) × (b ≡ true)
both_true a b h = ground arith

settled_as-IsJoined :
    (me : User) (i : SharedInvitation) → settled_as is_accepted me i ≡ true → IsJoined me i
settled_as-IsJoined me i h =
    let k = both_true (is_accepted i.status) (same_id i.invitee_id (some me.id)) h in
    (is_accepted_eq i.status k.0, (same_id_iff i.invitee_id (some me.id)).0 k.1)

-- A row is among those that are stored.
abbrev pub IsStored : SharedInvitation → List SharedInvitation → Type 0
IsStored i is = (before after : List SharedInvitation) × (is ≡ before ++ (i ∷ after))

find-IsStored :
    (p : SharedInvitation → Bool) (is : List SharedInvitation) {i : SharedInvitation}
    → find p is ≡ some i
    → IsStored i is
unfolding find
find-IsStored p [] h = let f : ⊥ = cc in absurd f
find-IsStored p (j ∷ is) h = elim (Bool-cases (p j)) [
  | inl e ↦ ([], is, ap (λ k. k ∷ is) (some_inj (rw e at h)))
  | inr e ↦ (let s = find-IsStored p is (rw e at h) in (j ∷ s.0, s.1, ap (λ rest. j ∷ rest) s.2))
]

-- The row that a write answers is stored by it.
changed-IsStored :
    (p : SharedInvitation → Bool) (change : SharedInvitation → SharedInvitation)
    (is : List SharedInvitation) {i : SharedInvitation}
    → changed (find p is) change ≡ some i
    → IsStored i (update_one p change is)
unfolding find update_one
changed-IsStored p change [] h = let f : ⊥ = cc in absurd f
changed-IsStored p change (j ∷ is) h = elim (Bool-cases (p j)) [
  | inl e ↦ rw e ([], is, ap (λ k. k ∷ is) (some_inj (rw e at h)))
  | inr e ↦
      (let s = changed-IsStored p change is (rw e at h) in
        rw e (j ∷ s.0, s.1, ap (λ rest. j ∷ rest) s.2))
]

-- The row of the id was accepted by the caller before, and nothing is written.
abbrev pub IsRepeat : ℕ → SharedInvitation → List SharedInvitation → List SharedInvitation → Type 0
IsRepeat id i is after = (get_by_id id is ≡ some i) × (after ≡ is)

-- The write of the answer, of what is stored by then, found the row and is all that is written.
abbrev pub IsAnswer :
    ℕ → ℕ → User → SharedInvitation → List SharedInvitation → List SharedInvitation → Type 0
IsAnswer now id me i is after = answer now id accepted me.id is ≡ (some i, after)

changed-IsJoined :
    (now : ℕ) (me : User) (o : Option SharedInvitation) {i : SharedInvitation}
    → changed o (answered now accepted me.id) ≡ some i
    → IsJoined me i
changed-IsJoined now me none h = let f : ⊥ = cc in absurd f
changed-IsJoined now me (some i) h = subst (IsJoined me) (some_inj h) (refl, refl)

written_eq :
    (o : Option SharedInvitation) (after : List SharedInvitation)
    {z : SharedInvitation × List SharedInvitation}
    → written (o, after) ≡ ok z
    → ◌≡◌ {A = Option SharedInvitation × List SharedInvitation} (o, after) (some z.0, z.1)
written_eq none after h = let f : ⊥ = cc in absurd f
written_eq (some i) after h =
    ap (λ (w : SharedInvitation × List SharedInvitation). (some w.0, w.1)) (ok_inj h)

join-IsAnswer :
    (d : Directory) (now id : ℕ) (me : User) (i : SharedInvitation) (is : List SharedInvitation)
    {z : SharedInvitation × List SharedInvitation}
    → join d now id me i is ≡ ok z
    → IsAnswer now id me z.0 is z.1
unfolding join answer
join-IsAnswer d now id me i is h =
    let seat = >>-eq-ok (throw_if (no_seat i.contact_id (d.groups i.group_id)) unavailable) _ h in
    let first =
      >>-eq-ok
        (throw_if (has_joined i.group_id me.id is) (api bad_request participant_already_in_group)) _
        seat.1 in
    written_eq (changed (find (can_answer now id) is) (answered now accepted me.id)) _ first.1

answer-IsJoined :
    (now id : ℕ) (me : User) (is : List SharedInvitation) {i : SharedInvitation}
    {after : List SharedInvitation}
    → IsAnswer now id me i is after
    → IsJoined me i × IsStored i after
unfolding answer
answer-IsJoined now id me is {i} h = (
  changed-IsJoined now me (find (can_answer now id) is) (ap (λ w. w.0) h),
  subst (IsStored i) (ap (λ w. w.1) h)
      (changed-IsStored (can_answer now id) (answered now accepted me.id) is (ap (λ w. w.0) h)),
)

addressed_found :
    (d : Directory) (id : ℕ) (me : User) (is : List SharedInvitation) {i : SharedInvitation}
    → addressed_to_me d id me is ≡ ok i
    → get_by_id id is ≡ some i
unfolding addressed_to_me
addressed_found d id me is h =
    let verified =
      >>-eq-ok
        (throw_if
          (not (answered_by me (get_by_id id is))
            && d.require_confirmed_email
            && is_none me.email_verified_at)
          not_verified)
        _ h in
    let found = >>=-eq-ok (or_throw missing (get_by_id id is)) _ verified.1 in
    let mine = >>-eq-ok (throw_if (not (is_mine me found.0)) missing) _ found.2 in
    let other =
      >>-eq-ok (throw_if (found.0.user_id == me.id) (api bad_request invitation_to_self)) _
        mine.1 in
    or_throw_eq missing (get_by_id id is) found.1 ∙ ap some (ok_inj other.1)

-- An invitation that is accepted is answered as it is stored then, as accepted by the user that asks,
-- who is known: either it was the row of the id, accepted by that user before, and nothing is
-- written; or the write of the answer found the row, and is all that is written.
pub accept_joins :
    (d : Directory) (now id user_id : ℕ) (rivals : List SharedInvitation → List SharedInvitation)
    (is : List SharedInvitation) {z : SharedInvitation × List SharedInvitation}
    → accept d now id user_id rivals is ≡ ok z
    → (me : User) × (d.users user_id ≡ some me)
      × IsJoined me z.0
      × IsStored z.0 z.1
      × (IsRepeat id z.0 is z.1 ⊎ IsAnswer now id me z.0 (rivals is) z.1)
unfolding accept accept_new
accept_joins d now id user_id rivals is {z} h =
    let (me, k, q) = >>=-eq-ok (or_throw missing (d.users user_id)) _ h in
    let (i, l, r) = >>=-eq-ok (addressed_to_me d id me is) _ q in
    let known = or_throw_eq missing (d.users user_id) k in
    elim (Bool-cases (settled_as is_accepted me i)) [
      | inl e ↦
          (let found = addressed_found d id me is l in
            subst
              (λ (w : SharedInvitation × List SharedInvitation).
                (u : User) × (d.users user_id ≡ some u)
                × IsJoined u w.0
                × IsStored w.0 w.1
                × (IsRepeat id w.0 is w.1 ⊎ IsAnswer now id u w.0 (rivals is) w.1))
              (ok_inj (rw e at r))
              (
                me,
                known,
                settled_as-IsJoined me i e,
                find-IsStored (λ j. j.id == id) is found,
                inl (found, refl),
              ))
      | inr e ↦
          (let open_one =
              >>-eq-ok (throw_if (not (is_answerable now i)) unavailable) _ (rw e at r) in
            let inviter =
              >>-eq-ok (throw_if (is_none (d.users i.user_id)) unavailable) _ open_one.1 in
            let currency =
              >>-eq-ok
                (throw_if (not (i.group_currency == me.currency))
                  (api bad_request currency_mismatch))
                _ inviter.1 in
            let given = join-IsAnswer d now id me i (rivals is) currency.1 in
            let done = answer-IsJoined now id me (rivals is) given in
            (me, known, done.0, done.1, inr given))
    ]
