-- ===== src/Invitations/Open.antt =====
-- The rows that src/infrastructure/repositories/sharedInvitation/SharedInvitationRepository.ts keeps
-- open for a group and a contact, and its writes as steps.
use mathlib.Core.Path.{subst}
use lag_money_manager.Prelude.{
  ℕ, ◌+◌, ◌≤◌, Bool, false, ◌||◌, ◌≡◌, refl, List, [], ◌∷◌, any, arith, Bool-cases, inl, inr, ◌⊎◌,
  bit,
}
use lag_money_manager.Invitations.{
  SharedInvitation, InvitationStatus, is_open_for, opened, can_leave_any, update_one, update_many,
  closed, open_one, is_expired_open, answer, answered, can_answer, withdraw, taken_back,
  can_withdraw, leave, gone, can_leave, leave_all, withdraw_all, in_scope, Option,
}

-- The open rows of a group and a contact.
unfoldable pub open_count : ℕ → ℕ → List SharedInvitation → ℕ
open_count group contact [] = 0
open_count group contact (i ∷ is) = bit (is_open_for group contact i) + open_count group contact is

-- A group and a contact have at most one open row.
abbrev pub OneOpen : List SharedInvitation → Type 0
OneOpen is = (group contact : ℕ) → open_count group contact is ≤ 1

-- A write of the collection. What others write between two calls of `openOne` is steps of its own.
pub data Step : List SharedInvitation → List SharedInvitation → Type 0 where
  opens :
      (now : ℕ) (i : SharedInvitation) (is : List SharedInvitation)
      → Step is (open_one now i (λ js. js) is).1
  answers :
      (now id : ℕ) (status : InvitationStatus) (invitee : ℕ) (is : List SharedInvitation)
      → Step is (answer now id status invitee is).1
  withdraws : (now id : ℕ) (is : List SharedInvitation) → Step is (withdraw now id is).1
  leaves : (now id invitee : ℕ) (is : List SharedInvitation) → Step is (leave now id invitee is).1
  leaves_all : (now invitee : ℕ) (is : List SharedInvitation) → Step is (leave_all now invitee is)
  withdraws_all :
      (now user : ℕ) (group contact : Option ℕ) (statuses : InvitationStatus → Bool)
      (is : List SharedInvitation)
      → Step is (withdraw_all now user group contact statuses is)

module _ (group contact : ℕ) (p : SharedInvitation → Bool)
    (change : SharedInvitation → SharedInvitation)
    (less : (i : SharedInvitation)
      → bit (is_open_for group contact (change i)) ≤ bit (is_open_for group contact i)) where
  update_one-open_count :
      (is : List SharedInvitation)
      → open_count group contact (update_one p change is) ≤ open_count group contact is
  unfolding update_one open_count
  update_one-open_count [] = omega arith
  update_one-open_count (i ∷ is) = elim (Bool-cases (p i)) [
    | inl e ↦ rw e (omega (arith, less i))
    | inr e ↦ rw e (omega (arith, update_one-open_count is))
  ]

  update_many-open_count :
      (is : List SharedInvitation)
      → open_count group contact (update_many p change is) ≤ open_count group contact is
  unfolding update_many open_count
  update_many-open_count [] = omega arith
  update_many-open_count (i ∷ is) = elim (Bool-cases (p i)) [
    | inl e ↦ rw e (omega (arith, less i, update_many-open_count is))
    | inr e ↦ rw e (omega (arith, update_many-open_count is))
  ]

any_false : (a b : Bool) → (a || b) ≡ false → (a ≡ false) × (b ≡ false)
any_false a b h = ground arith

none_open :
    (group contact : ℕ) (is : List SharedInvitation)
    → any (is_open_for group contact) is ≡ false
    → open_count group contact is ≡ 0
unfolding open_count
none_open group contact [] h = refl
none_open group contact (i ∷ is) h =
    let k = any_false (is_open_for group contact i) (any (is_open_for group contact) is) h in
    rw (k.0, none_open group contact is k.1)

bit_le : (b : Bool) → bit b ≤ 1
bit_le b = ground arith

-- A new row counts for its own pair only.
new_count :
    (group contact : ℕ) (i : SharedInvitation)
    → (bit (is_open_for group contact (opened i)) ≡ 0)
      ⊎ ((i.group_id ≡ group) × (i.contact_id ≡ contact))
new_count group contact i = ground arith

open_one-OneOpen :
    (now : ℕ) (i : SharedInvitation) (is : List SharedInvitation)
    → OneOpen is
    → OneOpen (open_one now i (λ js. js) is).1
unfolding open_one open_count
open_one-OneOpen now i is h group contact =
    let kept = update_many (is_expired_open now i.group_id i.contact_id) closed is in
    let l =
      update_many-open_count group contact (is_expired_open now i.group_id i.contact_id) closed
        (λ j. ground arith) is in
    elim (Bool-cases (any (is_open_for i.group_id i.contact_id) kept)) [
      | inl e ↦ rw e (omega (arith, l, h group contact))
      | inr e ↦ rw e (elim (new_count group contact i) [
        | inl z ↦ omega (arith, z, l, h group contact)
        | inr k ↦
            (let n = none_open i.group_id i.contact_id kept e in
              let n' =
                subst (λ g. open_count g contact kept ≡ 0) k.0
                  (subst (λ c. open_count i.group_id c kept ≡ 0) k.1 n) in
              omega (arith, n', bit_le (is_open_for group contact (opened i))))
      ])
    ]

-- Every write of the collection leaves at most one open invitation for a group and a contact, if
-- there was at most one.
pub OneOpen-Step : (is js : List SharedInvitation) → Step is js → OneOpen is → OneOpen js
unfolding answer withdraw withdraw_all leave leave_all
OneOpen-Step is js (opens now i _) h group contact = open_one-OneOpen now i is h group contact
OneOpen-Step is js (answers now id status invitee _) h group contact =
    let l =
      update_one-open_count group contact (can_answer now id) (answered now status invitee)
        (λ i. ground arith) is in
    omega (arith, l, h group contact)
OneOpen-Step is js (withdraws now id _) h group contact =
    let l =
      update_one-open_count group contact (can_withdraw id) (taken_back now) (λ i. ground arith)
        is in
    omega (arith, l, h group contact)
OneOpen-Step is js (leaves now id invitee _) h group contact =
    let l =
      update_one-open_count group contact (can_leave id invitee) (gone now) (λ i. ground arith)
        is in
    omega (arith, l, h group contact)
OneOpen-Step is js (leaves_all now invitee _) h group contact =
    let l =
      update_many-open_count group contact (can_leave_any invitee) (gone now) (λ i. ground arith)
        is in
    omega (arith, l, h group contact)
OneOpen-Step is js (withdraws_all now user g c statuses _) h group contact =
    let l =
      update_many-open_count group contact (in_scope user g c statuses) (taken_back now)
        (λ i. ground arith) is in
    omega (arith, l, h group contact)
