-- ===== src/Splitting/Totals.antt =====
-- sharesByParticipant of src/app/services/sharedSplitting.ts: what each person is down for.
use lag_money_manager.Prelude.{
  ℕ, Option, none, List, [], ◌∷◌, map, same_id, if◌then◌else◌, ◌≡◌, refl, ◌∙◌, Bool-cases, inl, inr,
}
use lag_money_manager.Prelude.Int.{ℤ, pos, ◌+ℤ◌, sum_ℤ, int_laws, +ℤ_zero}
use lag_money_manager.Splitting.{SharedShare, SharedSplit, is_guests, is_user}

-- `Map<string | null, number>`, in the order of insertion.
pub record Down : Type 0 where
  pub contact_id : Option ℕ
  pub cents : ℤ

unfoldable pub add_cents : Option ℕ → ℤ → List Down → List Down
add_cents id cents [] = record { contact_id = id; cents = cents } ∷ []
add_cents id cents (down ∷ downs) =
    let others = add_cents id cents downs in
    if same_id down.contact_id id
    then record down { cents = down.cents +ℤ cents } ∷ downs
    else down ∷ others

unfoldable pub add_shares : List SharedShare → List Down → List Down
add_shares [] downs = downs
add_shares (share ∷ shares) downs =
    let id = if is_user share.party then none else share.contact_id in
    let skipped = add_shares shares downs in
    let added = add_shares shares (add_cents id share.amount downs) in
    if is_guests share.party then skipped else added

unfoldable pub add_splits : List SharedSplit → List Down → List Down
add_splits [] downs = downs
add_splits (split ∷ splits) downs = add_splits splits (add_shares split.shares downs)

-- `sharesByParticipant`
unfoldable pub shares_by_participant : List SharedSplit → List Down
shares_by_participant splits = add_splits splits []

-- What the shares of people come to.
abbrev pub owed_by_people : List SharedShare → ℤ
owed_by_people [] = pos 0
owed_by_people (share ∷ shares) =
    (if is_guests share.party then pos 0 else share.amount) +ℤ owed_by_people shares

abbrev pub all_owed : List SharedSplit → ℤ
all_owed [] = pos 0
all_owed (split ∷ splits) = owed_by_people split.shares +ℤ all_owed splits

abbrev pub total : List Down → ℤ
total downs = sum_ℤ (map (λ down. down.cents) downs)

total-add_cents :
    (id : Option ℕ) (cents : ℤ) (downs : List Down)
    → total (add_cents id cents downs) ≡ cents +ℤ total downs
unfolding add_cents
total-add_cents id cents [] = refl
total-add_cents id cents (down ∷ downs) = elim (Bool-cases (same_id down.contact_id id)) [
  | inl e ↦ rw e (omega int_laws)
  | inr e ↦ rw (e, total-add_cents id cents downs) (omega int_laws)
]

total-add_shares :
    (shares : List SharedShare) (downs : List Down)
    → total (add_shares shares downs) ≡ owed_by_people shares +ℤ total downs
unfolding add_shares
total-add_shares [] downs = omega int_laws
total-add_shares (share ∷ shares) downs =
    let id = if is_user share.party then none else share.contact_id in
    elim (Bool-cases (is_guests share.party)) [
      | inl e ↦ rw (e, total-add_shares shares downs) (omega int_laws)
      | inr e ↦
          rw
            (
              e,
              total-add_shares shares (add_cents id share.amount downs),
              total-add_cents id share.amount downs,
            )
            (omega int_laws)
    ]

total-add_splits :
    (splits : List SharedSplit) (downs : List Down)
    → total (add_splits splits downs) ≡ all_owed splits +ℤ total downs
unfolding add_splits
total-add_splits [] downs = omega int_laws
total-add_splits (split ∷ splits) downs =
    rw
      (total-add_splits splits (add_shares split.shares downs), total-add_shares split.shares downs)
      (omega int_laws)

-- What the people of a group are down for comes to what their shares come to.
pub total-shares_by_participant :
    (splits : List SharedSplit) → total (shares_by_participant splits) ≡ all_owed splits
unfolding shares_by_participant
total-shares_by_participant splits = total-add_splits splits [] ∙ +ℤ_zero (all_owed splits)
