-- ===== src/Splitting/Tests.antt =====
-- A dinner of ten that the user pays and shares with a contact and two guests.
use lag_money_manager.Prelude.{ℕ, ◌≡◌, refl, Option, none, some, [], ◌∷◌}
use lag_money_manager.Prelude.Int.{pos, ◌+ℤ◌, ◌-ℤ◌}
use lag_money_manager.Errors.{ok}
use lag_money_manager.Money.{currency_decimals, to_minor, of_minor}
use lag_money_manager.Split.{
  equal, resolve_shares, resolve_minor, assert_shape, assert_inputs, mode_shares, equal_shares,
  part_of,
}
use lag_money_manager.Splitting.{
  SharePartyKind, user, contact, guests, SplitDto, SharedShare, SharedSplit, Participants,
  payer_index_of, guest_rows, with_amounts, resolve_stated, resplit_for_new_amount, assert_people,
  assert_shape_of_shares, build_split,
}
use lag_money_manager.Splitting.Restated.{resplit_for_new_amount-build_split}

abbrev dinner : SplitDto
dinner = record {
  mode = equal;
  guests = some (record { count = 2; name = none });
  shares =
      record { party = user; contact_id = none; percent = none; fixed_amount = none }
      ∷ record { party = contact; contact_id = some 4; percent = none; fixed_amount = none }
      ∷ record { party = guests; contact_id = none; percent = none; fixed_amount = none }
      ∷ [];
}

abbrev people : Participants
people = none ∷ some 4 ∷ []

abbrev share_of : SharePartyKind → Option ℕ → ℕ → SharedShare
share_of party id amount = record {
  party = party;
  contact_id = id;
  percent = none;
  fixed_amount = none;
  amount = pos amount;
  collected = pos 0;
}

abbrev stored : SharedSplit
stored = record {
  mode = equal;
  guests = some (record { count = 2; name = none });
  shares = share_of user none 250 ∷ share_of contact (some 4) 250 ∷ share_of guests none 500 ∷ [];
}

dinner_split : build_split dinner people (pos 1000) (some "USD") none ≡ ok stored
unfolding build_split assert_shape_of_shares assert_people guest_rows resolve_stated payer_index_of
    resolve_shares resolve_minor assert_shape assert_inputs mode_shares equal_shares part_of
    with_amounts currency_decimals to_minor of_minor ◌+ℤ◌ ◌-ℤ◌
dinner_split = refl

resplit_for_new_amount-build_split_example :
    resplit_for_new_amount stored (pos 1000) (some "USD") none ≡ ok stored
resplit_for_new_amount-build_split_example =
    resplit_for_new_amount-build_split dinner people (pos 1000) (some "USD") none stored
      dinner_split
