-- ===== src/Splitting.antt =====
-- src/app/services/sharedSplitting.ts, with the splits of src/app/dtos/SharedExpenseDTO.ts and
-- src/domain/entities/SharedExpense.ts: a split as a client states it, and as it is stored.
pub mod Restated
pub mod Defaults
pub mod Totals
mod Tests
use Prim.Native.String.{String}
use lag_money_manager.Prelude.{
  ℕ, zero, suc, Bool, true, false, not, ◌&&◌, ◌||◌, Option, none, some, List, [], ◌∷◌, map, length,
  any, ◌==◌, ltb, is_some, is_none, same_id, if◌then◌else◌,
}
use lag_money_manager.Prelude.Int.{ℤ, pos}
use lag_money_manager.Errors.{
  Result, ok, err, ◌>>=◌, ◌>>◌, throw_if, domain, participant_not_in_group,
}
use lag_money_manager.Split.{
  SplitMode, equal, percent, exact, fixed_rest, SplitRow, resolve_shares, invalid,
}

-- `SHARE_PARTIES`
pub data SharePartyKind : Type 0 where
  user contact guests : SharePartyKind

pub record SplitShareDto : Type 0 where
  pub party : SharePartyKind
  pub contact_id : Option ℕ
  pub percent : Option ℤ
  pub fixed_amount : Option ℤ

pub record GuestBlock : Type 0 where
  pub count : ℕ
  pub name : Option String

pub record SplitDto : Type 0 where
  pub mode : SplitMode
  pub guests : Option GuestBlock
  pub shares : List SplitShareDto

-- `SharedShare`
pub record SharedShare : Type 0 where
  pub party : SharePartyKind
  pub contact_id : Option ℕ
  pub percent : Option ℤ
  pub fixed_amount : Option ℤ
  pub amount : ℤ
  pub collected : ℤ

-- `SharedSplit`
pub record SharedSplit : Type 0 where
  pub mode : SplitMode
  pub guests : Option GuestBlock
  pub shares : List SharedShare

abbrev pub is_user : SharePartyKind → Bool
is_user user = true
is_user _ = false

abbrev pub is_contact : SharePartyKind → Bool
is_contact contact = true
is_contact _ = false

abbrev pub is_guests : SharePartyKind → Bool
is_guests guests = true
is_guests _ = false

-- The row of whoever paid.
abbrev pub is_payer : Option ℕ → SplitShareDto → Bool
is_payer none share = is_user share.party
is_payer (some id) share = is_contact share.party && same_id share.contact_id (some id)

abbrev pub next_index : Result ℕ → Result ℕ
next_index (ok index) = ok (suc index)
next_index (err e) = err e

-- `payerIndexOf`
unfoldable pub payer_index_of : Option ℕ → List SplitShareDto → Result ℕ
payer_index_of paid_by [] = err invalid
payer_index_of paid_by (share ∷ shares) =
    let rest = next_index (payer_index_of paid_by shares) in
    if is_payer paid_by share then ok 0 else rest

-- One round of `assertInputsMatchMode`: whether it throws.
abbrev pub mismatches : SplitMode → SplitShareDto → Bool
mismatches percent share = is_none share.percent || is_some share.fixed_amount
mismatches exact share = is_none share.fixed_amount || is_some share.percent
mismatches fixed_rest share = is_some share.percent
mismatches equal share = is_some share.percent || is_some share.fixed_amount

-- `assertInputsMatchMode`
abbrev pub assert_inputs_match_mode : SplitMode → List SplitShareDto → Result (Unit {0})
assert_inputs_match_mode mode shares = throw_if (any (mismatches mode) shares) invalid

unfoldable pub guest_rows : List SplitShareDto → ℕ
guest_rows [] = 0
guest_rows (share ∷ shares) =
    let rest = guest_rows shares in if is_guests share.party then suc rest else rest

-- `assertGuestsAgree`
abbrev pub assert_guests_agree : Option GuestBlock → ℕ → Result (Unit {0})
assert_guests_agree (some block) rows = throw_if (not (rows == 1)) invalid
assert_guests_agree none rows = throw_if (ltb 0 rows) invalid

abbrev pub guest_count : Option GuestBlock → ℕ
guest_count none = 0
guest_count (some block) = block.count

-- `unitsOf`
abbrev pub units_of : ℕ → SplitShareDto → ℕ
units_of count share = if is_guests share.party then count else 1

-- `inputOf`
abbrev pub input_of : SplitMode → SplitShareDto → Option ℤ
input_of percent share = share.percent
input_of equal share = none
input_of exact share = share.fixed_amount
input_of fixed_rest share = share.fixed_amount

abbrev pub share_row : SplitMode → ℕ → SplitShareDto → SplitRow
share_row mode count share = record { units = units_of count share; input = input_of mode share }

abbrev pub kept_percent : SplitMode → Option ℤ → Option ℤ
kept_percent percent given = given
kept_percent _ given = none

abbrev pub kept_fixed : SplitMode → Option ℤ → Option ℤ
kept_fixed exact given = given
kept_fixed fixed_rest given = given
kept_fixed _ given = none

abbrev pub kept_contact : SharePartyKind → Option ℕ → Option ℕ
kept_contact contact id = id
kept_contact _ id = none

-- A share as it is stored; nothing of it has been collected.
abbrev pub resolved_share : SplitMode → SplitShareDto → ℤ → SharedShare
resolved_share mode share amount = record {
  party = share.party;
  contact_id = kept_contact share.party share.contact_id;
  percent = kept_percent mode share.percent;
  fixed_amount = kept_fixed mode share.fixed_amount;
  amount = amount;
  collected = pos 0;
}

-- `amounts[index]` for each share; there are as many amounts as shares.
unfoldable pub with_amounts : SplitMode → List SplitShareDto → List ℤ → List SharedShare
with_amounts mode [] amounts = []
with_amounts mode (share ∷ shares) [] = []
with_amounts mode (share ∷ shares) (amount ∷ amounts) =
    resolved_share mode share amount ∷ with_amounts mode shares amounts

-- `resolveStated`
unfoldable pub resolve_stated : SplitDto → ℤ → Option String → Option ℕ → Result SharedSplit
resolve_stated split amount currency paid_by = do
  assert_guests_agree split.guests (guest_rows split.shares)
  assert_inputs_match_mode split.mode split.shares
  index ← payer_index_of paid_by split.shares
  amounts ← resolve_shares (record {
    total = amount;
    currency = currency;
    mode = split.mode;
    rows = map (share_row split.mode (guest_count split.guests)) split.shares;
    payer_index = index;
  })
  ok (record {
    mode = split.mode;
    guests = split.guests;
    shares = with_amounts split.mode split.shares amounts;
  })

abbrev pub stated_fixed : SplitMode → Option ℤ → Option ℤ
stated_fixed percent given = none
stated_fixed _ given = given

abbrev pub stated_share : SplitMode → SharedShare → SplitShareDto
stated_share mode share = record {
  party = share.party;
  contact_id = share.contact_id;
  percent = kept_percent mode share.percent;
  fixed_amount = stated_fixed mode share.fixed_amount;
}

-- `statedSplitOf`
abbrev pub stated_split_of : SharedSplit → SplitDto
stated_split_of split = record {
  mode = split.mode;
  guests = split.guests;
  shares = map (stated_share split.mode) split.shares;
}

-- `resplitForNewAmount`
unfoldable pub resplit_for_new_amount :
    SharedSplit → ℤ → Option String → Option ℕ → Result SharedSplit
resplit_for_new_amount split amount currency paid_by =
    resolve_stated (stated_split_of split) amount currency paid_by

-- `SharedParticipant`, by its contact; none is the user.
abbrev pub Participants : Type 0
Participants = List (Option ℕ)

-- `keyOf(share)` is the key of a participant, and `seen.has`, by the contact that a share stands for.
abbrev pub key_of : SplitShareDto → Option ℕ
key_of share = if is_contact share.party then share.contact_id else none

abbrev pub names_nobody : SplitShareDto → Bool
names_nobody share = is_contact share.party && is_none share.contact_id

abbrev pub names_other : SplitShareDto → Bool
names_other share = is_user share.party && is_some share.contact_id

-- The loop of `assertShapeOfShares` over the shares that are not guests.
unfoldable pub assert_people :
    Participants → List (Option ℕ) → List SplitShareDto → Result (Unit {0})
assert_people allowed seen [] = ok tt
assert_people allowed seen (share ∷ shares) =
    let key = key_of share in
    let skipped = assert_people allowed seen shares in
    let rest = assert_people allowed (key ∷ seen) shares in
    if is_guests share.party then skipped else (do
      throw_if (names_nobody share) invalid
      throw_if (names_other share) invalid
      throw_if (any (same_id key) seen) invalid
      throw_if (not (any (same_id key) allowed)) (domain participant_not_in_group)
      rest)

-- `assertShapeOfShares`
unfoldable pub assert_shape_of_shares : Participants → List SplitShareDto → Result (Unit {0})
assert_shape_of_shares participants shares = do
  throw_if (length shares == 0) invalid
  assert_people participants [] shares
  throw_if (ltb 1 (guest_rows shares)) invalid

-- `buildSplit`
unfoldable pub build_split :
    SplitDto → Participants → ℤ → Option String → Option ℕ → Result SharedSplit
build_split split participants amount currency paid_by = do
  assert_shape_of_shares participants split.shares
  resolve_stated split amount currency paid_by
