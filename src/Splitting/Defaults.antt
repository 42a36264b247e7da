-- ===== src/Splitting/Defaults.antt =====
-- The default split of a group, of src/app/services/sharedSplitting.ts, with its types in
-- src/domain/entities/SharedGroup.ts and src/app/dtos/SharedGroupDTO.ts. The group and the expense
-- are given by the fields that are read. A percentage is a whole number of hundredths,
-- so it is its own number of basis points.
use Prim.Native.String.{String}
use lag_money_manager.Prelude.{
  ℕ, Bool, true, false, not, ◌||◌, Option, none, some, List, [], ◌∷◌, ◌++◌, map, length, any, ◌==◌,
  same_id, if◌then◌else◌, ◌≡◌,
}
use lag_money_manager.Prelude.Int.{ℤ, pos, sum_ℤ}
use lag_money_manager.Errors.{Result, ok, err, ◌>>=◌, ◌>>◌, throw_if, >>=-eq-ok}
use lag_money_manager.Split.{SplitMode, equal, percent, exact, differs, invalid}
use lag_money_manager.Splitting.{
  SharePartyKind, user, contact, SplitShareDto, SplitDto, SharedShare, SharedSplit, Participants,
  build_split, resplit_for_new_amount,
}
use lag_money_manager.Splitting.Restated.{resplit_for_new_amount-build_split}

-- `GROUP_SPLIT_MODES`
pub data GroupSplitMode : Type 0 where
  by_head by_percent : GroupSplitMode

pub record DefaultSplitShare : Type 0 where
  pub contact_id : Option ℕ
  pub percent : ℤ

pub record DefaultSplit : Type 0 where
  pub mode : GroupSplitMode
  pub shares : List DefaultSplitShare

pub record DefaultSplitDto : Type 0 where
  pub mode : GroupSplitMode
  pub shares : Option (List DefaultSplitShare)

abbrev pub split_mode : GroupSplitMode → SplitMode
split_mode by_head = equal
split_mode by_percent = percent

-- `percentFor`
abbrev pub percent_for : List DefaultSplitShare → Option ℕ → Result ℤ
percent_for [] id = err invalid
percent_for (row ∷ rows) id =
    let rest = percent_for rows id in if same_id row.contact_id id then ok row.percent else rest

abbrev pub inherited_percent : DefaultSplit → Option ℕ → Result (Option ℤ)
inherited_percent default id = elim (default.mode) [
  | by_head ↦ ok none
  | by_percent ↦ percent_for default.shares id >>= (λ figure. ok (some figure))
]

abbrev pub party_of : Option ℕ → SharePartyKind
party_of none = user
party_of (some id) = contact

abbrev pub inherited_shares : DefaultSplit → Participants → Result (List SplitShareDto)
inherited_shares default [] = ok []
inherited_shares default (id ∷ participants) = do
  figure ← inherited_percent default id
  shares ← inherited_shares default participants
  ok (
      record { party = party_of id; contact_id = id; percent = figure; fixed_amount = none }
      ∷ shares)

-- `inheritedSplit`
unfoldable pub inherited_split :
    DefaultSplit → Participants → ℤ → Option String → Option ℕ → Result SharedSplit
inherited_split default participants amount currency paid_by = do
  shares ← inherited_shares default participants
  build_split (record { mode = split_mode default.mode; guests = none; shares = shares })
      participants amount currency paid_by

abbrev pub share_again : SharedShare → SplitShareDto
share_again share = record {
  party = share.party;
  contact_id = share.contact_id;
  percent = none;
  fixed_amount = share.fixed_amount;
}

abbrev pub share_of_newcomer : ℕ → SplitShareDto
share_of_newcomer id = record {
  party = contact;
  contact_id = some id;
  percent = none;
  fixed_amount = none;
}

abbrev pub states_figures : SplitMode → Bool
states_figures percent = true
states_figures exact = true
states_figures _ = false

-- The split that keeps what an expense states and adds the newcomers to it.
abbrev pub widened : SharedSplit → List ℕ → SplitDto
widened split newcomers = record {
  mode = split.mode;
  guests = split.guests;
  shares = map share_again split.shares ++ map share_of_newcomer newcomers;
}

abbrev pub as_some : Result SharedSplit → Result (Option SharedSplit)
as_some call = call >>= (λ split. ok (some split))

-- `resplitForNewParticipants`: the expense by its `customSplit`, `split`, `amount` and
-- `paidByContactId`, the group by its `defaultSplit` and `participants`.
unfoldable pub resplit_for_new_participants :
    Bool
    → SharedSplit
    → ℤ
    → Option ℕ
    → DefaultSplit
    → Participants
    → List ℕ
    → Option String
    → Result (Option SharedSplit)
resplit_for_new_participants custom split amount paid_by default participants newcomers currency =
    let inherited = as_some (inherited_split default participants amount currency paid_by) in
    let kept =
      as_some (build_split (widened split newcomers) participants amount currency paid_by) in
    if not custom then inherited else if states_figures split.mode then ok none else kept

-- The loop of `assertDefaultSplit`.
abbrev pub assert_covers :
    Participants → List (Option ℕ) → List DefaultSplitShare → Result (Unit {0})
assert_covers expected seen [] = ok tt
assert_covers expected seen (share ∷ shares) = do
  throw_if (any (same_id share.contact_id) seen || not (any (same_id share.contact_id) expected))
      invalid
  assert_covers expected (share.contact_id ∷ seen) shares

abbrev pub stated_shares : Option (List DefaultSplitShare) → List DefaultSplitShare
stated_shares none = []
stated_shares (some shares) = shares

abbrev pub assert_percentages : List DefaultSplitShare → Participants → Result DefaultSplit
assert_percentages shares participants = do
  throw_if (not (length shares == length participants)) invalid
  assert_covers participants [] shares
  throw_if (differs (sum_ℤ (map (λ share. share.percent) shares)) (pos 10000)) invalid
  ok (record { mode = by_percent; shares = shares })

-- `assertDefaultSplit`
unfoldable pub assert_default_split : DefaultSplitDto → Participants → Result DefaultSplit
assert_default_split default participants = elim (default.mode) [
  | by_head ↦ ok (record { mode = by_head; shares = [] })
  | by_percent ↦ assert_percentages (stated_shares default.shares) participants
]

-- A split that was inherited, stated again and resolved for the same amount, currency and payer is the split it was.
pub resplit_for_new_amount-inherited_split :
    (default : DefaultSplit) (participants : Participants) (amount : ℤ) (currency : Option String)
    (paid_by : Option ℕ) (stored : SharedSplit)
    → inherited_split default participants amount currency paid_by ≡ ok stored
    → resplit_for_new_amount stored amount currency paid_by ≡ ok stored
unfolding inherited_split
resplit_for_new_amount-inherited_split default participants amount currency paid_by stored h =
    let shares = >>=-eq-ok (inherited_shares default participants) _ h in
    resplit_for_new_amount-build_split
      (record { mode = split_mode default.mode; guests = none; shares = shares.0 }) participants
      amount currency paid_by stored shares.2
