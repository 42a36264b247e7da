-- ===== src/Splitting/Restated.antt =====
-- A stored split of src/app/services/sharedSplitting.ts that is stated and resolved again.
use mathlib.Core.Path.{subst}
use Prim.Native.String.{String}
use lag_money_manager.Prelude.{
  ℕ, Bool, false, ◌||◌, ◌≡◌, refl, ap, ◌∙◌, Option, none, some, List, [], ◌∷◌, map, length, any,
  arith, length-map,
}
use lag_money_manager.Prelude.Int.{ℤ}
use lag_money_manager.Errors.{ok, >>=-eq-ok, >>-eq-ok, passed, ok_inj}
use lag_money_manager.Split.{
  SplitMode, equal, percent, exact, fixed_rest, SplitInput, resolve_shares, resolve_minor, scale_of,
  invalid,
}
use lag_money_manager.Money.{of_minor}
use lag_money_manager.Split.Laws.{resolve_minor-IsSplit}
use lag_money_manager.Splitting.{
  SharePartyKind, user, contact, guests, SplitShareDto, SplitDto, SharedSplit, is_payer,
  payer_index_of, mismatches, guest_rows, assert_guests_agree, guest_count, share_row,
  resolved_share, with_amounts, resolve_stated, stated_share, stated_split_of,
  resplit_for_new_amount, kept_percent, kept_fixed, kept_contact, stated_fixed, input_of,
  Participants, assert_shape_of_shares, build_split,
}

-- A share stored and stated again.
abbrev restated_share : SplitMode → SplitShareDto → SplitShareDto
restated_share mode share = record {
  party = share.party;
  contact_id = kept_contact share.party share.contact_id;
  percent = kept_percent mode (kept_percent mode share.percent);
  fixed_amount = stated_fixed mode (kept_fixed mode share.fixed_amount);
}

module _ (mode : SplitMode) (share : SplitShareDto) (fits : mismatches mode share ≡ false) where
  same_payer :
      (paid_by : Option ℕ) → is_payer paid_by (restated_share mode share) ≡ is_payer paid_by share
  same_payer none = refl
  same_payer (some id) = by_party share.party
    where
      by_party :
          (party : SharePartyKind)
          → (is_payer (some id) (record (restated_share mode share) {
            party = party;
            contact_id = kept_contact party share.contact_id;
          }))
            ≡ is_payer (some id) (record share { party = party })
      by_party user = refl
      by_party contact = refl
      by_party guests = refl

  same_input : input_of mode (restated_share mode share) ≡ input_of mode share
  same_input = by_mode mode
    where
      by_mode : (m : SplitMode) → input_of m (restated_share m share) ≡ input_of m share
      by_mode equal = refl
      by_mode percent = refl
      by_mode exact = refl
      by_mode fixed_rest = refl

  still_fits : mismatches mode (restated_share mode share) ≡ false
  still_fits = by_mode mode fits
    where
      by_mode :
          (m : SplitMode)
          → mismatches m share ≡ false
          → mismatches m (restated_share m share) ≡ false
      by_mode equal h = refl
      by_mode percent h = ground arith
      by_mode exact h = ground arith
      by_mode fixed_rest h = refl

  same_share :
      (amount : ℤ)
      → resolved_share mode (restated_share mode share) amount ≡ resolved_share mode share amount
  same_share amount = by_both mode share.party
    where
      by_both :
          (m : SplitMode) (party : SharePartyKind)
          → resolved_share m (restated_share m (record share { party = party })) amount
            ≡ resolved_share m (record share { party = party }) amount
      by_both equal user = refl
      by_both equal contact = refl
      by_both equal guests = refl
      by_both percent user = refl
      by_both percent contact = refl
      by_both percent guests = refl
      by_both exact user = refl
      by_both exact contact = refl
      by_both exact guests = refl
      by_both fixed_rest user = refl
      by_both fixed_rest contact = refl
      by_both fixed_rest guests = refl

any_false : (a b : Bool) → (a || b) ≡ false → (a ≡ false) × (b ≡ false)
any_false a b h = ground arith

module _ (mode : SplitMode) where
  rows_same :
      (count : ℕ) (shares : List SplitShareDto)
      → any (mismatches mode) shares ≡ false
      → map (share_row mode count) (map (restated_share mode) shares)
        ≡ map (share_row mode count) shares
  rows_same count [] h = refl
  rows_same count (share ∷ shares) h =
      let k = any_false (mismatches mode share) (any (mismatches mode) shares) h in
      rw (same_input mode share k.0, rows_same count shares k.1)

  fits_same :
      (shares : List SplitShareDto)
      → any (mismatches mode) shares ≡ false
      → any (mismatches mode) (map (restated_share mode) shares) ≡ false
  fits_same [] h = refl
  fits_same (share ∷ shares) h =
      let k = any_false (mismatches mode share) (any (mismatches mode) shares) h in
      rw (still_fits mode share k.0, fits_same shares k.1)

  payer_same :
      (paid_by : Option ℕ) (shares : List SplitShareDto)
      → any (mismatches mode) shares ≡ false
      → payer_index_of paid_by (map (restated_share mode) shares) ≡ payer_index_of paid_by shares
  unfolding payer_index_of
  payer_same paid_by [] h = refl
  payer_same paid_by (share ∷ shares) h =
      let k = any_false (mismatches mode share) (any (mismatches mode) shares) h in
      rw (same_payer mode share k.0 paid_by, payer_same paid_by shares k.1)

  guests_same :
      (shares : List SplitShareDto)
      → guest_rows (map (restated_share mode) shares) ≡ guest_rows shares
  unfolding guest_rows
  guests_same [] = refl
  guests_same (share ∷ shares) = rw (guests_same shares)

  shares_same :
      (shares : List SplitShareDto) (amounts : List ℤ)
      → any (mismatches mode) shares ≡ false
      → with_amounts mode (map (restated_share mode) shares) amounts
        ≡ with_amounts mode shares amounts
  unfolding with_amounts
  shares_same [] amounts h = refl
  shares_same (share ∷ shares) [] h = refl
  shares_same (share ∷ shares) (amount ∷ amounts) h =
      let k = any_false (mismatches mode share) (any (mismatches mode) shares) h in
      rw (shares_same shares amounts k.1)
        (ap (λ s. s ∷ with_amounts mode shares amounts) (same_share mode share k.0 amount))

  stated_again :
      (shares : List SplitShareDto) (amounts : List ℤ)
      → length amounts ≡ length shares
      → map (stated_share mode) (with_amounts mode shares amounts)
        ≡ map (restated_share mode) shares
  unfolding with_amounts
  stated_again [] amounts h = refl
  stated_again (share ∷ shares) [] h = let f : ⊥ = omega (arith, h) in absurd f
  stated_again (share ∷ shares) (amount ∷ amounts) h =
      ap (λ rest. restated_share mode share ∷ rest) (stated_again shares amounts (omega (arith, h)))

-- A split that resolves has an amount for each row.
length-resolve_shares :
    (i : SplitInput) (amounts : List ℤ)
    → resolve_shares i ≡ ok amounts
    → length amounts ≡ length i.rows
unfolding resolve_shares
length-resolve_shares i amounts h =
    let scale = scale_of i.currency in
    let minor = >>=-eq-ok (resolve_minor i scale) _ h in
    let s = resolve_minor-IsSplit i scale minor.0 minor.1 in
    subst (λ xs. length xs ≡ length i.rows) (ok_inj minor.2)
      (length-map (of_minor scale) minor.0 ∙ s.counted)

abbrev input_at : SplitDto → ℤ → Option String → ℕ → SplitInput
input_at split amount currency index = record {
  total = amount;
  currency = currency;
  mode = split.mode;
  rows = map (share_row split.mode (guest_count split.guests)) split.shares;
  payer_index = index;
}

resplit_for_new_amount-resolve_stated :
    (split : SplitDto) (amount : ℤ) (currency : Option String) (paid_by : Option ℕ)
    (stored : SharedSplit)
    → resolve_stated split amount currency paid_by ≡ ok stored
    → resplit_for_new_amount stored amount currency paid_by ≡ ok stored
unfolding resplit_for_new_amount resolve_stated
resplit_for_new_amount-resolve_stated split amount currency paid_by stored h =
    let mode = split.mode in
    let agreed = >>-eq-ok (assert_guests_agree split.guests (guest_rows split.shares)) _ h in
    let fits = passed (any (mismatches mode) split.shares) invalid _ agreed.1 in
    let index = >>=-eq-ok (payer_index_of paid_by split.shares) _ fits.1 in
    let amounts = >>=-eq-ok (resolve_shares (input_at split amount currency index.0)) _ index.2 in
    let as_many =
      length-resolve_shares (input_at split amount currency index.0) amounts.0 amounts.1
      ∙ length-map (share_row mode (guest_count split.guests)) split.shares in
    let again = stated_again mode split.shares amounts.0 as_many in
    subst (λ s. resolve_stated (stated_split_of s) amount currency paid_by ≡ ok s)
      (ok_inj amounts.2)
      (rw (
        again,
        guests_same mode split.shares,
        agreed.0,
        fits_same mode split.shares fits.0,
        payer_same mode paid_by split.shares fits.0,
        index.1,
        rows_same mode (guest_count split.guests) split.shares fits.0,
        amounts.1,
        shares_same mode split.shares amounts.0 fits.0,
      ))

-- A split that was built, stated again and resolved for the same amount, currency and payer is the split it was.
pub resplit_for_new_amount-build_split :
    (split : SplitDto) (participants : Participants) (amount : ℤ) (currency : Option String)
    (paid_by : Option ℕ) (stored : SharedSplit)
    → build_split split participants amount currency paid_by ≡ ok stored
    → resplit_for_new_amount stored amount currency paid_by ≡ ok stored
unfolding build_split
resplit_for_new_amount-build_split split participants amount currency paid_by stored h =
    resplit_for_new_amount-resolve_stated split amount currency paid_by stored
      (>>-eq-ok (assert_shape_of_shares participants split.shares)
        (resolve_stated split amount currency paid_by) h).1
