-- ===== src/Imputation/Totals.antt =====
-- What the imputation of src/shared/sharedImputation.ts comes to in all.
use mathlib.Core.List.{reverse-append, map-append}
use mathlib.Core.Path.{subst}
use lag_money_manager.Prelude.{
  ℕ, zero, suc, ◌+◌, ◌-◌, ◌≤◌, ◌<◌, ◌≡◌, refl, List, [], ◌∷◌, map, reverse, min, arith, length, sum,
  sum-append, length-map,
}
use lag_money_manager.Imputation.{
  OwedLine, SettledPayment, Payment, Loop, debt, amount_of, at, settled_map, impute_loop, impute,
  take_back, without_newest, paid_of, collected_of, impute_counterparty, oldest_first,
  creation_order,
}
use lag_money_manager.Imputation.Rounds.{IsImputing, impute_loop-IsImputing}
use lag_money_manager.Sorting.{sort, sum-sort}

-- What a settled map says was paid, in all.
abbrev pub settled_total : List (ℕ × ℕ) → ℕ
settled_total [] = 0
settled_total (e ∷ m) = e.1 + settled_total m

abbrev pub given_total : List Payment → ℕ
given_total payments = sum (map amount_of payments)

abbrev pub owed_total : List OwedLine → ℕ
owed_total lines = sum (map debt lines)

settled_map_total :
    (lines : List OwedLine) (opened : List ℕ)
    → length opened ≡ length lines
    → ((j : ℕ) → at opened j ≤ at (map debt lines) j)
    → settled_total (settled_map lines opened) + sum opened ≡ owed_total lines
settled_map_total [] [] e h = omega arith
settled_map_total [] (o ∷ opened) e h = absurd (omega arith)
settled_map_total (line ∷ lines) [] e h = absurd (omega arith)
settled_map_total (line ∷ lines) (o ∷ opened) e h =
    omega (arith, h 0, settled_map_total lines opened (omega arith) (λ j. h (suc j)))

totals_of :
    (settled opened owed given surplus : ℕ)
    → settled + opened ≡ owed
    → opened + given ≡ owed + surplus
    → (0 < surplus → opened ≡ 0)
    → (settled ≡ min given owed) × (surplus ≡ given - owed)
totals_of settled opened owed given zero t c x = omega arith
totals_of settled opened owed given (suc n) t c x = omega (arith, x (omega arith))

-- However the lines and the payments stand, what is settled is the smaller of what was given and what
-- is owed, and the surplus is what was given beyond what is owed.
pub impute_totals :
    (lines : List OwedLine) (payments : List Payment)
    → let r = impute lines payments in
      (settled_total r.settled ≡ min (given_total payments) (owed_total lines))
      × (r.surplus ≡ given_total payments - owed_total lines)
unfolding impute
impute_totals lines payments =
    let ordered = sort oldest_first lines in
    let debts = map debt ordered in
    let start : Loop = record { opened = debts; first_open = 0; surplus = 0 } in
    let begun : IsImputing debts 0 start = record {
      counted = refl;
      bounded = λ j. omega arith;
      closed = λ j l. absurd (omega arith);
      conserved = omega arith;
      exhausted = λ p. absurd (omega arith);
    } in
    let h = impute_loop-IsImputing ordered debts payments 0 start begun in
    let end = impute_loop ordered start payments in
    let counted : length end.opened ≡ length ordered =
      omega (arith, h.counted, length-map debt ordered) in
    let t = settled_map_total ordered end.opened counted h.bounded in
    subst
      (λ owed.
        (settled_total (settled_map ordered end.opened) ≡ min (given_total payments) owed)
        × (end.surplus ≡ given_total payments - owed))
      (sum-sort oldest_first debt lines)
      (totals_of (settled_total (settled_map ordered end.opened)) (sum end.opened)
        (owed_total ordered) (given_total payments) end.surplus t (omega (arith, h.conserved))
        h.exhausted)

sum-reverse {ℓ} : {A : Type ℓ} (f : A → ℕ) (xs : List A) → sum (map f (reverse xs)) ≡ sum (map f xs)
sum-reverse f [] = refl
sum-reverse f (x ∷ xs) =
    rw (reverse-append (x ∷ []) xs, map-append)
      (omega (arith, sum-append (map f (reverse xs)) (f x ∷ []), sum-reverse f xs))

take_back_total :
    (left : ℕ) (payments : List Payment)
    → given_total (take_back left payments) ≡ given_total payments - left
unfolding take_back
take_back_total left [] = omega arith
take_back_total left (payment ∷ payments) =
    omega (arith, take_back_total (left - min (amount_of payment) left) payments)

-- Taking an amount off the newest payments lowers what was given by that amount, and by all of it if
-- there is less.
pub without_newest_total :
    (payments : List Payment) (amount : ℕ)
    → given_total (without_newest payments amount) ≡ given_total payments - amount
unfolding without_newest
without_newest_total payments amount = omega (
  arith,
  sum-reverse amount_of (take_back amount (reverse payments)),
  take_back_total amount (reverse payments),
  sum-reverse amount_of payments,
)

sum-map-map {ℓ κ} :
    {A : Type ℓ} {B : Type κ} (f : A → B) (g : B → ℕ) (xs : List A)
    → sum (map g (map f xs)) ≡ sum (map (λ x. g (f x)) xs)
sum-map-map f g [] = refl
sum-map-map f g (x ∷ xs) = omega (arith, sum-map-map f g xs)

given_total-sort :
    (f : SettledPayment → Payment) (payments : List SettledPayment)
    → given_total (map f (sort creation_order payments)) ≡ given_total (map f payments)
given_total-sort f payments = omega (
  arith,
  sum-map-map f amount_of (sort creation_order payments),
  sum-sort creation_order (λ p. amount_of (f p)) payments,
  sum-map-map f amount_of payments,
)

module _ (their_lines your_lines : List OwedLine) (payments : List SettledPayment) where
  -- What they handed over, and what you did.
  abbrev pub they_gave : ℕ
  they_gave = given_total (map collected_of payments)

  abbrev pub you_gave : ℕ
  you_gave = given_total (map paid_of payments)

  -- With one person, what you hand over pays your lines, and what is beyond them comes off what they
  -- handed over, which pays theirs; only what neither takes is a surplus.
  pub impute_counterparty_totals :
      let r = impute_counterparty their_lines your_lines payments in
      let back = you_gave - owed_total your_lines in
      (settled_total r.yours ≡ min you_gave (owed_total your_lines))
      × (settled_total r.theirs ≡ min (they_gave - back) (owed_total their_lines))
      × (r.surplus.theirs ≡ they_gave - back - owed_total their_lines)
      × (r.surplus.yours ≡ back - they_gave)
  unfolding impute_counterparty
  impute_counterparty_totals =
      let ordered = sort creation_order payments in
      let yours = impute_totals your_lines (map paid_of ordered) in
      let spare = (impute your_lines (map paid_of ordered)).surplus in
      let kept = without_newest (map collected_of ordered) spare in
      omega (
        arith,
        yours,
        impute_totals their_lines kept,
        without_newest_total (map collected_of ordered) spare,
        given_total-sort paid_of payments,
        given_total-sort collected_of payments,
      )
