-- ===== src/Imputation/Rounds.antt =====
-- The outer loop of `impute` in src/shared/sharedImputation.ts: what stays true round by round.
use native.Mathlib.Decide.{dec_lt}
use mathlib.Core.Path.{subst}
use lag_money_manager.Prelude.{
  ℕ, zero, suc, ◌+◌, ◌-◌, ◌≤◌, ◌<◌, ◌≡◌, refl, ap, ◌∙◌, ◌⊎◌, inl, inr, List, [], ◌∷◌, ◌++◌, map,
  arith, length, sum, ltb, ◌==◌, ◌&&◌, Bool-cases,
}
use lag_money_manager.Imputation.{
  OwedLine, Payment, Loop, amount_of, at, range_from, own_group, cover, skip_closed, impute_one,
  impute_loop,
}
use lag_money_manager.Imputation.Cover.{
  cover_conserves, length-cover, cover_le, cover_closes, All-range_from, All-append_right, sum_zero,
}

-- All that stands before an index is closed.
abbrev pub ClosedBefore : List ℕ → ℕ → Type 0
ClosedBefore opened k = (j : ℕ) → j < k → at opened j ≡ 0

pub skip_closed-ClosedBefore :
    (fuel : ℕ) (opened : List ℕ) (k : ℕ)
    → ClosedBefore opened k
    → ClosedBefore opened (skip_closed fuel opened k)
unfolding skip_closed
skip_closed-ClosedBefore zero opened k h = h
skip_closed-ClosedBefore (suc fuel) opened k h =
    elim (Bool-cases (ltb k (length opened) && at opened k == 0)) [
      | inl e ↦ rw e (skip_closed-ClosedBefore fuel opened (suc k) (λ j l. ground (arith, h j)))
      | inr e ↦ rw e h
    ]

-- The first line from `k` on that is open, or the end of the lines: all that it passed over is closed.
pub record IsFirstOpen (opened : List ℕ) (k first : ℕ) : Type 0 where
  pub kept : k ≤ first
  pub passed : (j : ℕ) → k ≤ j → j < first → at opened j ≡ 0
  pub stopped : (length opened ≤ first) ⊎ (0 < at opened first)
  pub inside : (first ≡ k) ⊎ (first ≤ length opened)

-- A closed line is passed over.
IsFirstOpen-suc :
    (opened : List ℕ) (k first : ℕ)
    → k < length opened
    → at opened k ≡ 0
    → IsFirstOpen opened (suc k) first
    → IsFirstOpen opened k first
IsFirstOpen-suc opened k first l z h = record {
  kept = omega (arith, h.kept);
  passed = λ j a b. elim (dec_lt k j) [
    | yes c ↦ h.passed j (omega arith) b
    | no c ↦ (let same : j ≡ k = omega arith in ap (at opened) same ∙ z)
  ];
  stopped = h.stopped;
  inside = elim (h.inside) [ inl e ↦ inr (omega arith) | inr e ↦ inr e ];
}

skip_closed-IsFirstOpen :
    (fuel : ℕ) (opened : List ℕ) (k : ℕ)
    → length opened ≤ k + fuel
    → IsFirstOpen opened k (skip_closed fuel opened k)
unfolding skip_closed
skip_closed-IsFirstOpen zero opened k h = record {
  kept = omega arith;
  passed = λ j a b. absurd (omega arith);
  stopped = inl (omega arith);
  inside = inl refl;
}
skip_closed-IsFirstOpen (suc fuel) opened k h =
    elim (Bool-cases (ltb k (length opened) && at opened k == 0)) [
      | inl e ↦ rw e (
          IsFirstOpen-suc opened k (skip_closed fuel opened (suc k)) (ground arith) (ground arith)
            (skip_closed-IsFirstOpen fuel opened (suc k) (omega arith)))
      | inr e ↦ rw e (record {
        kept = omega arith;
        passed = λ j a b. absurd (omega arith);
        stopped = ground arith;
        inside = inl refl;
      })
    ]

-- A round of the outer loop moves `first_open`, wherever it stood, to the first line from there on that is open as the round begins, or to the end of the lines, and no further.
pub impute_one-IsFirstOpen :
    (lines : List OwedLine) (s : Loop) (payment : Payment)
    → IsFirstOpen s.opened s.first_open (impute_one lines s payment).first_open
unfolding impute_one
impute_one-IsFirstOpen lines s payment =
    skip_closed-IsFirstOpen (length s.opened) s.opened s.first_open (omega arith)

-- What holds of the variables of the loop after payments that come to `given`.
pub record IsImputing (debts : List ℕ) (given : ℕ) (s : Loop) : Type 0 where
  pub counted : length s.opened ≡ length debts
  pub bounded : (j : ℕ) → at s.opened j ≤ at debts j
  pub closed : ClosedBefore s.opened s.first_open
  pub conserved : sum s.opened + given ≡ sum debts + s.surplus
  pub exhausted : 0 < s.surplus → sum s.opened ≡ 0

module _ (lines : List OwedLine) (debts : List ℕ) where
  impute_one-IsImputing :
      (given : ℕ) (s : Loop) (payment : Payment)
      → IsImputing debts given s
      → IsImputing debts (given + amount_of payment) (impute_one lines s payment)
  unfolding impute_one
  impute_one-IsImputing given s payment h =
      let amount = amount_of payment in
      let n = length s.opened in
      let first = skip_closed n s.opened s.first_open in
      let own = own_group payment.group_id lines in
      let rest = range_from first (n - first) in
      let before : ClosedBefore s.opened first =
        skip_closed-ClosedBefore n s.opened s.first_open h.closed in
      let after = (cover (own ++ rest) s.opened amount).0 in
      let left = (cover (own ++ rest) s.opened amount).1 in
      let le : (j : ℕ) → at after j ≤ at s.opened j = cover_le (own ++ rest) s.opened amount in
      let same : length after ≡ n = length-cover (own ++ rest) s.opened amount in
      let split = cover_conserves (own ++ rest) s.opened amount in
      let visited : 0 < left → sum after ≡ 0 = λ p.
        let all = All-append_right _ own rest (cover_closes (own ++ rest) s.opened amount p) in
        sum_zero after λ j l. elim (dec_lt j first) [
          | yes b ↦ omega (arith, le j, before j b)
          | no b ↦
              All-range_from (λ i. at after i ≡ 0) first (n - first) j all (omega arith)
                (omega (arith, same))
        ] in
      let emptied : 0 < s.surplus + left → sum after ≡ 0 = λ p. elim (dec_lt 0 left) [
        | yes b ↦ visited b
        | no b ↦ omega (arith, split, h.exhausted (omega arith))
      ] in
      record {
        counted = omega (arith, h.counted);
        bounded = λ j. omega (arith, le j, h.bounded j);
        closed = λ j l. omega (arith, le j, before j l);
        conserved = omega (arith, h.conserved, split);
        exhausted = λ p. emptied p;
      }

  pub impute_loop-IsImputing :
      (payments : List Payment) (given : ℕ) (s : Loop)
      → IsImputing debts given s
      → IsImputing debts (given + sum (map amount_of payments)) (impute_loop lines s payments)
  unfolding impute_loop
  impute_loop-IsImputing [] given s h = subst (λ g. IsImputing debts g s) (omega arith) h
  impute_loop-IsImputing (payment ∷ payments) given s h =
      subst (λ g. IsImputing debts g (impute_loop lines (impute_one lines s payment) payments))
        (omega arith)
        (impute_loop-IsImputing payments (given + amount_of payment) (impute_one lines s payment)
          (impute_one-IsImputing given s payment h))
