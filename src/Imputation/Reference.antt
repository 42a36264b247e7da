-- ===== src/Imputation/Reference.antt =====
-- Which lines one payment of `impute` reaches, and the start at the first open line:
-- src/shared/sharedImputation.ts.
use native.Mathlib.Nat.{zero-add, add-zero, sub-zero}
use native.Mathlib.Decide.{dec_lt}
use mathlib.Core.Path.{subst}
use lag_money_manager.Prelude.{
  ℕ, zero, suc, ◌+◌, ◌-◌, ◌≤◌, ◌<◌, ◌≡◌, refl, sym, ap, ◌∙◌, ◌≢◌, Option, none, some, List, [], ◌∷◌,
  ◌++◌, min, arith, length, All, get_elem?, Bool-cases, inl, inr, same_id, same_id_iff, true, Bool,
  false,
}
use mathlib.Core.Option.{some-injective}
use lag_money_manager.Prelude.Int.{ℤ, pos_part}
use lag_money_manager.Imputation.{
  OwedLine, Payment, Loop, at, lower, range_from, own_lines, own_group, cover, skip_closed,
  impute_one,
}
use lag_money_manager.Imputation.Cover.{cover_le, cover_closes, cover_step, cover_spent}
use lag_money_manager.Imputation.Rounds.{ClosedBefore, skip_closed-ClosedBefore}
use lag_money_manager.Imputation.Priority.{
  cover-append, cover_untouched, cover_in_order, spent_of_moved,
}

abbrev pub payment_of : ℤ → Option ℕ → Payment
payment_of amount g = record { amount = amount; group_id = g }

-- A payment of no group covers the oldest line first: one that it lowers has only closed lines
-- before it.
pub impute_one_oldest_first :
    (lines : List OwedLine) (s : Loop) (amount : ℤ) (i j : ℕ)
    → ClosedBefore s.opened s.first_open
    → i < j
    → let opened = (impute_one lines s (payment_of amount none)).opened in
      at opened j < at s.opened j → at opened i ≡ 0
unfolding impute_one
impute_one_oldest_first lines s amount i j h l d =
    let n = length s.opened in
    let first = skip_closed n s.opened s.first_open in
    let rest = range_from first (n - first) in
    elim (dec_lt i first) [
      | yes b ↦ omega (
        arith,
        cover_le rest s.opened (pos_part amount) i,
        skip_closed-ClosedBefore n s.opened s.first_open h i b,
      )
      | no b ↦ cover_in_order first (n - first) s.opened (pos_part amount) i j (omega arith) l d
    ]

-- Whether a line is of the group.
abbrev is_own : ℕ → OwedLine → Bool
is_own g line = same_id line.group_id (some g)

All-own_lines :
    (P : ℕ → Type 0) (g k : ℕ) (lines : List OwedLine) (i : ℕ) (x : OwedLine)
    → All P (own_lines g k lines)
    → get_elem? lines i ≡ some x
    → is_own g x ≡ true
    → P (k + i)
unfolding own_lines
All-own_lines P g k [] i x a e f = cc
All-own_lines P g k (line ∷ lines) zero x a e f =
    let own : is_own g line ≡ true = ap (is_own g) (some-injective line x e) ∙ f in
    subst P (omega arith) (rw own at a).0
All-own_lines P g k (line ∷ lines) (suc i) x a e f =
    subst P (omega arith) (elim (Bool-cases (is_own g line)) [
      | inl b ↦ All-own_lines P g (suc k) lines i x (rw b at a).1 e f
      | inr b ↦ All-own_lines P g (suc k) lines i x (rw b at a) e f
    ])

own_lines_ne : (g k j : ℕ) (lines : List OwedLine) → j < k → All (λ i. i ≢ j) (own_lines g k lines)
unfolding own_lines
own_lines_ne g k j [] h = tt
own_lines_ne g k j (line ∷ lines) h = elim (Bool-cases (is_own g line)) [
  | inl b ↦ rw b (omega arith, own_lines_ne g (suc k) j lines (omega arith))
  | inr b ↦ rw b (own_lines_ne g (suc k) j lines (omega arith))
]

other_line :
    (g k : ℕ) (lines : List OwedLine) (j : ℕ) (y : OwedLine)
    → get_elem? lines j ≡ some y
    → is_own g y ≡ false
    → All (λ i. i ≢ k + j) (own_lines g k lines)
unfolding own_lines
other_line g k [] j y e h = tt
other_line g k (line ∷ lines) zero y e h =
    let other : is_own g line ≡ false = ap (is_own g) (some-injective line y e) ∙ h in
    rw other (own_lines_ne g (suc k) (k + 0) lines (omega arith))
other_line g k (line ∷ lines) (suc j) y e h =
    let rest = other_line g (suc k) lines j y e h in
    let moved : All (λ i. i ≢ k + suc j) (own_lines g (suc k) lines) =
      subst (λ t. All (λ i. i ≢ t) (own_lines g (suc k) lines)) (omega arith) rest in
    elim (Bool-cases (is_own g line)) [ inl b ↦ rw b (omega arith, moved) | inr b ↦ rw b moved ]

-- A payment of a group covers the lines of the group first: if it lowers a line of another group, or
-- of none, then every line of its own group is closed.
pub impute_one_own_group_first :
    (lines : List OwedLine) (s : Loop) (amount : ℤ) (g i j : ℕ) (x y : OwedLine)
    → get_elem? lines i ≡ some x
    → x.group_id ≡ some g
    → get_elem? lines j ≡ some y
    → y.group_id ≢ some g
    → let opened = (impute_one lines s (payment_of amount (some g))).opened in
      at opened j < at s.opened j → at opened i ≡ 0
unfolding impute_one own_group
impute_one_own_group_first lines s amount g i j x y ex gx ey gy d =
    let n = length s.opened in
    let first = skip_closed n s.opened s.first_open in
    let rest = range_from first (n - first) in
    let own = own_lines g 0 lines in
    let mid = cover own s.opened (pos_part amount) in
    let split = cover-append own rest s.opened (pos_part amount) in
    let not_own : is_own g y ≡ false = elim (Bool-cases (is_own g y)) [
      | inl b ↦ absurd (gy ((same_id_iff y.group_id (some g)).0 b))
      | inr b ↦ b
    ] in
    let kept : at mid.0 j ≡ at s.opened j =
      cover_untouched own s.opened (pos_part amount) j
        (rw zero-add at (other_line g 0 lines j y ey not_own)) in
    let d' : at (cover rest mid.0 mid.1).0 j < at mid.0 j =
      omega (arith, kept, subst (λ r. at r.0 j < at s.opened j) split d) in
    let closed : at mid.0 i ≡ 0 = rw zero-add at (
      All-own_lines (λ k. at mid.0 k ≡ 0) g 0 lines i x
        (cover_closes own s.opened (pos_part amount) (spent_of_moved rest mid.0 mid.1 j d')) ex
        ((same_id_iff x.group_id (some g)).1 gx)) in
    subst (λ r. at r.0 i ≡ 0) (sym split) (omega (arith, closed, cover_le rest mid.0 mid.1 i))

-- The loop from the first line on, closed or not: what `impute` would do without `firstOpen`.
abbrev pub cover_all : List OwedLine → Loop → Payment → List ℕ × ℕ
cover_all lines s payment =
    cover (own_group payment.group_id lines ++ range_from 0 (length s.opened)) s.opened
      (pos_part payment.amount)

lower_zero : (xs : List ℕ) (i : ℕ) → lower xs i 0 ≡ xs
lower_zero [] i = refl
lower_zero (x ∷ xs) zero = ap (λ t. t ∷ xs) (omega arith)
lower_zero (x ∷ xs) (suc i) = ap (◌∷◌ x) (lower_zero xs i)

cover_closed :
    (is js opened : List ℕ) (left : ℕ)
    → All (λ i. at opened i ≡ 0) is
    → cover (is ++ js) opened left ≡ cover js opened left
cover_closed [] js opened left a = refl
cover_closed (i ∷ is) js opened zero a = cover_spent _ opened ∙ sym (cover_spent js opened)
cover_closed (i ∷ is) js opened (suc n) a =
    let nothing : min (at opened i) (suc n) ≡ 0 = omega (arith, a.0) in
    cover_step i (is ++ js) opened (suc n) (omega arith)
    ∙ rw (nothing, lower_zero, sub-zero) (cover_closed is js opened (suc n) a.1)

range_from-append : (k a b : ℕ) → range_from k (a + b) ≡ range_from k a ++ range_from (k + a) b
range_from-append k zero b = rw (zero-add, add-zero)
range_from-append k (suc a) b =
    let e : suc a + b ≡ suc (a + b) = omega arith in
    let f : k + suc a ≡ suc k + a = omega arith in
    rw (e, f) (ap (◌∷◌ k) (range_from-append (suc k) a b))

All-range : (P : ℕ → Type 0) (k n : ℕ) → ((j : ℕ) → j < k + n → P j) → All P (range_from k n)
All-range P k zero h = tt
All-range P k (suc n) h = (h k (omega arith), All-range P (suc k) n (λ j l. h j (omega arith)))

skip_closed_le :
    (fuel : ℕ) (opened : List ℕ) (k : ℕ)
    → k ≤ length opened
    → skip_closed fuel opened k ≤ length opened
unfolding skip_closed
skip_closed_le zero opened k h = h
skip_closed_le (suc fuel) opened k h = ground (arith, skip_closed_le fuel opened (suc k))

-- Starting at the first open line leaves the same lines open, and the same surplus, as going through
-- all of them, as long as all before it are closed.
pub impute_one-cover_all :
    (lines : List OwedLine) (s : Loop) (payment : Payment)
    → ClosedBefore s.opened s.first_open
    → s.first_open ≤ length s.opened
    → let r = cover_all lines s payment in
      let s' = impute_one lines s payment in (s'.opened ≡ r.0) × (s'.surplus ≡ s.surplus + r.1)
unfolding impute_one
impute_one-cover_all lines s payment h b =
    let n = length s.opened in
    let money = pos_part payment.amount in
    let first = skip_closed n s.opened s.first_open in
    let rest = range_from first (n - first) in
    let own = own_group payment.group_id lines in
    let mid = cover own s.opened money in
    let reached = skip_closed_le n s.opened s.first_open b in
    let before = skip_closed-ClosedBefore n s.opened s.first_open h in
    let shut : All (λ i. at mid.0 i ≡ 0) (range_from 0 first) =
      All-range (λ i. at mid.0 i ≡ 0) 0 first
        (λ j l. omega (arith, cover_le own s.opened money j, before j (omega arith))) in
    let whole : range_from 0 n ≡ range_from 0 first ++ rest =
      subst (λ t. range_from 0 n ≡ range_from 0 first ++ range_from t (n - first)) (zero-add first)
        (subst (λ t. range_from 0 t ≡ range_from 0 first ++ range_from (0 + first) (n - first))
          (omega arith) (range_from-append 0 first (n - first))) in
    let same : cover (own ++ rest) s.opened money ≡ cover (own ++ range_from 0 n) s.opened money =
      cover-append own rest s.opened money
      ∙ sym (cover_closed (range_from 0 first) rest mid.0 mid.1 shut)
      ∙ ap (λ t. cover t mid.0 mid.1) (sym whole)
      ∙ sym (cover-append own (range_from 0 n) s.opened money) in
    (ap (λ r. r.0) same, ap (λ r. s.surplus + r.1) same)
