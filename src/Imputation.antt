-- ===== src/Imputation.antt =====
-- src/shared/sharedImputation.ts: the one place a payment is spread over what is owed. Ids and
-- instants are only compared, so they are numbers. The keys of the lines are expense ids, no two of
-- them alike, so a `Map` from them is a list of pairs.
pub mod Cover
pub mod Rounds
pub mod Totals
pub mod Priority
pub mod Reference
mod Tests
use Prim.Native.Nat.{compare, Ordering}
use lag_money_manager.Prelude.{
  ℕ, zero, suc, ◌+◌, ◌-◌, ◌^◌, ◌&&◌, Option, none, some, List, [], ◌∷◌, ◌++◌, map, reverse, min,
  ltb, ◌==◌, if◌then◌else◌, same_id, or_default, length, sum,
}
use lag_money_manager.Prelude.Int.{ℤ, pos, pos_part}
use lag_money_manager.Sorting.{or_else, sort}

pub record OwedLine : Type 0 where
  pub key : ℕ
  pub date : ℕ
  pub owed : ℤ
  pub group_id : Option ℕ

pub record SettledPayment : Type 0 where
  pub id : ℕ
  pub created_at : Option ℕ
  pub collected : ℤ
  pub paid : ℤ
  pub group_id : Option ℕ

pub record Payment : Type 0 where
  pub amount : ℤ
  pub group_id : Option ℕ

pub record Surplus : Type 0 where
  pub theirs : ℕ
  pub yours : ℕ

pub record CounterpartyImputation : Type 0 where
  pub theirs : List (ℕ × ℕ)
  pub yours : List (ℕ × ℕ)
  pub surplus : Surplus

-- `oldestFirst`
unfoldable pub oldest_first : OwedLine → OwedLine → Ordering
oldest_first a b = or_else (compare a.date b.date) (compare a.key b.key)

-- `Number.MAX_SAFE_INTEGER`
abbrev pub max_safe_integer : ℕ
max_safe_integer = 2 ^ 53 - 1

-- `creationOrder`
unfoldable pub creation_order : SettledPayment → SettledPayment → Ordering
creation_order a b =
    or_else
      (compare (or_default a.created_at max_safe_integer)
        (or_default b.created_at max_safe_integer))
      (compare a.id b.id)

-- `Math.max(0, line.owed)`
abbrev pub debt : OwedLine → ℕ
debt line = pos_part line.owed

abbrev pub amount_of : Payment → ℕ
amount_of payment = pos_part payment.amount

-- `open[i]`
abbrev pub at : List ℕ → ℕ → ℕ
at [] i = 0
at (x ∷ xs) zero = x
at (x ∷ xs) (suc i) = at xs i

-- `open[i] -= covered`
abbrev pub lower : List ℕ → ℕ → ℕ → List ℕ
lower [] i c = []
lower (x ∷ xs) zero c = (x - c) ∷ xs
lower (x ∷ xs) (suc i) c = x ∷ lower xs i c

-- The indices `k`, `k + 1`, …, so many of them.
abbrev pub range_from : ℕ → ℕ → List ℕ
range_from k zero = []
range_from k (suc n) = k ∷ range_from (suc k) n

-- The lines of the payment's own group: `everyLine.filter(...)`, from the index `k` on.
unfoldable pub own_lines : ℕ → ℕ → List OwedLine → List ℕ
own_lines g k [] = []
own_lines g k (line ∷ lines) =
    if same_id line.group_id (some g)
    then k ∷ own_lines g (suc k) lines
    else own_lines g (suc k) lines

unfoldable pub own_group : Option ℕ → List OwedLine → List ℕ
unfolding own_lines
own_group none lines = []
own_group (some g) lines = own_lines g 0 lines

-- The inner loop of `impute`: what is open afterwards, and what is left of the payment.
unfoldable pub cover : List ℕ → List ℕ → ℕ → List ℕ × ℕ
cover [] opened left = (opened, left)
cover (i ∷ is) opened left =
    let covered = min (at opened i) left in
    if left == 0 then (opened, left) else cover is (lower opened i covered) (left - covered)

-- `while (firstOpen < open.length && open[firstOpen] === 0) firstOpen += 1`, on fuel.
unfoldable pub skip_closed : ℕ → List ℕ → ℕ → ℕ
skip_closed zero opened k = k
skip_closed (suc fuel) opened k =
    if ltb k (length opened) && at opened k == 0 then skip_closed fuel opened (suc k) else k

-- The variables of the outer loop.
pub record Loop : Type 0 where
  pub opened : List ℕ
  pub first_open : ℕ
  pub surplus : ℕ

-- One round of the outer loop. The fuel is the number of lines.
unfoldable pub impute_one : List OwedLine → Loop → Payment → Loop
unfolding skip_closed own_group cover
impute_one lines s payment =
    let first = skip_closed (length s.opened) s.opened s.first_open in
    let rest = range_from first (length s.opened - first) in
    let (opened, left) =
      cover (own_group payment.group_id lines ++ rest) s.opened (amount_of payment) in
    record { opened = opened; first_open = first; surplus = s.surplus + left }

unfoldable pub impute_loop : List OwedLine → Loop → List Payment → Loop
impute_loop lines s [] = s
impute_loop lines s (payment ∷ payments) = impute_loop lines (impute_one lines s payment) payments

-- `new Map(ordered.map((line, i) => [line.key, Math.max(0, line.owed) - open[i]]))`
abbrev pub settled_map : List OwedLine → List ℕ → List (ℕ × ℕ)
settled_map [] opened = []
settled_map (line ∷ lines) [] = (line.key, debt line) ∷ settled_map lines []
settled_map (line ∷ lines) (o ∷ opened) = (line.key, debt line - o) ∷ settled_map lines opened

abbrev pub Imputed : Type 0
Imputed = record { settled : List (ℕ × ℕ); surplus : ℕ }

unfoldable pub impute : List OwedLine → List Payment → Imputed
impute lines payments =
    let ordered = sort oldest_first lines in
    let start : Loop = record { opened = map debt ordered; first_open = 0; surplus = 0 } in
    let end = impute_loop ordered start payments in
    record { settled = settled_map ordered end.opened; surplus = end.surplus }

-- The mapping of `withoutNewest`, from the newest payment on.
unfoldable pub take_back : ℕ → List Payment → List Payment
take_back left [] = []
take_back left (payment ∷ payments) =
    let taken = min (amount_of payment) left in
    record payment { amount = pos (amount_of payment - taken) } ∷ take_back (left - taken) payments

unfoldable pub without_newest : List Payment → ℕ → List Payment
without_newest payments amount = reverse (take_back amount (reverse payments))

abbrev pub paid_of : SettledPayment → Payment
paid_of one = record { amount = one.paid; group_id = one.group_id }

abbrev pub collected_of : SettledPayment → Payment
collected_of one = record { amount = one.collected; group_id = one.group_id }

unfoldable pub impute_counterparty :
    List OwedLine → List OwedLine → List SettledPayment → CounterpartyImputation
impute_counterparty their_lines your_lines payments =
    let ordered = sort creation_order payments in
    let yours = impute your_lines (map paid_of ordered) in
    let collected = map collected_of ordered in
    let theirs = impute their_lines (without_newest collected yours.surplus) in
    let they_gave = sum (map amount_of collected) in
    record {
      theirs = theirs.settled;
      yours = yours.settled;
      surplus = record { theirs = theirs.surplus; yours = yours.surplus - they_gave };
    }
