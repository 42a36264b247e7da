-- ===== src/Sessions/Reissue.antt =====
-- The pairs that src/app/services/AuthService.ts gives again for one rotated token whose answer was lost.
use mathlib.Core.Path.{subst}
use lag_money_manager.Prelude.{
  ℕ, suc, ◌+◌, ◌-◌, max, ◌≤◌, ◌≡◌, refl, sym, Option, none, some, List, [], ◌∷◌, ltb, leb,
  Bool-cases, inl, inr, arith, All,
}
use lag_money_manager.Sessions.{
  RefreshSession, Sessions, find_by_id, write_row, update_found, is_replaced, counted,
  count_reissue,
}
use lag_money_manager.Sessions.Service.{
  AuthUser, LostAnswer, reissued, spent, replay, refresh_reissue_limit, remaining_seconds,
  is_touched, judge_successor, judge_counted, answer_again, tokens_of_lost_answer,
}
use lag_money_manager.Sessions.Families.{find-jti, find-write_row}

-- How often a row has answered again.
abbrev pub count_of : Option RefreshSession → ℕ
count_of none = 0
count_of (some row) = row.reissue_count

-- One presentation of the token: its instant, and what other requests write until the next one.
pub record Presentation : Type 0 where
  pub now : ℕ
  pub others : Sessions → Sessions

abbrev is_reissue : LostAnswer → ℕ
is_reissue (reissued tokens count) = 1
is_reissue _ = 0

-- The pairs given when a stale row's token is presented again and again.
unfoldable pub pairs_given : AuthUser → RefreshSession → List Presentation → Sessions → ℕ
pairs_given user stale [] rows = 0
pairs_given user stale (p ∷ ps) rows =
    let answer = tokens_of_lost_answer user stale p.now (λ rs. rs) rows in
    is_reissue answer.0 + pairs_given user stale ps (p.others answer.1)

-- Other requests keep the row, and do not count less for it than it has.
abbrev pub KeepsCount : ℕ → Presentation → Type 0
KeepsCount jti p =
    (rows : Sessions) → count_of (find_by_id jti rows) ≤ count_of (find_by_id jti (p.others rows))

-- An answer that gives a pair counts it, up to the limit; another answer does not lower the count.
abbrev IsCounted : ℕ → ℕ → LostAnswer × Sessions → Type 0
IsCounted jti before (answer, rows) =
    (before + is_reissue answer ≤ count_of (find_by_id jti rows))
    × (is_reissue answer + before ≤ max refresh_reissue_limit before)

judged_count :
    (user : AuthUser) (now count : ℕ) (successor : Option RefreshSession)
    → is_reissue (judge_successor user now (suc count) successor) + count
      ≤ max refresh_reissue_limit count
judged_count user now count none = ground arith
judged_count user now count (some successor) = elim (Bool-cases (is_touched successor)) [
  | inl e ↦ rw e (ground arith)
  | inr e ↦ elim (Bool-cases (ltb refresh_reissue_limit (suc count))) [
    | inl f ↦ rw (e, f) (ground arith)
    | inr f ↦ elim (Bool-cases (leb (remaining_seconds successor.expires_at now) 0)) [
      | inl g ↦ rw (e, f, g) (ground arith)
      | inr g ↦ rw (e, f, g) (ground arith)
    ]
  ]
]

at_most_one : (answer : LostAnswer) → is_reissue answer ≤ 1
at_most_one (reissued tokens count) = omega arith
at_most_one spent = omega arith
at_most_one replay = omega arith

nothing-IsCounted :
    (jti : ℕ) (rows : Sessions) → IsCounted jti (count_of (find_by_id jti rows)) (replay, rows)
nothing-IsCounted jti rows = (omega arith, ground arith)

counted_found :
    (user : AuthUser) (now jti next : ℕ) (rows : Sessions) (found : Option RefreshSession)
    → find_by_id jti rows ≡ found
    → IsCounted jti
        (count_of found)
        (judge_counted user now next (λ rs. rs) (update_found is_replaced (counted now) found rows))
counted_found user now jti next rows none f =
    subst (λ o. IsCounted jti (count_of o) (replay, rows)) f (nothing-IsCounted jti rows)
counted_found user now jti next rows (some row) f = elim (Bool-cases (is_replaced row)) [
  | inl e ↦
      (let left = write_row row.jti (counted now) rows in
        let own = subst (λ j. find_by_id j rows ≡ some row) (sym (find-jti jti rows f)) f in
        let there = find-write_row row.jti (counted now) rows (λ r. refl) own in
        let here =
          subst (λ j. find_by_id j left ≡ some (counted now row)) (find-jti jti rows f) there in
        let answer = judge_successor user now (suc row.reissue_count) (find_by_id next left) in
        rw (e, here)
          (
            omega (arith, at_most_one answer),
            judged_count user now row.reissue_count (find_by_id next left),
          ))
  | inr e ↦
      rw e (subst (λ o. IsCounted jti (count_of o) (replay, rows)) f (nothing-IsCounted jti rows))
]

answer-IsCounted :
    (user : AuthUser) (now jti : ℕ) (next : Option ℕ) (rows : Sessions)
    → IsCounted jti
        (count_of (find_by_id jti rows))
        (answer_again user now jti next (λ rs. rs) rows)
unfolding count_reissue
answer-IsCounted user now jti none rows = nothing-IsCounted jti rows
answer-IsCounted user now jti (some next) rows =
    counted_found user now jti next rows (find_by_id jti rows) refl

-- One rotated token is answered again at most ten times, less the times it was before, however often it is presented. What other requests write between two presentations does not lower the count of its row.
pub pairs_given_bound :
    (user : AuthUser) (stale : RefreshSession) (ps : List Presentation) (rows : Sessions)
    → All (KeepsCount stale.jti) ps
    → pairs_given user stale ps rows ≤ refresh_reissue_limit - count_of (find_by_id stale.jti rows)
unfolding pairs_given tokens_of_lost_answer
pairs_given_bound user stale [] rows keeps = omega arith
pairs_given_bound user stale (p ∷ ps) rows keeps =
    let answer = answer_again user p.now stale.jti stale.replaced_by (λ rs. rs) rows in
    let step = answer-IsCounted user p.now stale.jti stale.replaced_by rows in
    let kept = keeps.0 answer.1 in
    let rest = pairs_given_bound user stale ps (p.others answer.1) keeps.1 in
    omega (arith, step, kept, rest, at_most_one answer.0)
