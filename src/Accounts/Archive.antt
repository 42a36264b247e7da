-- ===== src/Accounts/Archive.antt =====
-- An archive of src/app/services/AccountService.ts that is asked for again.
use mathlib.Core.Path.{subst}
use lag_money_manager.Prelude.{
  ℕ, true, false, not, ◌&&◌, ◌≡◌, refl, ap, Option, none, some, ◌==◌, Bool-cases, inl, inr, arith,
}
use lag_money_manager.Errors.{ok, throw_if, >>=-eq-ok, >>-eq-ok, passed, ok_inj}
use lag_money_manager.Concurrency.{assert_fresh}
use lag_money_manager.Accounts.{Account, Accounts}
use lag_money_manager.Accounts.Repository.{
  is_active, at_version, where_holds, archive_non_default, write_found,
}
use lag_money_manager.Accounts.Requests.{own, archive_blocked, archived_now, delete_account}
use lag_money_manager.Accounts.Sound.{where_found}

-- The account that an archive answered: stored as it is, archived, and of the user.
abbrev pub IsArchived : ℕ → ℕ → Account × Accounts → Type 0
IsArchived id user_id (a, accounts) =
    (accounts id ≡ some a) × (is_active a ≡ false) × ((a.user_id == user_id) ≡ true)

own_found :
    (user_id : ℕ) (found : Option Account) {a : Account}
    → own user_id found ≡ ok a
    → (found ≡ some a) × ((a.user_id == user_id) ≡ true)
own_found user_id none h = cc
own_found user_id (some b) h = elim (Bool-cases (b.user_id == user_id)) [
  | inl e ↦
      (let same = ok_inj (rw e at h) in
        (ap some same, subst (λ c. (c.user_id == user_id) ≡ true) same e))
  | inr e ↦ (let k = rw e at h in let f : ⊥ = cc in absurd f)
]

archived_now-IsArchived :
    (id user_id : ℕ) (version : Option ℕ) (change : Account → Account) (found : Option Account)
    (accounts : Accounts) {z : Account × Accounts}
    → ((b : Account)
        → found ≡ some b
        → (is_active (change b) ≡ false) × (((change b).user_id == user_id) ≡ true))
    → archived_now id user_id version (write_found found change id accounts) ≡ ok z
    → IsArchived id user_id z
archived_now-IsArchived id user_id version change none accounts f h =
    let first = >>=-eq-ok (own user_id (accounts id)) _ h in
    let fresh = >>-eq-ok (assert_fresh first.0.updated_at version) _ first.2 in
    let last = passed (is_active first.0) archive_blocked _ fresh.1 in
    let there = own_found user_id (accounts id) first.1 in
    subst (IsArchived id user_id) (ok_inj last.1) (there.0, last.0, there.1)
archived_now-IsArchived id user_id version change (some b) accounts f h =
    let here : (id == id) ≡ true = ground arith in
    subst (IsArchived id user_id) (ok_inj h) (rw here refl, (f b refl).0, (f b refl).1)

delete_account-IsArchived :
    (now id user_id : ℕ) (version : Option ℕ) (others : Accounts → Accounts) (accounts : Accounts)
    {z : Account × Accounts}
    → delete_account now id user_id version others accounts ≡ ok z
    → IsArchived id user_id z
unfolding delete_account archive_non_default
delete_account-IsArchived now id user_id version others accounts h =
    let first = >>=-eq-ok (own user_id (accounts id)) _ h in
    let fresh = >>-eq-ok (assert_fresh first.0.updated_at version) _ first.2 in
    elim (Bool-cases (is_active first.0)) [
      | inl e ↦
          (let k = rw e at fresh.1 in
            let last = >>-eq-ok (throw_if first.0.is_default archive_blocked) _ k in
            let filter = λ (a : Account).
              (a.user_id == user_id) && is_active a && not a.is_default && at_version version a in
            archived_now-IsArchived id user_id version
              (λ a. record a { archived_at = some now; updated_at = some now })
              (where_holds filter (others accounts id)) (others accounts)
              (λ b found.
                let holds = (where_found filter (others accounts id) found).1 in
                (refl, ground arith))
              last.1)
      | inr e ↦
          (let there = own_found user_id (accounts id) first.1 in
            subst (IsArchived id user_id) (ok_inj (rw e at fresh.1)) (there.0, e, there.1))
    ]

archived-again :
    (later id user_id : ℕ) (z : Account × Accounts)
    → IsArchived id user_id z
    → delete_account later id user_id none (λ s. s) z.1 ≡ ok z
unfolding delete_account assert_fresh
archived-again later id user_id (a, accounts) h = rw (h.0, h.2, h.1)

-- An archive that succeeds, also one that lost a race to another, answers the stored account, archived and of the user; asked for again, with no version and nothing written in between, it answers the same and changes nothing.
pub delete_account-twice :
    (now later id user_id : ℕ) (version : Option ℕ) (others : Accounts → Accounts)
    (accounts : Accounts) (z : Account × Accounts)
    → delete_account now id user_id version others accounts ≡ ok z
    → IsArchived id user_id z × (delete_account later id user_id none (λ s. s) z.1 ≡ ok z)
delete_account-twice now later id user_id version others accounts z h =
    let archived = delete_account-IsArchived now id user_id version others accounts h in
    (archived, archived-again later id user_id z archived)
