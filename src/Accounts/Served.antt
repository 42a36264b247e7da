-- ===== src/Accounts/Served.antt =====
-- Every request of src/app/services/AccountService.ts that writes, and what the collection holds after it.
use mathlib.Core.Path.{subst}
use Prim.Native.String.{String}
use lag_money_manager.Prelude.{
  ℕ, true, false, not, ◌&&◌, ◌≡◌, refl, ap, Option, none, some, List, ◌==◌, Bool-cases, inl, inr,
  arith,
}
use lag_money_manager.Errors.{Result, ok, err, throw_if, >>=-eq-ok, >>-eq-ok, passed, ok_inj}
use lag_money_manager.Concurrency.{assert_fresh}
use lag_money_manager.Accounts.{Account, Accounts}
use lag_money_manager.Accounts.Repository.{
  is_active, at_version, where_holds, archive_non_default, restore, Indexes, set_default, set_found,
  write_found, name_or, count_by_user_id, get_own_by_id,
}
use lag_money_manager.Accounts.Service.{
  CreateAccountDto, UpdateAccountDto, insert_account, set_default_account, default_or_not,
  not_default, missing, update_account, assert_room_for_one_more,
}
use lag_money_manager.Accounts.Requests.{
  own, archive_blocked, archived_now, delete_account, restored_now, restore_account,
}
use lag_money_manager.Accounts.Sound.{
  is_sound, IsSound, IsWellFormed, IsWellFormed-put, where_found,
}
use lag_money_manager.Accounts.Kept.{RefusesRivals, insert-IsWellFormed, set_found-IsWellFormed}
use lag_money_manager.Accounts.Edited.{AllStamped, StampsAnew, update_account-IsWellFormed}

-- A request that writes, with its arguments.
pub data Request : Type 0 where
  creates : (new_id : ℕ) → CreateAccountDto → Request
  sets_default : (id user_id : ℕ) → Option ℕ → Request
  updates : (id : ℕ) → UpdateAccountDto → (user_id : ℕ) → Option ℕ → Request
  archives : (id user_id : ℕ) → Option ℕ → Request
  restores : (id user_id : ℕ) → Option String → Option ℕ → Request

-- The method that serves a request; `others` writes between its first read and its write.
unfoldable pub serve :
    Indexes
    → (ℕ → Option String)
    → List ℕ
    → ℕ
    → Request
    → (Accounts → Accounts)
    → Accounts
    → Result (Account × Accounts)
serve refuses currency_of ids now (creates new_id dto) others accounts =
    insert_account refuses currency_of ids now new_id dto others accounts
serve refuses currency_of ids now (sets_default id user_id version) others accounts =
    set_default_account now id user_id version others accounts
serve refuses currency_of ids now (updates id dto user_id version) others accounts =
    update_account refuses now id dto user_id version others accounts
serve refuses currency_of ids now (archives id user_id version) others accounts =
    delete_account now id user_id version others accounts
serve refuses currency_of ids now (restores id user_id name version) others accounts =
    restore_account ids now id user_id name version others accounts

never_default :
    (current : Option Account) (version : Option ℕ) {z : Account × Accounts}
    → not_default current version ≡ ok z
    → ⊥
never_default none version h = cc
never_default (some a) version h =
    let later = >>-eq-ok (assert_fresh a.updated_at version) (err missing) h in
    let k = later.1 in cc

defaulted :
    (now id user_id : ℕ) (found current : Option Account) (version : Option ℕ) (accounts : Accounts)
    {a : Account} {after : Accounts}
    → ((b : Account) → found ≡ some b → IsWellFormed (set_found now id user_id (some b) accounts).1)
    → default_or_not (set_found now id user_id found accounts) current version ≡ ok (a, after)
    → IsWellFormed after
defaulted now id user_id none current version accounts f h =
    absurd (never_default current version h)
defaulted now id user_id (some b) current version accounts f h =
    subst IsWellFormed (ap (λ z. z.1) (ok_inj h)) (f b refl)

set_default-IsWellFormed :
    (now id user_id : ℕ) (version : Option ℕ) (others : Accounts → Accounts) (accounts : Accounts)
    {a : Account} {after : Accounts}
    → IsWellFormed accounts
    → set_default_account now id user_id version others accounts ≡ ok (a, after)
    → IsWellFormed after
unfolding set_default_account set_default
set_default-IsWellFormed now id user_id version others accounts wf h =
    let filter = λ (b : Account). (b.user_id == user_id) && is_active b && at_version version b in
    defaulted now id user_id (where_holds filter (accounts id))
      (get_own_by_id id user_id (others accounts)) version accounts
      (λ b found.
        let there = where_found filter (accounts id) found in
        let holds = there.1 in
        set_found-IsWellFormed now id user_id b accounts (ground arith) (ground arith)
          (subst IsSound there.0 (wf.0 id)) wf)
      h

archived-IsWellFormed :
    (now id user_id : ℕ) (version : Option ℕ) (accounts : Accounts) {a : Account} {after : Accounts}
    → IsWellFormed accounts
    → archived_now id user_id version (archive_non_default now id user_id version accounts)
      ≡ ok (a, after)
    → IsWellFormed after
unfolding archive_non_default
archived-IsWellFormed now id user_id version accounts wf h =
    let filter = λ (b : Account).
      (b.user_id == user_id) && is_active b && not b.is_default && at_version version b in
    written (where_holds filter (accounts id))
      (λ b found.
        let there = where_found filter (accounts id) found in
        let holds = there.1 in
        let sound = subst IsSound there.0 (wf.0 id) in (ground arith, ground arith))
      h
  where
    gone : Account → Account
    gone b = record b { archived_at = some now; updated_at = some now }

    written :
        (found : Option Account) {a : Account} {after : Accounts}
        → ((b : Account) → found ≡ some b → (is_sound (gone b) ≡ true) × (b.is_default ≡ false))
        → archived_now id user_id version (write_found found gone id accounts) ≡ ok (a, after)
        → IsWellFormed after
    written none f h =
        let first = >>=-eq-ok (own user_id (accounts id)) _ h in
        let fresh = >>-eq-ok (assert_fresh first.0.updated_at version) _ first.2 in
        let last = passed (is_active first.0) archive_blocked _ fresh.1 in
        subst IsWellFormed (ap (λ z. z.1) (ok_inj last.1)) wf
    written (some b) f h =
        subst IsWellFormed (ap (λ z. z.1) (ok_inj h))
          (IsWellFormed-put id (gone b) accounts (f b refl).0 (f b refl).1 wf)

restored-IsWellFormed :
    (now id user_id : ℕ) (name : Option String) (version : Option ℕ) (accounts : Accounts)
    {a : Account} {after : Accounts}
    → IsWellFormed accounts
    → restored_now id user_id version (restore now id user_id name version accounts) ≡ ok (a, after)
    → IsWellFormed after
unfolding restore
restored-IsWellFormed now id user_id name version accounts wf h =
    let filter =
      λ (b : Account). (b.user_id == user_id) && not (is_active b) && at_version version b in
    written (where_holds filter (accounts id))
      (λ b found.
        let there = where_found filter (accounts id) found in
        let sound = subst IsSound there.0 (wf.0 id) in ground arith)
      h
  where
    back : Account → Account
    back b = record b {
      archived_at = none;
      is_default = false;
      name = name_or name b.name;
      updated_at = some now;
    }

    written :
        (found : Option Account) {a : Account} {after : Accounts}
        → ((b : Account) → found ≡ some b → is_sound (back b) ≡ true)
        → restored_now id user_id version (write_found found back id accounts) ≡ ok (a, after)
        → IsWellFormed after
    written none f h =
        let first = >>=-eq-ok (own user_id (accounts id)) _ h in
        let fresh = >>-eq-ok (assert_fresh first.0.updated_at version) _ first.2 in
        subst IsWellFormed (ap (λ z. z.1) (ok_inj fresh.1)) wf
    written (some b) f h =
        subst IsWellFormed (ap (λ z. z.1) (ok_inj h))
          (IsWellFormed-put id (back b) accounts (f b refl) refl wf)

delete_account-IsWellFormed :
    (now id user_id : ℕ) (version : Option ℕ) (others : Accounts → Accounts) (accounts : Accounts)
    {a : Account} {after : Accounts}
    → IsWellFormed accounts
    → IsWellFormed (others accounts)
    → delete_account now id user_id version others accounts ≡ ok (a, after)
    → IsWellFormed after
unfolding delete_account
delete_account-IsWellFormed now id user_id version others accounts wf wf' h =
    let first = >>=-eq-ok (own user_id (accounts id)) _ h in
    let fresh = >>-eq-ok (assert_fresh first.0.updated_at version) _ first.2 in
    elim (Bool-cases (is_active first.0)) [
      | inl e ↦
          (let k = rw e at fresh.1 in
            let last = >>-eq-ok (throw_if first.0.is_default archive_blocked) _ k in
            archived-IsWellFormed now id user_id version (others accounts) wf' last.1)
      | inr e ↦ subst IsWellFormed (ap (λ z. z.1) (ok_inj (rw e at fresh.1))) wf
    ]

restore_account-IsWellFormed :
    (ids : List ℕ) (now id user_id : ℕ) (name : Option String) (version : Option ℕ)
    (others : Accounts → Accounts) (accounts : Accounts) {a : Account} {after : Accounts}
    → IsWellFormed accounts
    → IsWellFormed (others accounts)
    → restore_account ids now id user_id name version others accounts ≡ ok (a, after)
    → IsWellFormed after
unfolding restore_account
restore_account-IsWellFormed ids now id user_id name version others accounts wf wf' h =
    let first = >>=-eq-ok (own user_id (accounts id)) _ h in
    let fresh = >>-eq-ok (assert_fresh first.0.updated_at version) _ first.2 in
    elim (Bool-cases (is_active first.0)) [
      | inl e ↦ subst IsWellFormed (ap (λ z. z.1) (ok_inj (rw e at fresh.1))) wf
      | inr e ↦
          (let k = rw e at fresh.1 in
            let last =
              >>-eq-ok (assert_room_for_one_more (count_by_user_id user_id ids accounts)) _ k in
            restored-IsWellFormed now id user_id name version (others accounts) wf' last.1)
    ]

-- Whatever request succeeds, no archived account is a default one, each account has only the fields of debt of its type, no loan holds money, and a user has at most one default account, if that was so before and after what other requests wrote meanwhile. Every row has a stamp, other requests stamp what they write anew, and the unique index refuses a second default account.
pub serve-IsWellFormed :
    (refuses : Indexes) (currency_of : ℕ → Option String) (ids : List ℕ) (now : ℕ)
    (request : Request) (others : Accounts → Accounts) (accounts : Accounts) {a : Account}
    {after : Accounts}
    → RefusesRivals refuses
    → IsWellFormed accounts
    → IsWellFormed (others accounts)
    → AllStamped accounts
    → StampsAnew others accounts
    → serve refuses currency_of ids now request others accounts ≡ ok (a, after)
    → IsWellFormed after
unfolding serve
serve-IsWellFormed refuses currency_of ids now (creates new_id dto) others accounts law wf wf'
      stamped anew h =
    insert-IsWellFormed refuses currency_of ids now new_id dto others accounts law h wf'
serve-IsWellFormed refuses currency_of ids now (sets_default id user_id version) others accounts law
      wf wf' stamped anew h =
    set_default-IsWellFormed now id user_id version others accounts wf h
serve-IsWellFormed refuses currency_of ids now (updates id dto user_id version) others accounts law
      wf wf' stamped anew h =
    update_account-IsWellFormed refuses now id dto user_id version others accounts wf wf' stamped
      anew h
serve-IsWellFormed refuses currency_of ids now (archives id user_id version) others accounts law wf
      wf' stamped anew h =
    delete_account-IsWellFormed now id user_id version others accounts wf wf' h
serve-IsWellFormed refuses currency_of ids now (restores id user_id name version) others accounts
      law wf wf' stamped anew h =
    restore_account-IsWellFormed ids now id user_id name version others accounts wf wf' h
