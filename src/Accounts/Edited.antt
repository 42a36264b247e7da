-- ===== src/Accounts/Edited.antt =====
-- `updateAccount` of src/app/services/AccountService.ts, whose write carries the version of the row it judged.
use mathlib.Core.Path.{subst}
use lag_money_manager.Prelude.{
  ℕ, Bool, true, false, not, ◌&&◌, ◌≡◌, refl, ap, sym, ◌∙◌, Option, none, some, is_some, ◌==◌,
  ==_iff, Bool-cases, inl, inr, arith,
}
use lag_money_manager.Errors.{
  Result, ok, err, >>-eq-ok, passed, ok_inj, api, bad_request, no_code, resource_archived,
}
use lag_money_manager.Concurrency.{
  assert_fresh, guarded_write, same_version, is_not_found, was_rewritten,
}
use lag_money_manager.Accounts.{Account, Accounts, put}
use lag_money_manager.Accounts.Repository.{
  is_active, at_version, where_holds, Indexes, update, update_found, get_own_by_id,
}
use lag_money_manager.Accounts.Service.{
  UpdateAccountDto, missing, patched, update_account, update_existing, guard_of, leans,
  assert_patch, stamp_found, other_id,
}
use lag_money_manager.Accounts.Sound.{
  is_sound, IsSound, IsWellFormed, AllSound-put, OneDefault-put, where_found,
}
use lag_money_manager.Accounts.Patched.{patched-is_sound, renamed-is_sound}

-- Every row has a stamp.
abbrev pub AllStamped : Accounts → Type 0
AllStamped accounts = (i : ℕ) (a : Account) → accounts i ≡ some a → is_some a.updated_at ≡ true

-- Other requests stamp what they write anew: a row with the stamp it had is the row it was.
abbrev pub StampsAnew : (Accounts → Accounts) → Accounts → Type 0
StampsAnew others accounts =
    (i : ℕ) (a b : Account)
    → accounts i ≡ some a
    → others accounts i ≡ some b
    → a.updated_at ≡ b.updated_at
    → a ≡ b

guarded_ok :
    (guard : Option ℕ) (written : Result (Account × Accounts)) (seen : Option (Option ℕ))
    {z : Account × Accounts}
    → guarded_write guard written seen ≡ ok z
    → written ≡ ok z
unfolding guarded_write
guarded_ok guard (ok y) seen h = h
guarded_ok none (err e) seen h = cc
guarded_ok (some v) (err e) seen h = elim (Bool-cases (is_not_found e && was_rewritten seen v)) [
  | inl k ↦ (let f = rw k at h in cc)
  | inr k ↦ (let f = rw k at h in cc)
]

update_ok :
    (refuses : Indexes) (id : ℕ) (change : Account → Account) (found : Option Account)
    (accounts : Accounts) {a : Account} {after : Accounts}
    → update_found refuses change id found accounts ≡ ok (a, after)
    → (b : Account) × (found ≡ some b) × (put id (change b) accounts ≡ after)
update_ok refuses id change none accounts h = let f : ⊥ = cc in absurd f
update_ok refuses id change (some b) accounts h = elim (Bool-cases (refuses accounts (change b))) [
  | inl r ↦ (let k = rw r at h in let f : ⊥ = cc in absurd f)
  | inr r ↦ (b, refl, ap (λ z. z.1) (ok_inj (rw r at h)))
]

fresh_stamp :
    (stored : Option ℕ) (version : ℕ)
    → assert_fresh stored (some version) ≡ ok tt
    → stored ≡ some version
unfolding assert_fresh same_version
fresh_stamp none version h = let f : ⊥ = cc in absurd f
fresh_stamp (some stamp) version h = elim (Bool-cases (stamp == version)) [
  | inl e ↦ ap some ((==_iff stamp version).0 e)
  | inr e ↦ (let k = rw e at h in let f : ⊥ = cc in absurd f)
]

at_stamp :
    (version : ℕ) (b : Account) → at_version (some version) b ≡ true → b.updated_at ≡ some version
at_stamp version b h = version_of b.updated_at h
  where
    version_of :
        (stamp : Option ℕ)
        → elim stamp [ none ↦ false | some s ↦ s == version ] ≡ true
        → stamp ≡ some version
    version_of none h = let f : ⊥ = cc in absurd f
    version_of (some s) h = ap some ((==_iff s version).0 h)

-- The guard of a write that leans on the row is the stamp of the row.
guard_stamp :
    (dto : UpdateAccountDto) (version : Option ℕ) (a b : Account)
    → leans dto ≡ true
    → is_some a.updated_at ≡ true
    → assert_fresh a.updated_at version ≡ ok tt
    → at_version (guard_of dto version a.updated_at) b ≡ true
    → a.updated_at ≡ b.updated_at
guard_stamp dto (some v) a b l s fresh h = fresh_stamp a.updated_at v fresh ∙ sym (at_stamp v b h)
guard_stamp dto none a b l s fresh h = by_stamp a.updated_at refl s
  where
    by_stamp : (o : Option ℕ) → a.updated_at ≡ o → is_some o ≡ true → a.updated_at ≡ b.updated_at
    by_stamp none e k = let f : ⊥ = cc in absurd f
    by_stamp (some v) e k = e ∙ sym (at_stamp v b (rw (l, e) at h))

second_of : (x y : Bool) → (x && y) ≡ true → y ≡ true
second_of x y h = ground arith

module _ (refuses : Indexes) (now id : ℕ) (dto : UpdateAccountDto) (user_id : ℕ)
    (version : Option ℕ) (others : Accounts → Accounts) (accounts : Accounts)
    (wf : IsWellFormed accounts) (wf' : IsWellFormed (others accounts))
    (stamped : AllStamped accounts) (anew : StampsAnew others accounts) where
  edited-is_sound :
      (a b : Account)
      → accounts id ≡ some a
      → others accounts id ≡ some b
      → assert_fresh a.updated_at version ≡ ok tt
      → assert_patch dto a ≡ ok tt
      → at_version (guard_of dto version a.updated_at) b ≡ true
      → is_sound (patched now dto b) ≡ true
  edited-is_sound a b read there fresh patch at = elim (Bool-cases (leans dto)) [
    | inl l ↦
        (let stamp = guard_stamp dto version a b l (stamped id a read) fresh at in
          let same = anew id a b read there stamp in
          let sound = subst IsSound read (wf.0 id) in
          subst (λ c. is_sound (patched now dto c) ≡ true) same
            (patched-is_sound now dto a sound patch))
    | inr l ↦ renamed-is_sound now dto b l (subst IsSound there (wf'.0 id))
  ]

  edited-IsWellFormed :
      (b : Account)
      → others accounts id ≡ some b
      → is_sound (patched now dto b) ≡ true
      → IsWellFormed (put id (patched now dto b) (others accounts))
  edited-IsWellFormed b there sound = (
    AllSound-put id (patched now dto b) (others accounts) sound wf'.0,
    OneDefault-put id (patched now dto b) (others accounts)
        (λ user j d k. wf'.1 user id j (rw there d) k) wf'.1,
  )

  found-IsWellFormed :
      (found : Option Account) {a : Account} {after : Accounts}
      → accounts id ≡ found
      → update_existing refuses now id dto user_id version others found accounts ≡ ok (a, after)
      → IsWellFormed after
  unfolding update
  found-IsWellFormed none read h = let f : ⊥ = cc in absurd f
  found-IsWellFormed (some a) read h =
      let guard = guard_of dto version a.updated_at in
      let owner = passed (not (a.user_id == user_id)) missing _ h in
      let fresh = >>-eq-ok (assert_fresh a.updated_at version) _ owner.1 in
      let active = passed (not (is_active a)) (api bad_request resource_archived) _ fresh.1 in
      let patch = >>-eq-ok (assert_patch dto a) _ active.1 in
      let written =
        guarded_ok guard
          (update_found refuses (patched now dto) id
            (where_holds (λ b. is_active b && at_version guard b) (others accounts id))
            (others accounts))
          (stamp_found (get_own_by_id id user_id (others accounts))) patch.1 in
      let did =
        update_ok refuses id (patched now dto)
          (where_holds (λ b. is_active b && at_version guard b) (others accounts id))
          (others accounts) written in
      let there = where_found (λ b. is_active b && at_version guard b) (others accounts id) did.1 in
      let at : at_version guard did.0 ≡ true =
        second_of (is_active did.0) (at_version guard did.0) there.1 in
      subst IsWellFormed did.2 (
        edited-IsWellFormed did.0 there.0 (edited-is_sound a did.0 read there.0 fresh.0 patch.0 at))

pub update_account-IsWellFormed :
    (refuses : Indexes) (now id : ℕ) (dto : UpdateAccountDto) (user_id : ℕ) (version : Option ℕ)
    (others : Accounts → Accounts) (accounts : Accounts) {a : Account} {after : Accounts}
    → IsWellFormed accounts
    → IsWellFormed (others accounts)
    → AllStamped accounts
    → StampsAnew others accounts
    → update_account refuses now id dto user_id version others accounts ≡ ok (a, after)
    → IsWellFormed after
unfolding update_account
update_account-IsWellFormed refuses now id dto user_id version others accounts wf wf' stamped anew
      h =
    let same_id = passed (other_id dto.id id) (api bad_request no_code) _ h in
    found-IsWellFormed refuses now id dto user_id version others accounts wf wf' stamped anew
      (accounts id) refl same_id.1
