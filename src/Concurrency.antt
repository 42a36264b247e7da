-- ===== src/Concurrency.antt =====
-- src/shared/concurrency.ts and src/shared/clientMintedId.ts: guards on the version a client saw, and
-- creates that a client can send again. A state is threaded through what the callbacks do, and what
-- they leave when they throw is given with the error.
use mathlib.Core.Path.{subst}
use lag_money_manager.Prelude.{
  ℕ, Bool, true, false, not, ◌&&◌, Option, none, some, ◌==◌, if◌then◌else◌, ◌≡◌, refl, Bool-cases,
  inl, inr,
}
use lag_money_manager.Errors.{
  Result, ok, err, Error, api, duplicate_key, row_id, conflict, not_found, stale_update, id_taken,
  throw_if, ok_inj,
}

-- `sameVersion`
unfoldable pub same_version : Option ℕ → ℕ → Bool
same_version none expected = false
same_version (some stored) expected = stored == expected

abbrev pub stale : Error
stale = api conflict stale_update

-- `assertFresh`
unfoldable pub assert_fresh : Option ℕ → Option ℕ → Result (Unit {0})
assert_fresh stored none = ok tt
assert_fresh stored (some expected) = throw_if (not (same_version stored expected)) stale

-- `isNotFound`
abbrev pub is_not_found : Error → Bool
is_not_found (api not_found code) = true
is_not_found _ = false

-- `current && !sameVersion(current.updatedAt, expected)`, of the stamp of the row that is read again.
abbrev pub was_rewritten : Option (Option ℕ) → ℕ → Bool
was_rewritten none expected = false
was_rewritten (some stamp) expected = not (same_version stamp expected)

module _ {A : Type 0} where
  abbrev pub judged : Option ℕ → Error → Option (Option ℕ) → Result A
  judged none e current = err e
  judged (some expected) e current =
      if is_not_found e && was_rewritten current expected then err stale else err e

  -- `guardedWrite`: `current` is the stamp that the second read finds, if there is a row.
  unfoldable pub guarded_write : Option ℕ → Result A → Option (Option ℕ) → Result A
  guarded_write expected (ok a) current = ok a
  guarded_write expected (err e) current = judged expected e current

-- `isDuplicateIdError`
abbrev pub is_duplicate_id_error : Error → Bool
is_duplicate_id_error (duplicate_key row_id) = true
is_duplicate_id_error _ = false

abbrev pub id_taken_error : Error
id_taken_error = api conflict id_taken

-- What a create answers, and whether it replayed one: `CreateOutcome`.
pub record Created (A : Type 0) : Type 0 where
  pub row : A
  pub replayed : Bool

module _ {S A : Type 0} (find_own : ℕ → S → Option A) (create : S → Result (A × S)) where
  abbrev pub created_fresh : Result (A × S) → Result (Created A × S)
  created_fresh (ok (a, s)) = ok (record { row = a; replayed = false }, s)
  created_fresh (err e) = err e

  -- What follows a create that threw, in the state `raced` of that moment.
  abbrev pub replay_or_taken : Option A → S → Result (Created A × S)
  replay_or_taken none raced = err id_taken_error
  replay_or_taken (some a) raced = ok (record { row = a; replayed = true }, raced)

  abbrev pub after_create : ℕ → Result (A × S) → S → Result (Created A × S)
  after_create id (ok (a, s)) raced = ok (record { row = a; replayed = false }, s)
  after_create id (err e) raced =
      let found = replay_or_taken (find_own id raced) raced in
      if is_duplicate_id_error e then found else err e

  abbrev pub replay_or_create : ℕ → Option A → (S → S) → (S → S) → S → Result (Created A × S)
  replay_or_create id (some a) others rivals s = ok (record { row = a; replayed = true }, s)
  replay_or_create id none others rivals s = after_create id (create (others s)) (rivals (others s))

  -- `createOrReplay`: `others` is what other requests write between its first read and the create,
  -- and `rivals` what they write from there until a create that throws has done so.
  unfoldable pub create_or_replay : Option ℕ → (S → S) → (S → S) → S → Result (Created A × S)
  create_or_replay none others rivals s = created_fresh (create (others s))
  create_or_replay (some id) others rivals s = replay_or_create id (find_own id s) others rivals s

  module _ (id : ℕ)
      (makes : (t t' : S) (b : A) → create t ≡ ok (b, t') → find_own id t' ≡ some b) where
    raced_found :
        (o : Option A) (raced : S) {a : Created A} {s' : S}
        → find_own id raced ≡ o
        → replay_or_taken o raced ≡ ok (a, s')
        → find_own id s' ≡ some a.row
    raced_found none raced f h = cc
    raced_found (some b) raced f h =
        subst (λ (z : Created A × S). find_own id z.1 ≡ some z.0.row) (ok_inj h) f

    created_found :
        (r : Result (A × S)) (t raced : S) {a : Created A} {s' : S}
        → create t ≡ r
        → after_create id r raced ≡ ok (a, s')
        → find_own id s' ≡ some a.row
    created_found (ok (b, t')) t raced f h =
        subst (λ (z : Created A × S). find_own id z.1 ≡ some z.0.row) (ok_inj h) (makes t t' b f)
    created_found (err e) t raced f h = elim (Bool-cases (is_duplicate_id_error e)) [
      | inl d ↦ raced_found (find_own id raced) raced refl (rw d at h)
      | inr d ↦ (let k = rw d at h in cc)
    ]

    found_after :
        (o : Option A) (others rivals : S → S) (s : S) {a : Created A} {s' : S}
        → find_own id s ≡ o
        → replay_or_create id o others rivals s ≡ ok (a, s')
        → find_own id s' ≡ some a.row
    found_after none others rivals s f h =
        created_found (create (others s)) (others s) (rivals (others s)) refl h
    found_after (some b) others rivals s f h =
        subst (λ (z : Created A × S). find_own id z.1 ≡ some z.0.row) (ok_inj h) f

    -- A create that is sent again under its id, with nothing written in between, answers the row that
    -- the first one answered, as a replay, and changes nothing. What others wrote during the first
    -- one is any. A create must leave a row that its owner finds under the id.
    pub create_or_replay_twice :
        (others rivals others' rivals' : S → S) (s : S) {a : Created A} {s' : S}
        → create_or_replay (some id) others rivals s ≡ ok (a, s')
        → create_or_replay (some id) others' rivals' s'
          ≡ ok (record { row = a.row; replayed = true }, s')
    unfolding create_or_replay
    create_or_replay_twice others rivals others' rivals' s {a} {s'} h =
        rw (found_after (find_own id s) others rivals s refl h)
