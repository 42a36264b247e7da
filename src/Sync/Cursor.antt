-- ===== src/Sync/Cursor.antt =====
-- The text of a cursor in src/shared/syncCursor.ts (`encodeCursor`, `decodeCursor`). A text is the list
-- of its characters' numbers. The ISO form of an instant and base64url are those of the platform,
-- a parameter with what is documented of them.
use lag_money_manager.Prelude.{
  ℕ, Bool, true, false, ◌&&◌, ◌≡◌, refl, ap, ◌∙◌, ◌≢◌, Option, none, some, List, [], ◌∷◌, ◌++◌,
  ◌==◌, All, if◌then◌else◌, ++_assoc,
}
use lag_money_manager.Errors.{Result, ok, err, ◌>>=◌, Error, api, bad_request, invalid_cursor}
use lag_money_manager.Sync.{ChangeCursor}

abbrev pub Text : Type 0
Text = List ℕ

-- `|`
abbrev pub bar : ℕ
bar = 124

-- `CURSOR_VERSION`, "v1", and `RESET_CURSOR_VERSION`, "v2"
abbrev pub cursor_version : Text
cursor_version = 118 ∷ 49 ∷ []

abbrev pub reset_cursor_version : Text
reset_cursor_version = 118 ∷ 50 ∷ []

-- `toISOString`, `new Date(text)` with no value for an invalid one, and `Buffer` in base64url.
pub record Platform : Type 0 where
  pub to_iso : ℕ → Text
  pub parse : Text → Option ℕ
  pub to_base64url : Text → Text
  pub of_base64url : Text → Text

-- An instant is read back from its ISO form, which has no `|`; base64url gives back the text.
pub record IsPlatform (p : Platform) : Type 0 where
  pub parse_iso : (t : ℕ) → p.parse (p.to_iso t) ≡ some t
  pub iso_plain : (t : ℕ) → All (λ c. (c == bar) ≡ false) (p.to_iso t)
  pub base64url_back : (t : Text) → p.of_base64url (p.to_base64url t) ≡ t

abbrev pub invalid_cursor_error : Error
invalid_cursor_error = api bad_request invalid_cursor

abbrev pub same_text : Text → Text → Bool
same_text [] [] = true
same_text (a ∷ xs) (b ∷ ys) = (a == b) && same_text xs ys
same_text _ _ = false

abbrev add_first : ℕ → List Text → List Text
add_first c [] = (c ∷ []) ∷ []
add_first c (part ∷ parts) = (c ∷ part) ∷ parts

-- `text.split("|")`
unfoldable pub split : Text → List Text
split [] = [] ∷ []
split (c ∷ cs) = let rest = split cs in if c == bar then [] ∷ rest else add_first c rest

-- `cursor.id ?? ""`, and `id || null`
abbrev pub text_of : Option Text → Text
text_of none = []
text_of (some id) = id

abbrev pub id_of : Text → Option Text
id_of [] = none
id_of (c ∷ cs) = some (c ∷ cs)

module _ (p : Platform) where
  abbrev pub position : ChangeCursor Text → Text
  position cursor = p.to_iso cursor.updated_at ++ (bar ∷ text_of cursor.id)

  -- The text under base64url, for a cursor with a reset or without.
  abbrev pub raw : Text → Option (Option ℕ) → Text
  raw place (some (some reset)) = reset_cursor_version ++ (bar ∷ (place ++ (bar ∷ p.to_iso reset)))
  raw place _ = cursor_version ++ (bar ∷ place)

  -- `encodeCursor`
  unfoldable pub encode_cursor : ChangeCursor Text → Text
  encode_cursor cursor = p.to_base64url (raw (position cursor) cursor.reset_at)

  -- `parseInstant`
  abbrev pub instant_or_invalid : Option ℕ → Result ℕ
  instant_or_invalid none = err invalid_cursor_error
  instant_or_invalid (some t) = ok t

  abbrev pub parse_instant : Text → Result ℕ
  parse_instant text = instant_or_invalid (p.parse text)

  -- A cursor of three parts, and one of four.
  abbrev pub three : Text → Text → Result (ChangeCursor Text)
  three updated_at id = do
    instant ← parse_instant updated_at
    ok (record { updated_at = instant; id = id_of id; reset_at = some none })

  abbrev pub four : Text → Text → Text → Result (ChangeCursor Text)
  four updated_at id reset_at = do
    instant ← parse_instant updated_at
    reset ← parse_instant reset_at
    ok (record { updated_at = instant; id = id_of id; reset_at = some (some reset) })

  abbrev pub read_parts : List Text → Result (ChangeCursor Text)
  read_parts (version ∷ u ∷ id ∷ []) =
      if same_text version cursor_version then three u id else err invalid_cursor_error
  read_parts (version ∷ u ∷ id ∷ reset ∷ []) =
      if same_text version reset_cursor_version then four u id reset else err invalid_cursor_error
  read_parts _ = err invalid_cursor_error

  -- `decodeCursor`
  unfoldable pub decode_cursor : Text → Result (ChangeCursor Text)
  decode_cursor text = read_parts (split (p.of_base64url text))

abbrev Plain : Text → Type 0
Plain text = All (λ c. (c == bar) ≡ false) text

split-Plain : (xs : Text) → Plain xs → split xs ≡ xs ∷ []
unfolding split
split-Plain [] h = refl
split-Plain (c ∷ cs) h = rw (h.0, split-Plain cs h.1)

split-append : (xs ys : Text) → Plain xs → split (xs ++ (bar ∷ ys)) ≡ xs ∷ split ys
unfolding split
split-append [] ys h = refl
split-append (c ∷ cs) ys h = rw (h.0, split-append cs ys h.1)

-- An id, if there is one, is a text that is not empty and has no `|`.
abbrev pub IsId : Option Text → Type 0
IsId none = Unit
IsId (some id) = (id ≢ []) × Plain id

-- A reset that was left out is read as none.
abbrev pub read_reset : Option (Option ℕ) → Option (Option ℕ)
read_reset none = some none
read_reset (some reset) = some reset

text_of-Plain : (id : Option Text) → IsId id → Plain (text_of id)
text_of-Plain none h = tt
text_of-Plain (some id) h = h.1

id_of-text_of : (id : Option Text) → IsId id → id_of (text_of id) ≡ id
id_of-text_of none h = refl
id_of-text_of (some []) h = absurd (h.0 refl)
id_of-text_of (some (c ∷ cs)) h = refl

module _ (p : Platform) (law : IsPlatform p) (cursor : ChangeCursor Text) (h : IsId cursor.id) where
  split-position : split (position p cursor) ≡ p.to_iso cursor.updated_at ∷ text_of cursor.id ∷ []
  split-position =
      split-append (p.to_iso cursor.updated_at) (text_of cursor.id)
        (law.iso_plain cursor.updated_at)
      ∙ ap (λ parts. p.to_iso cursor.updated_at ∷ parts)
          (split-Plain (text_of cursor.id) (text_of-Plain cursor.id h))

  split_with_reset :
      (r : ℕ)
      → split (position p cursor ++ (bar ∷ p.to_iso r))
        ≡ p.to_iso cursor.updated_at ∷ text_of cursor.id ∷ p.to_iso r ∷ []
  split_with_reset r =
      ap split (++_assoc (p.to_iso cursor.updated_at) (bar ∷ text_of cursor.id) (bar ∷ p.to_iso r))
      ∙ split-append (p.to_iso cursor.updated_at) (text_of cursor.id ++ (bar ∷ p.to_iso r))
          (law.iso_plain cursor.updated_at)
      ∙ ap (λ parts. p.to_iso cursor.updated_at ∷ parts)
          (split-append (text_of cursor.id) (p.to_iso r) (text_of-Plain cursor.id h)
            ∙ ap (λ parts. text_of cursor.id ∷ parts) (split-Plain (p.to_iso r) (law.iso_plain r)))

  read_raw :
      (reset : Option (Option ℕ))
      → read_parts p (split (raw p (position p cursor) reset))
        ≡ ok
            (record { updated_at = cursor.updated_at; id = cursor.id; reset_at = read_reset reset })
  unfolding split
  read_raw none = rw (split-position, law.parse_iso cursor.updated_at, id_of-text_of cursor.id h)
  read_raw (some none) =
      rw (split-position, law.parse_iso cursor.updated_at, id_of-text_of cursor.id h)
  read_raw (some (some r)) = rw (
    split_with_reset r,
    law.parse_iso cursor.updated_at,
    law.parse_iso r,
    id_of-text_of cursor.id h,
  )

-- A cursor that is written is read back with its position, its id and its reset, but a reset that is
-- left out is read as `null`, if the id, where there is one, is not empty and has no `|`.
pub decode_cursor-encode_cursor :
    (p : Platform)
    → IsPlatform p
    → (cursor : ChangeCursor Text) → IsId cursor.id
    → decode_cursor p (encode_cursor p cursor)
      ≡ ok (record cursor { reset_at = read_reset cursor.reset_at })
unfolding decode_cursor encode_cursor
decode_cursor-encode_cursor p law cursor h =
    rw (law.base64url_back (raw p (position p cursor) cursor.reset_at))
      (read_raw p law cursor h cursor.reset_at)
