-- ===== src/Codes/Tests.antt =====
-- A reset code that is sent, guessed and redeemed.
use lag_money_manager.Prelude.{ℕ, ◌≤◌, true, ◌≡◌, refl, none, some, List, [], ◌∷◌, All, arith}
use lag_money_manager.Codes.{
  reset, IssuedCode, AuthCodeRecord, Codes, find_first, write_first, redeem_code, redeem, by_code,
  issue,
}
use lag_money_manager.Codes.Bounds.{IsBounded, issues, IsBounded-Step}
use lag_money_manager.Codes.Redeemed.{rows_of, Guess, guess_all, redeem-guess_all, redeem_code-once}

abbrev sent : IssuedCode
sent = record { code_hash = 4321; token_hash = 77; expires_at = 9000 }

abbrev asked : AuthCodeRecord
asked = record {
  id = 1;
  purpose = reset;
  to_hash = 5;
  user_id = some 3;
  codes = sent ∷ [];
  attempts = 0;
  issued_at = some 100;
  expires_at = 9000;
}

abbrev stored : Codes
stored = asked ∷ []

abbrev digest : ℕ → ℕ → ℕ
digest to_hash code = code

abbrev five_guesses : List Guess
five_guesses = (1, 200) ∷ (2, 300) ∷ (3, 400) ∷ (4, 500) ∷ (5, 600) ∷ []

one_row_stored : rows_of 5 stored ≤ 1
unfolding rows_of
one_row_stored = omega arith

-- The code that was sent comes too late.
redeem-guess_all_example :
    redeem digest (by_code 5 4321) 700 (guess_all digest 5 five_guesses stored)
    ≡ (none, guess_all digest 5 five_guesses stored)
redeem-guess_all_example =
    redeem-guess_all digest 5 five_guesses stored 4321 700 one_row_stored (omega arith)

redeemed : (redeem_code 1 4321 200 stored).0 ≡ some asked
unfolding redeem_code find_first write_first
redeemed = refl

redeem_code-once_example : (redeem_code 1 4321 300 (redeem_code 1 4321 200 stored).1).0 ≡ none
redeem_code-once_example = redeem_code-once 1 4321 200 4321 300 stored (tt, tt) redeemed

abbrev again : IssuedCode
again = record { code_hash = 9876; token_hash = 78; expires_at = 9500 }

IsBounded-Step_example : All IsBounded (issue reset 5 again true 400 stored)
IsBounded-Step_example =
    IsBounded-Step stored (issue reset 5 again true 400 stored)
      (issues reset 5 again true 400 stored) ((omega arith, omega arith), tt)
