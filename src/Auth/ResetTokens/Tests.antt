-- ===== src/Auth/ResetTokens/Tests.antt =====
-- A reset from the first token to the new password, and the theorems at those inputs.
use wardnode.Base.{ℕ, ◌≡◌, ◌≢◌, refl, String, none, some, [], keep, arith, eq_refl, ◌==◌}
use wardnode.Auth.ResetTokens.{
  Hashing, Token, Accounts, is_expired, is_usable, purge_expired_reset_tokens,
  create_password_reset_token, first_match, find_usable_password_reset_token, set_password,
  consume_password_reset_token,
}
use wardnode.Auth.ResetTokens.SingleUse.{IsGenuine, find-create, find-IsGenuine, find-consume}

-- The text with its salt in place of a hash.
abbrev salted : Hashing
salted = record {
  Hash = ℕ × String;
  generate = λ salt s. (salt, s);
  check = λ h s. h.1 == s;
  check-generate = λ salt s. eq_refl s;
}

abbrev empty : Accounts salted
empty = record { tokens = []; next_id = 1; passwords = [] }

abbrev one : Accounts salted
one = create_password_reset_token salted 0 5 3 "abc" 30 empty

abbrev other : Accounts salted
other = create_password_reset_token salted 10 6 3 "abc" 30 one

abbrev token : ℕ → ℕ → ℕ → Token salted
token id salt expires_at = record {
  id = id;
  user = 3;
  token_hash = (salt, "abc");
  expires_at = expires_at;
  used_at = none;
}

find-create_example :
    find_usable_password_reset_token salted 100 "abc" one ≡ some (token 1 5 1_800_000_000)
find-create_example = find-create salted 0 100 5 3 30 "abc" empty (omega arith)

find-IsGenuine_example : IsGenuine salted 100 "abc" (token 1 5 1_800_000_000)
find-IsGenuine_example =
    find-IsGenuine salted 100 "abc" one (token 1 5 1_800_000_000) find-create_example

abbrev consumed : Accounts salted
consumed = consume_password_reset_token salted 90 7 (token 2 6 1_800_000_010) "N3w-password" other

-- After the newer token is used the older one is found.
older_found :
    find_usable_password_reset_token salted 100 "abc" consumed ≡ some (token 1 5 1_800_000_000)
unfolding find_usable_password_reset_token consume_password_reset_token create_password_reset_token
    set_password purge_expired_reset_tokens keep first_match is_usable is_expired
older_found = refl

find-consume_example : (token 1 5 1_800_000_000).id ≢ 2
find-consume_example =
    find-consume salted 90 100 7 (token 2 6 1_800_000_010) "N3w-password" "abc" other
      (token 1 5 1_800_000_000) older_found
