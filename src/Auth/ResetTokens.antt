-- ===== src/Auth/ResetTokens.antt =====
-- app/auth/services.py: the tokens that reset a password, newest first, as the query orders them.
-- The hashes are those of werkzeug, a parameter, with a salt for each.
pub mod SingleUse
mod Tests
use wardnode.Base.{
  ℕ, suc, ◌+◌, ◌*◌, ◌≡◌, String, Bool, true, false, not, ◌&&◌, ◌||◌, Option, none, some, List, [],
  ◌∷◌, keep, map, ltb, leb, is_some, ◌=?◌, if◌then◌else◌,
}

pub record Hashing : Type 1 where
  pub Hash : Type 0
  -- `generate_password_hash` with the salt that it draws, and `check_password_hash`
  pub generate : ℕ → String → Hash
  pub check : Hash → String → Bool
  pub check-generate : (salt : ℕ) (s : String) → check (generate salt s) s ≡ true

module _ (lib : Hashing) where
  open lib use {Hash, generate, check}

  pub record Token : Type 0 where
    pub id : ℕ
    pub user : ℕ
    pub token_hash : Hash
    pub expires_at : ℕ
    pub used_at : Option ℕ

  pub record Accounts : Type 0 where
    pub tokens : List Token
    pub next_id : ℕ
    pub passwords : List (ℕ × Hash)

  -- `PasswordResetToken.is_expired` and `is_usable`
  unfoldable pub is_expired : ℕ → Token → Bool
  is_expired now t = leb t.expires_at now

  unfoldable pub is_usable : ℕ → Token → Bool
  unfolding is_expired
  is_usable now t = not (is_some t.used_at) && not (is_expired now t)

  -- `purge_expired_reset_tokens`: what is used or expired goes.
  unfoldable pub purge_expired_reset_tokens : ℕ → Accounts → Accounts
  purge_expired_reset_tokens now a = record a {
    tokens = keep (λ t. not (is_some t.used_at || ltb t.expires_at now)) a.tokens;
  }

  -- `create_password_reset_token`, with the text that `token_urlsafe` draws
  unfoldable pub create_password_reset_token : ℕ → ℕ → ℕ → String → ℕ → Accounts → Accounts
  unfolding purge_expired_reset_tokens
  create_password_reset_token now salt user raw lifetime_minutes a =
      let purged = purge_expired_reset_tokens now a in
      record purged {
        tokens =
            record {
              id = purged.next_id;
              user = user;
              token_hash = generate salt raw;
              expires_at = now + lifetime_minutes * 60_000_000;
              used_at = none;
            }
            ∷ purged.tokens;
        next_id = suc purged.next_id;
      }

  abbrev pub matches : ℕ → String → Token → Bool
  matches now raw t = is_usable now t && check t.token_hash raw

  unfoldable pub first_match : ℕ → String → List Token → Option Token
  first_match now raw [] = none
  first_match now raw (t ∷ ts) =
      let rest = first_match now raw ts in if matches now raw t then some t else rest

  -- `find_usable_password_reset_token`
  unfoldable pub find_usable_password_reset_token : ℕ → String → Accounts → Option Token
  find_usable_password_reset_token now raw a =
      first_match now raw (keep (λ t. not (is_some t.used_at)) a.tokens)

  abbrev pub used : ℕ → ℕ → Token → Token
  used now id t = if t.id =? id then record t { used_at = some now } else t

  -- `user.set_password`
  unfoldable pub set_password : ℕ → Hash → List (ℕ × Hash) → List (ℕ × Hash)
  set_password user h [] = (user, h) ∷ []
  set_password user h ((u, old) ∷ rest) =
      if u =? user then (u, h) ∷ rest else (u, old) ∷ set_password user h rest

  -- `consume_password_reset_token`
  unfoldable pub consume_password_reset_token : ℕ → ℕ → Token → String → Accounts → Accounts
  unfolding set_password
  consume_password_reset_token now salt token password a = record a {
    tokens = map (used now token.id) a.tokens;
    passwords = set_password token.user (generate salt password) a.passwords;
  }
