-- ===== src/Auth/ResetTokens/SingleUse.antt =====
-- A token is found until it is used or expires, and never again.
use wardnode.Base.{
  ℕ, ◌+◌, ◌*◌, ◌<◌, ◌≡◌, ◌≢◌, refl, String, true, false, not, ◌||◌, Option, none, some, List, [],
  ◌∷◌, keep, map, ltb, leb, is_some, ◌=?◌, arith, Bool-cases, inl, inr, subst,
}
use wardnode.Auth.ResetTokens.{
  Hashing, Token, Accounts, is_expired, is_usable, purge_expired_reset_tokens,
  create_password_reset_token, matches, first_match, find_usable_password_reset_token, used,
  consume_password_reset_token,
}

module _ (lib : Hashing) where
  open lib use {check, check-generate}

  -- A found token is unused, has not expired and has the hash of the text.
  pub record IsGenuine (now : ℕ) (raw : String) (t : Token lib) : Type 0 where
    pub unused : t.used_at ≡ none
    pub in_time : now < t.expires_at
    pub checked : check t.token_hash raw ≡ true

  none_of : {A : Type 0} (o : Option A) → is_some o ≡ false → o ≡ none
  none_of none h = refl
  none_of (some a) h = cc

  matches-IsGenuine :
      (now : ℕ) (raw : String) (t : Token lib) → matches lib now raw t ≡ true → IsGenuine now raw t
  unfolding is_usable is_expired
  matches-IsGenuine now raw t h = record {
    unused = none_of t.used_at (ground (arith, h));
    in_time = ground (arith, h);
    checked = ground (arith, h);
  }

  some_injective : {a b : Token lib} → some a ≡ some b → a ≡ b
  some_injective {a} {b} h = cc

  first_match-IsGenuine :
      (now : ℕ) (raw : String) (ts : List (Token lib)) (t : Token lib)
      → first_match lib now raw ts ≡ some t
      → IsGenuine now raw t
  unfolding first_match
  first_match-IsGenuine now raw [] t h = cc
  first_match-IsGenuine now raw (s ∷ ts) t h = elim (Bool-cases (matches lib now raw s)) [
    | inl e ↦
        subst (IsGenuine now raw) (some_injective (rw (first_match, e) at h))
          (matches-IsGenuine now raw s e)
    | inr e ↦ first_match-IsGenuine now raw ts t (rw (first_match, e) at h)
  ]

  -- What is not found among the unused tokens is not found after a token was used.
  module _ (now later id : ℕ) where
    first_match-used :
        (raw : String) (ts : List (Token lib)) (t : Token lib)
        → first_match lib later raw (keep (λ s. not (is_some s.used_at)) (map (used lib now id) ts))
          ≡ some t
        → t.id ≢ id
    unfolding first_match keep
    first_match-used raw [] t h = cc
    first_match-used raw (s ∷ ts) t h = elim (Bool-cases (s.id =? id)) [
      | inl e ↦ first_match-used raw ts t (rw (keep, e) at h)
      | inr e ↦ elim (Bool-cases (is_some s.used_at)) [
        | inl u ↦ first_match-used raw ts t (rw (keep, e, u) at h)
        | inr u ↦ elim (Bool-cases (matches lib later raw s)) [
          | inl m ↦
              subst (λ (r : Token lib). r.id ≢ id)
                (some_injective (rw (keep, first_match, e, u, m) at h)) (ground (arith, e))
          | inr m ↦ first_match-used raw ts t (rw (keep, first_match, e, u, m) at h)
        ]
      ]
    ]

  -- A purge never changes what is found.
  purge_first_match :
      (now : ℕ) (raw : String) (ts : List (Token lib))
      → first_match lib now raw (
          keep
            (λ t. not (is_some t.used_at))
            (keep (λ t. not (is_some t.used_at || ltb t.expires_at now)) ts))
        ≡ first_match lib now raw (keep (λ t. not (is_some t.used_at)) ts)
  unfolding first_match keep is_usable is_expired
  purge_first_match now raw [] = refl
  purge_first_match now raw (t ∷ ts) = elim (Bool-cases (is_some t.used_at)) [
    | inl u ↦ rw u (purge_first_match now raw ts)
    | inr u ↦ elim (Bool-cases (ltb t.expires_at now)) [
      | inl e ↦
          let late : leb t.expires_at now ≡ true = ground (arith, e) in
          rw (u, e, u, late) (purge_first_match now raw ts)
      | inr e ↦ rw (u, e, u, u, purge_first_match now raw ts) refl
    ]
  ]

  -- A text for which a token was just made finds that token until it expires.
  pub find-create :
      (now later salt user lifetime : ℕ) (raw : String) (a : Accounts lib)
      → later < now + lifetime * 60_000_000
      → find_usable_password_reset_token lib later raw
          (create_password_reset_token lib now salt user raw lifetime a)
        ≡ some (record {
          id = a.next_id;
          user = user;
          token_hash = lib.generate salt raw;
          expires_at = now + lifetime * 60_000_000;
          used_at = none;
        })
  unfolding find_usable_password_reset_token create_password_reset_token purge_expired_reset_tokens
      keep first_match is_usable is_expired
  find-create now later salt user lifetime raw a h =
      let alive : leb (now + lifetime * 60_000_000) later ≡ false = ground (arith, h) in
      rw (alive, check-generate salt raw) refl

  -- What is found is unused, has not expired, and was made for this text.
  pub find-IsGenuine :
      (now : ℕ) (raw : String) (a : Accounts lib) (t : Token lib)
      → find_usable_password_reset_token lib now raw a ≡ some t
      → IsGenuine now raw t
  unfolding find_usable_password_reset_token
  find-IsGenuine now raw a t h =
      first_match-IsGenuine now raw (keep (λ s. not (is_some s.used_at)) a.tokens) t h

  -- Once a token was used, no text at any time finds it.
  pub find-consume :
      (now later salt : ℕ) (token : Token lib) (password raw : String) (a : Accounts lib)
      (t : Token lib)
      → find_usable_password_reset_token lib later raw
          (consume_password_reset_token lib now salt token password a)
        ≡ some t
      → t.id ≢ token.id
  unfolding find_usable_password_reset_token consume_password_reset_token
  find-consume now later salt token password raw a t h =
      first_match-used now later token.id raw a.tokens t h

  -- The purge of used and expired tokens changes nothing of what is found at that time.
  pub find-purge :
      (now : ℕ) (raw : String) (a : Accounts lib)
      → find_usable_password_reset_token lib now raw (purge_expired_reset_tokens lib now a)
        ≡ find_usable_password_reset_token lib now raw a
  unfolding find_usable_password_reset_token purge_expired_reset_tokens
  find-purge now raw a = purge_first_match now raw a.tokens
