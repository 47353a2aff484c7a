-- ===== src/Auth.antt =====
-- app/auth: the password policy and the tokens that reset a password.
pub mod PasswordPolicy
pub mod ResetTokens
