-- ===== src/Proxy/CustomRules/Accepted.antt =====
-- What a custom rule without errors is.
use wardnode.Base.{
  ℕ, ◌%◌, ◌≤◌, false, ◌≡◌, ◌≢◌, ◌⊎◌, some, List, [], ◌∷◌, ◌++◌, map, ◌=?◌, any, keep, length, All,
}
use wardnode.Text.{codes, contains, to_lower}
use wardnode.Proxy.CustomRules.{statements, rule_id}
use wardnode.Proxy.CustomRules.Shown.{HasNoCtl, IsShown}

-- The statement has shown its number, a number of the range that is reserved for custom rules; it
-- is a directive, and its double quotes are in pairs.
pub record IsReserved (s : List ℕ) (n : ℕ) : Type 0 where
  pub shown : IsShown s n
  pub from_min : 1_000_000 ≤ n
  pub to_max : n ≤ 1_999_999
  pub rest : List ℕ
  pub directive : (s ≡ codes "SecRule " ++ rest) ⊎ (s ≡ codes "SecAction " ++ rest)
  pub quotes : length (keep (λ c. c =? b'"') s) % 2 ≡ 0

-- Statement by statement, with these numbers.
abbrev pub AreReserved : List (List ℕ) → List ℕ → Type 0
AreReserved [] [] = Unit
AreReserved [] (n ∷ ns) = ⊥
AreReserved (s ∷ ss) [] = ⊥
AreReserved (s ∷ ss) (n ∷ ns) = IsReserved s n × AreReserved ss ns

abbrev pub AreDistinct : List ℕ → Type 0
AreDistinct [] = Unit
AreDistinct (n ∷ ns) = All (λ m. m ≢ n) ns × AreDistinct ns

-- A statement that is reserved with the number that the expression finds.
abbrev IsFound : List ℕ → Type 0
IsFound s = (n : ℕ) × (rule_id false s ≡ some n) × IsReserved s n

pub record IsAccepted (name text : List ℕ) : Type 0 where
  pub named : (1 ≤ length name) × (length name ≤ 160)
  pub sized : (1 ≤ length text) × (length text ≤ 6000)
  pub no_quote : any (λ c. c =? b'\'') text ≡ false
  pub no_token :
      All (λ t. contains (codes t) (map to_lower text) ≡ false) ("include" ∷ "exec:" ∷ "lua:" ∷ [])
  pub no_ctl : HasNoCtl (map to_lower text)
  pub some_statement : 1 ≤ length (statements text)
  pub numbers : List ℕ
  pub reserved : AreReserved (statements text) numbers
  pub distinct : AreDistinct numbers
