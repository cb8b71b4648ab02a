-- ===== src/Prelude/Text.antt =====
-- What the program uses of Go's packages strings and fmt.
use Prim.Native.Nat.{ℕ}
use Prim.Native.String.{String, ◌++◌ as ◌<>◌}
use mathlib.Core.Bool.{Bool}
use mathlib.Core.List.{List, [], ◌∷◌}

-- strings.ToLower, TrimSpace, TrimPrefix with the prefix first, TrimSuffix with the suffix first, the
-- text in front of the first occurrence of a separator (the whole text without one), Split, Contains
-- and HasSuffix with the part first, `len`, and the verbs %q and %d.
pub record Text : Type 0 where
  pub to_lower : String → String
  pub trim_space : String → String
  pub trim_prefix : String → String → String
  pub trim_suffix : String → String → String
  pub before : String → String → String
  pub split : String → String → List String
  pub contains : String → String → Bool
  pub has_suffix : String → String → Bool
  pub len : String → ℕ
  pub quote : String → String
  pub decimal : ℕ → String

-- strings.Join
abbrev pub join : String → List String → String
join sep [] = ""
join sep (s ∷ []) = s
join sep (s ∷ t ∷ rest) = s <> (sep <> join sep (t ∷ rest))
