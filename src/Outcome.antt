-- ===== src/Outcome.antt =====
-- The result of code that can panic.
-- What a call comes to, where an `unwrap` can panic.
pub data Outcome (T : Type 0) : Type 0 where
  panicked : Outcome T
  returned : T → Outcome T

infixl 5 ◌>>=◌
abbrev pub ◌>>=◌ : {S T : Type 0} → Outcome S → (S → Outcome T) → Outcome T
panicked >>= k = panicked
returned s >>= k = k s
