-- ===== src/Adapter/Options.antt =====
-- The operations on options that crates/codex-adapter/src uses: `or`, `unwrap_or` and `?`.
use remote_codex.Base.{Option, none, some}

infixl 1 ◌>>=◌
abbrev pub or : {A : Type 0} → Option A → Option A → Option A
or none b = b
or (some a) b = some a

abbrev pub unwrap_or : {A : Type 0} → A → Option A → A
unwrap_or other none = other
unwrap_or other (some a) = a

abbrev pub ◌>>=◌ : {A B : Type 0} → Option A → (A → Option B) → Option B
none >>= f = none
some a >>= f = f a
