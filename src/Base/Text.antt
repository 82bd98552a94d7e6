-- ===== src/Base/Text.antt =====
-- Python's string methods that the components share.
use Prim.Native.Nat.{ℕ}
use mathlib.Core.Bool.{Bool, ◌&&◌}
use mathlib.Core.List.{[], ◌∷◌}
use hermes_memory.Base.Tests.{if◌then◌else◌}
use hermes_memory.Base.Lists.{Str, is_empty}

-- `str.lstrip` and `str.rstrip` of the characters that pass a test.
unfoldable pub lstrip : (ℕ → Bool) → Str → Str
lstrip p [] = []
lstrip p (c ∷ cs) = if p c then lstrip p cs else c ∷ cs

unfoldable pub rstrip : (ℕ → Bool) → Str → Str
rstrip p [] = []
rstrip p (c ∷ cs) = let rest = rstrip p cs in if is_empty rest && p c then [] else c ∷ rest

unfoldable pub strip : (ℕ → Bool) → Str → Str
unfolding lstrip rstrip
strip p s = rstrip p (lstrip p s)
