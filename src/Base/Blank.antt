-- ===== src/Base/Blank.antt =====
-- Go's `strings.TrimSpace(s) == ""`: the text holds white space only.
use Prim.Native.Nat.{ℕ}
use Prim.Native.Char.{code}
use Prim.Native.String.{String, [], ◌∷◌}
use mathlib.Core.Bool.{Bool, true, ◌&&◌, ◌||◌}
use villa_straylight.Base.Tests.{leb, ◌==◌}

-- `unicode.IsSpace`
unfoldable pub is_space : ℕ → Bool
is_space c =
    leb 9 c && leb c 13
    || c == 32
    || c == 133
    || c == 160
    || c == 5760
    || leb 8192 c && leb c 8202
    || c == 8232
    || c == 8233
    || c == 8239
    || c == 8287
    || c == 12288

unfoldable pub is_blank : String → Bool
is_blank [] = true
is_blank (c ∷ s) = let rest = is_blank s in is_space (code c) && rest
