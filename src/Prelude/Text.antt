-- ===== src/Prelude/Text.antt =====
-- Texts: `==`, joining with a separator, and the start of a text without white space.
use Prim.Native.Char.{Char, code}
use Prim.Native.Nat.{ℕ}
use Prim.Native.String.{String, ◌++◌ as string_append}
use mathlib.Core.Bool.{Bool, false, ◌&&◌, ◌||◌}
use syllog.Prelude.Tests.{leb, ◌==◌, if◌then◌else◌}

infixr 66 ◌<>◌
abbrev pub ◌<>◌ : String → String → String
s <> t = string_append s t

-- `char::is_whitespace`: the Unicode property White_Space.
unfoldable pub is_whitespace : Char → Bool
is_whitespace c =
    (leb 9 (code c) && leb (code c) 13)
    || code c == 32
    || code c == 133
    || code c == 160
    || code c == 5760
    || (leb 8192 (code c) && leb (code c) 8202)
    || code c == 8232
    || code c == 8233
    || code c == 8239
    || code c == 8287
    || code c == 12288

-- `text.trim_start().starts_with(first)` for one character.
unfoldable pub trimmed_starts_with : ℕ → String → Bool
trimmed_starts_with first String.[] = false
trimmed_starts_with first (String.◌∷◌ c s) =
    let rest = trimmed_starts_with first s in if is_whitespace c then rest else code c == first
