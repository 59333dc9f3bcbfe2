-- ===== src/Prelude/Text.antt =====
-- The string operations of JavaScript that the program calls, over the native texts.
use Prim.Native.Char.{code}
use Prim.Native.Nat.{ℕ}
use Prim.Native.String
use Prim.Native.String.{String}
use mathlib.Core.Bool.{Bool, true, ◌||◌, ◌&&◌}
use mathlib.Core.List.{List}
use text.Mathlib.Text.{◌==◌, starts_with}
use replication_backend.Prelude.Tests.{if◌then◌else◌, eqb, leb}
use replication_backend.Prelude.Lists.{any}

-- `list.includes(text)`
abbrev pub contains : List String → String → Bool
contains xs s = any (λ x. x == s) xs

-- `s.endsWith(t)`
unfoldable pub ends_with : String → String → Bool
ends_with String.[] t = String.[] == t
ends_with (String.◌∷◌ c s) t = String.◌∷◌ c s == t || ends_with s t

-- `s.includes(t)`
unfoldable pub includes : String → String → Bool
includes String.[] t = starts_with String.[] t
includes (String.◌∷◌ c s) t = starts_with (String.◌∷◌ c s) t || includes s t

-- `s.split(sep)[0]`, for a separator of one character
unfoldable pub before : ℕ → String → String
before sep String.[] = String.[]
before sep (String.◌∷◌ c s) =
    let rest = before sep s in if eqb (code c) sep then String.[] else String.◌∷◌ c rest

-- `s.replace(/suffix$/, '')`
unfoldable pub strip_suffix : String → String → String
strip_suffix suffix String.[] = String.[]
strip_suffix suffix (String.◌∷◌ c s) =
    let rest = strip_suffix suffix s in
    if String.◌∷◌ c s == suffix then String.[] else String.◌∷◌ c rest

-- What `trim` removes: white space and line ends.
abbrev pub is_space : ℕ → Bool
is_space c =
    leb 9 c && leb c 13
    || eqb c 32
    || eqb c 160
    || eqb c 5760
    || leb 8192 c && leb c 8202
    || eqb c 8232
    || eqb c 8233
    || eqb c 8239
    || eqb c 8287
    || eqb c 12288
    || eqb c 65279

-- `s.trim() === ''`
unfoldable pub is_blank : String → Bool
is_blank String.[] = true
is_blank (String.◌∷◌ c s) = is_space (code c) && is_blank s

infixr 66 ◌&◌
-- Template literals and `+` on texts.
abbrev pub ◌&◌ : String → String → String
s & t = String.◌++◌ s t
