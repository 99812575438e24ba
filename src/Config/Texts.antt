-- ===== src/Config/Texts.antt =====
-- The functions of Go's `strings` that internal/config/load.go uses.
use Prim.Native.Char.{code}
use Prim.Native.String.{String}
use delta_works.Base.{ℕ, Bool, ◌&&◌, ◌||◌, Option, none, some, if◌then◌else◌, ◌==◌, leb, str_eq}

-- `unicode.IsSpace`, of a code point.
abbrev pub is_space : ℕ → Bool
is_space c =
    leb 9 c && leb c 13
    || c == 32
    || c == 133
    || c == 160
    || c == 5760
    || leb 8192 c && leb c 8202
    || c == 8232
    || c == 8233
    || c == 8239
    || c == 8287
    || c == 12288

unfoldable pub trim_left : String → String
trim_left String.[] = String.[]
trim_left (String.◌∷◌ c s) =
    let rest = trim_left s in if is_space (code c) then rest else String.◌∷◌ c s

unfoldable pub trim_right : String → String
trim_right String.[] = String.[]
trim_right (String.◌∷◌ c s) =
    let rest = trim_right s in if is_space (code c) && str_eq rest "" then "" else String.◌∷◌ c rest

-- `strings.TrimSpace`.
unfoldable pub trim_space : String → String
trim_space s = trim_right (trim_left s)

-- `strings.CutPrefix(path, "~/")`.
unfoldable pub cut_home : String → Option String
cut_home (String.◌∷◌ c (String.◌∷◌ d s)) = if code c == 126 && code d == 47 then some s else none
cut_home _ = none
