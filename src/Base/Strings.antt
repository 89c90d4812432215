-- ===== src/Base/Strings.antt =====
-- What the program uses of Go's packages strings and unicode, and its `len`, on texts.
use Prim.Native.Char.{code}
use Prim.Native.Nat.{ℕ, ◌+◌}
use Prim.Native.String.{String}
use text.Mathlib.Text.{◌==◌ as str_eq}
use mathlib.Core.Bool.{Bool, ◌&&◌, ◌||◌}
use run_mesh.Base.Tests.{ltb, leb, ◌==◌, if◌then◌else◌}

-- `unicode.IsSpace`
unfoldable pub is_space : ℕ → Bool
is_space c =
    leb 9 c && leb c 13
    || (c == 32
        || (c == 133
            || (c == 160
                || (c == 5760
                    || (leb 8192 c && leb c 8202
                        || (c == 8232
                            || (c == 8233 || (c == 8239 || (c == 8287 || c == 12288)))))))))

-- `strings.TrimSpace` on a text that the store receives.
unfoldable pub drop_left : String → String
unfolding is_space
drop_left String.[] = String.[]
drop_left (String.◌∷◌ c s) =
    let rest = drop_left s in if is_space (code c) then rest else String.◌∷◌ c s

unfoldable pub drop_right : String → String
unfolding is_space
drop_right String.[] = String.[]
drop_right (String.◌∷◌ c s) =
    let rest = drop_right s in
    if is_space (code c) && str_eq rest "" then String.[] else String.◌∷◌ c rest

unfoldable pub trim : String → String
unfolding drop_left drop_right
trim s = drop_right (drop_left s)

-- How many bytes UTF-8 has for a character.
abbrev width : ℕ → ℕ
width c = if ltb c 128 then 1 else if ltb c 2048 then 2 else if ltb c 65536 then 3 else 4

-- `len(s)`
unfoldable pub len : String → ℕ
len String.[] = 0
len (String.◌∷◌ c s) = width (code c) + len s
