-- ===== src/Config/Env.antt =====
-- The helpers of internal/config/config.go that read one variable of the environment. `getenv` is `os.Getenv`, and
-- the parsers are those of the packages time and strconv.
use Prim.Native.Char.{code}
use Prim.Native.String.{◌++◌ as str_append}
use run_mesh.Base.{
  String, Bool, false, Option, none, some, List, [], ◌∷◌, str_eq, ◌==◌, if◌then◌else◌, Result, ok,
}
use run_mesh.Base.Strings.{trim}
use run_mesh.Base.Int.{ℤ}
use run_mesh.Artifact.Manager.{or_wrap}

pub record Parsers : Type 0 where
  pub parse_bool : String → Option Bool
  pub parse_duration : String → Result ℤ
  pub atoi : String → Result ℤ

abbrev pub Getenv : Type 0
Getenv = String → String

-- `env`
unfoldable pub env_or : Getenv → String → String → String
env_or getenv key fallback = if str_eq (getenv key) "" then fallback else getenv key

-- `envBool`: a text that is no Boolean is false.
unfoldable pub env_bool : Parsers → Getenv → String → Bool → Bool
env_bool parsers getenv key fallback =
    if str_eq (getenv key) ""
    then fallback
    else elim (parsers.parse_bool (getenv key)) [ none ↦ false | some b ↦ b ]

-- `envDuration`
unfoldable pub env_duration : Parsers → Getenv → String → ℤ → Result ℤ
unfolding or_wrap
env_duration parsers getenv key fallback =
    if str_eq (getenv key) ""
    then ok fallback
    else or_wrap (str_append key ": ") (parsers.parse_duration (getenv key))

-- `envInt`
unfoldable pub env_int : Parsers → Getenv → String → ℤ → Result ℤ
unfolding or_wrap
env_int parsers getenv key fallback =
    if str_eq (getenv key) ""
    then ok fallback
    else or_wrap (str_append key ": ") (parsers.atoi (getenv key))

-- A character before the first part.
abbrev push : String → List String → List String
push c [] = c ∷ []
push c (part ∷ parts) = str_append c part ∷ parts

-- `strings.Split(s, ",")`
unfoldable pub split_commas : String → List String
split_commas String.[] = "" ∷ []
split_commas (String.◌∷◌ c s) =
    let rest = split_commas s in
    if code c == b',' then "" ∷ rest else push (String.◌∷◌ c String.[]) rest

-- `splitNonEmpty`
unfoldable pub trim_each : List String → List String
unfolding trim
trim_each [] = []
trim_each (part ∷ parts) =
    let rest = trim_each parts in if str_eq (trim part) "" then rest else trim part ∷ rest

unfoldable pub split_non_empty : String → List String
unfolding split_commas trim_each
split_non_empty value = trim_each (split_commas value)
