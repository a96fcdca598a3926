-- ===== src/Jwt/Text.antt =====
-- The operations on texts that src/services/jwt.service.ts uses. A text is the list of its characters'
-- codes, as a list of bytes is.
use Prim.Native.Char.{code}
use authentication_v.Base.{
  ℕ, ◌+◌, Bool, true, false, ◌&&◌, ◌||◌, List, [], ◌∷◌, String, leb, ◌==◌, if◌then◌else◌,
}

abbrev pub Text : Type 0
Text = List ℕ

abbrev pub codes : String → Text
codes String.[] = []
codes (String.◌∷◌ c s) = code c ∷ codes s

abbrev pub length {ℓ} : {A : Type ℓ} → List A → ℕ
length [] = 0
length (x ∷ xs) = length xs + 1

abbrev pub add_to_first : ℕ → List Text → List Text
add_to_first c [] = (c ∷ []) ∷ []
add_to_first c (p ∷ ps) = (c ∷ p) ∷ ps

-- `text.split(separator)`, for a separator of one character.
unfoldable pub split : ℕ → Text → List Text
split separator [] = [] ∷ []
split separator (c ∷ t) =
    let rest = split separator t in if c == separator then [] ∷ rest else add_to_first c rest

-- `text.replace(/c/g, d)`
unfoldable pub replace : ℕ → ℕ → Text → Text
replace c d [] = []
replace c d (x ∷ t) = let rest = replace c d t in (if x == c then d else x) ∷ rest

-- `text.replace(/c/g, "")`
unfoldable pub remove : ℕ → Text → Text
remove c [] = []
remove c (x ∷ t) = let rest = remove c t in if x == c then rest else x ∷ rest

-- The characters that `trim` takes off.
abbrev is_space : ℕ → Bool
is_space c =
    (leb 9 c && leb c 13)
    || c == 32
    || c == 160
    || c == 5760
    || (leb 8192 c && leb c 8202)
    || c == 8232
    || c == 8233
    || c == 8239
    || c == 8287
    || c == 12288
    || c == 65279

trim_start : Text → Text
trim_start [] = []
trim_start (c ∷ t) = let rest = trim_start t in if is_space c then rest else c ∷ t

abbrev put_back : ℕ → Text → Text
put_back c [] = if is_space c then [] else c ∷ []
put_back c (d ∷ t) = c ∷ d ∷ t

trim_end : Text → Text
trim_end [] = []
trim_end (c ∷ t) = put_back c (trim_end t)

unfoldable pub trim : Text → Text
unfolding trim_start trim_end
trim t = trim_end (trim_start t)

abbrev pub is_empty : Text → Bool
is_empty [] = true
is_empty (c ∷ t) = false

-- `text.split(",").map((a) => a.trim()).filter((a) => a.length > 0)`
abbrev pub trimmed_parts : List Text → List Text
unfolding trim
trimmed_parts [] = []
trimmed_parts (p ∷ ps) =
    let rest = trimmed_parts ps in if is_empty (trim p) then rest else trim p ∷ rest

unfoldable pub comma_list : Text → List Text
unfolding split
comma_list t = trimmed_parts (split 44 t)
