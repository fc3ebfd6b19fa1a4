-- ===== src/Smtp/Text.antt =====
-- C strings as lists of bytes: what the SMTP server uses of <string.h>, <strings.h> and <ctype.h>.
use Prim.Native.Char.{code}
use Prim.Native.String.{String}
use open_smtpd.Base.{
  ℕ, zero, suc, ◌+◌, ◌-◌, Bool, true, false, ◌&&◌, ◌||◌, Option, none, some, List, [], ◌∷◌, leb,
  ◌==◌, if◌then◌else◌, map,
}

abbrev pub Text : Type 0
Text = List ℕ

abbrev pub codes : String → Text
codes String.[] = []
codes (String.◌∷◌ c s) = code c ∷ codes s

-- isspace(), isalpha(), isdigit() in the C locale.
unfoldable pub isspace : ℕ → Bool
isspace c = c == b' ' || leb 9 c && leb c 13

unfoldable pub isdigit : ℕ → Bool
isdigit c = leb b'0' c && leb c b'9'

unfoldable pub isalnum : ℕ → Bool
unfolding isdigit
isalnum c = isdigit c || leb b'a' c && leb c b'z' || leb b'A' c && leb c b'Z'

unfoldable pub tolower : ℕ → ℕ
tolower c = if leb b'A' c && leb c b'Z' then c + 32 else c

-- strcmp(a, b) == 0.
unfoldable pub text_eq : Text → Text → Bool
text_eq [] [] = true
text_eq [] (d ∷ b) = false
text_eq (c ∷ a) [] = false
text_eq (c ∷ a) (d ∷ b) = c == d && text_eq a b

-- strcasecmp(a, b) == 0.
unfoldable pub strcasecmp : Text → Text → Bool
unfolding text_eq tolower
strcasecmp a b = text_eq (map tolower a) (map tolower b)

-- strncasecmp(a, b, strlen(a)) == 0.
unfoldable pub starts_with : Text → Text → Bool
unfolding tolower
starts_with [] b = true
starts_with (c ∷ a) [] = false
starts_with (c ∷ a) (d ∷ b) = tolower c == tolower d && starts_with a b

unfoldable pub drop : ℕ → Text → Text
drop zero a = a
drop (suc n) [] = []
drop (suc n) (c ∷ a) = drop n a

unfoldable pub take : ℕ → Text → Text
take zero a = []
take (suc n) [] = []
take (suc n) (c ∷ a) = c ∷ take n a

-- strlcpy() into a buffer of the given size.
unfoldable pub strlcpy : ℕ → Text → Text
unfolding take
strlcpy size a = take (size - 1) a

-- The string that begins at the start of some bytes: up to the first NUL.
unfoldable pub c_string : Text → Text
c_string [] = []
c_string (c ∷ a) = let rest = c_string a in if c == 0 then [] else c ∷ rest

-- strchr(): what stands before the character, and what stands behind it, if it is there.
unfoldable pub strchr : ℕ → Text → Text × Option Text
strchr c [] = ([], none)
strchr c (d ∷ a) =
    let (before, after) = strchr c a in if d == c then ([], some a) else (d ∷ before, after)

-- strrchr(), likewise.
unfoldable pub strrchr_cons : ℕ → ℕ → Text → Text × Option Text → Text × Option Text
strrchr_cons c d a (before, some after) = (d ∷ before, some after)
strrchr_cons c d a (before, none) = if d == c then ([], some a) else (d ∷ a, none)

unfoldable pub strrchr : ℕ → Text → Text × Option Text
unfolding strrchr_cons
strrchr c [] = ([], none)
strrchr c (d ∷ a) = strrchr_cons c d a (strrchr c a)

-- The rest of a text after the leading characters that pass a test.
unfoldable pub skip_while : (ℕ → Bool) → Text → Text
skip_while p [] = []
skip_while p (c ∷ a) = let rest = skip_while p a in if p c then rest else c ∷ a

-- All the pieces that strsep() cuts a text into, at each of one character.
unfoldable pub put_first : ℕ → List Text → List Text
put_first d [] = (d ∷ []) ∷ []
put_first d (piece ∷ pieces) = (d ∷ piece) ∷ pieces

unfoldable pub strsep : ℕ → Text → List Text
unfolding put_first
strsep c [] = [] ∷ []
strsep c (d ∷ a) = let pieces = strsep c a in if d == c then [] ∷ pieces else put_first d pieces

unfoldable pub is_empty : Text → Bool
is_empty [] = true
is_empty (c ∷ a) = false
