-- ===== src/Base/Parse.antt =====
-- The operations of the standard library on texts that the readers of streams and of answers use, by the
-- code points of a text.
use Prim.Native.Char.{Char, code}
use tianshu_rs.Base.{
  ℕ, String, Bool, true, false, ◌&&◌, ◌||◌, Option, none, some, List, [], ◌∷◌, nat_eq, leb, eqb,
  if◌then◌else◌,
}

-- `char::is_whitespace`
abbrev is_whitespace : ℕ → Bool
is_whitespace c =
    (leb 9 c && leb c 13)
    || eqb c 32
    || eqb c 0x85
    || eqb c 0xA0
    || eqb c 0x1680
    || (leb 0x2000 c && leb c 0x200A)
    || eqb c 0x2028
    || eqb c 0x2029
    || eqb c 0x202F
    || eqb c 0x205F
    || eqb c 0x3000

abbrev pub is_empty : String → Bool
is_empty String.[] = true
is_empty (String.◌∷◌ c s) = false

abbrev pub cons : Char → String → String
cons c s = String.◌∷◌ c s

trim_start : String → String
trim_start String.[] = ""
trim_start (String.◌∷◌ c s) = if is_whitespace (code c) then trim_start s else cons c s

trim_end : String → String
trim_end String.[] = ""
trim_end (String.◌∷◌ c s) =
    let rest = trim_end s in if is_empty rest && is_whitespace (code c) then "" else cons c rest

unfoldable pub trim : String → String
unfolding trim_start trim_end
trim s = trim_end (trim_start s)

-- `strip_prefix`
unfoldable pub strip_prefix : (prefix : String) → String → Option String
strip_prefix String.[] s = some s
strip_prefix (String.◌∷◌ p prefix) String.[] = none
strip_prefix (String.◌∷◌ p prefix) (String.◌∷◌ c s) =
    if eqb (code p) (code c) then strip_prefix prefix s else none

unfoldable pub starts_with_colon : String → Bool
starts_with_colon String.[] = false
starts_with_colon (String.◌∷◌ c s) = eqb (code c) b':'

abbrev pub cons_first : Char → List String → List String
cons_first c [] = cons c "" ∷ []
cons_first c (l ∷ ls) = cons c l ∷ ls

-- `str::lines`; the carriage return that may end a line is left to `trim`
unfoldable pub lines : String → List String
lines String.[] = []
lines (String.◌∷◌ c s) =
    let rest = lines s in if eqb (code c) b'\n' then "" ∷ rest else cons_first c rest

abbrev pub extend : Char → List String × String → List String × String
extend c ([], rest) = ([], cons c rest)
extend c (l ∷ ls, rest) = (cons c l ∷ ls, rest)

abbrev pub end_line : List String × String → List String × String
end_line (ls, rest) = ("" ∷ ls, rest)

-- the lines of a buffer that have ended, and what is left in it
unfoldable pub take_lines : String → List String × String
take_lines String.[] = ([], "")
take_lines (String.◌∷◌ c s) =
    let rest = take_lines s in if eqb (code c) b'\n' then end_line rest else extend c rest

lower_in : String → String → Char → Char
lower_in (String.◌∷◌ u us) (String.◌∷◌ l ls) c =
    if eqb (code u) (code c) then l else lower_in us ls c
lower_in _ _ c = c

-- `to_ascii_lowercase`
unfoldable pub to_ascii_lowercase : String → String
unfolding lower_in
to_ascii_lowercase String.[] = ""
to_ascii_lowercase (String.◌∷◌ c s) =
    cons (lower_in "ABCDEFGHIJKLMNOPQRSTUVWXYZ" "abcdefghijklmnopqrstuvwxyz" c)
      (to_ascii_lowercase s)
