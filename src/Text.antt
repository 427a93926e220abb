-- ===== src/Text.antt =====
-- Rust's `str` as the list of its bytes, with the methods of `str` and the number formatting
-- that src/ calls. Case mapping and trimming are those of ASCII.
pub mod Laws
use aralez.Prelude.{
  ℕ, zero, suc, ◌+◌, ◌-◌, ◌*◌, ◌/◌, ◌%◌, String, Bool, true, false, not, ◌&&◌, ◌||◌, Option, none,
  some, List, [], ◌∷◌, ◌++◌, ltb, leb, ◌==◌, nat_eq, if◌then◌else◌, length, take, drop, map,
  list_eq, list_beq,
}
use Prim.Native.Char.{code}
use mathlib.Core.Option

abbrev pub Str : Type 0
Str = List ℕ

-- The bytes of an ASCII literal.
abbrev pub bytes : String → Str
bytes String.[] = []
bytes (String.◌∷◌ c s) = code c ∷ bytes s

-- `char::from(b'/')` as the position of its last occurrence.
unfoldable pub rfind : ℕ → Str → Option ℕ
rfind c [] = none
rfind c (x ∷ s) = elim (rfind c s) [
  | some i ↦ some (suc i)
  | none ↦ if x == c then some 0 else none
]

unfoldable pub find : ℕ → Str → Option ℕ
find c [] = none
find c (x ∷ s) = if x == c then some 0 else Option.map suc (find c s)

unfoldable pub starts_with : Str → Str → Bool
starts_with [] s = true
starts_with (p ∷ ps) [] = false
starts_with (p ∷ ps) (x ∷ s) = p == x && starts_with ps s

-- `find` with a text for its pattern.
unfoldable pub find_str : Str → Str → Option ℕ
unfolding starts_with
find_str p [] = if starts_with p [] then some 0 else none
find_str p (x ∷ s) = if starts_with p (x ∷ s) then some 0 else Option.map suc (find_str p s)

unfoldable pub strip_prefix : Str → Str → Option Str
strip_prefix [] s = some s
strip_prefix (p ∷ ps) [] = none
strip_prefix (p ∷ ps) (x ∷ s) = if p == x then strip_prefix ps s else none

unfoldable pub ends_with : Str → Str → Bool
unfolding list_beq
ends_with p [] = p == []
ends_with p (x ∷ s) = p == x ∷ s || ends_with p s

unfoldable pub split_once : ℕ → Str → Option (Str × Str)
split_once c [] = none
split_once c (x ∷ s) =
    if x == c then some ([], s) else Option.map (λ r. (x ∷ r.0, r.1)) (split_once c s)

unfoldable pub rsplit_once : ℕ → Str → Option (Str × Str)
rsplit_once c [] = none
rsplit_once c (x ∷ s) = elim (rsplit_once c s) [
  | some r ↦ some (x ∷ r.0, r.1)
  | none ↦ if x == c then some ([], s) else none
]

-- `split`: the parts between the separators, never an empty list.
unfoldable pub split : ℕ → Str → List Str
split c [] = [] ∷ []
split c (x ∷ s) = elim (split c s) [
  | [] ↦ []
  | part ∷ parts ↦ if x == c then [] ∷ part ∷ parts else (x ∷ part) ∷ parts
]

-- `replace` of a text that is not empty; the number is how many bytes of an occurrence are still
-- to be passed over.
replace_from : Str → Str → ℕ → Str → Str
unfolding starts_with
replace_from p r skip [] = []
replace_from p r (suc skip) (x ∷ s) = replace_from p r skip s
replace_from p r zero (x ∷ s) = elim (starts_with p (x ∷ s)) [
  | true ↦ r ++ replace_from p r (length p - 1) s
  | false ↦ x ∷ replace_from p r 0 s
]

unfoldable pub replace : Str → Str → Str → Str
unfolding replace_from
replace p r s = replace_from p r 0 s

trim_start_matches : ℕ → Str → Str
trim_start_matches c [] = []
trim_start_matches c (x ∷ s) = if x == c then trim_start_matches c s else x ∷ s

trim_end_matches : ℕ → Str → Str
trim_end_matches c [] = []
trim_end_matches c (x ∷ s) = elim (trim_end_matches c s) [
  | [] ↦ if x == c then [] else x ∷ []
  | y ∷ r ↦ x ∷ y ∷ r
]

unfoldable pub trim_matches : ℕ → Str → Str
unfolding trim_start_matches trim_end_matches
trim_matches c s = trim_end_matches c (trim_start_matches c s)

is_space : ℕ → Bool
is_space c = c == 32 || leb 9 c && leb c 13

trim_start : Str → Str
unfolding is_space
trim_start [] = []
trim_start (x ∷ s) = if is_space x then trim_start s else x ∷ s

trim_end : Str → Str
unfolding is_space
trim_end [] = []
trim_end (x ∷ s) = elim (trim_end s) [ [] ↦ if is_space x then [] else x ∷ [] | y ∷ r ↦ x ∷ y ∷ r ]

unfoldable pub trim : Str → Str
unfolding trim_start trim_end
trim s = trim_end (trim_start s)

abbrev pub lower : ℕ → ℕ
lower c = if leb 65 c && leb c 90 then c + 32 else c

abbrev pub upper : ℕ → ℕ
upper c = if leb 97 c && leb c 122 then c - 32 else c

unfoldable pub to_ascii_lowercase : Str → Str
to_ascii_lowercase s = map lower s

unfoldable pub to_uppercase : Str → Str
to_uppercase s = map upper s

-- `str::parse::<u16>`: an optional `+`, at least one digit, nothing else, and no overflow.
unfoldable pub parse_digits : ℕ → Str → Option ℕ
parse_digits acc [] = some acc
parse_digits acc (x ∷ s) =
    let rest = parse_digits (acc * 10 + (x - 48)) s in if leb 48 x && leb x 57 then rest else none

abbrev pub u16_max : ℕ
u16_max = 65535

parse_unsigned : Str → Option ℕ
unfolding parse_digits
parse_unsigned [] = none
parse_unsigned (x ∷ s) = elim (parse_digits 0 (x ∷ s)) [
  | none ↦ none
  | some n ↦ if leb n u16_max then some n else none
]

unfoldable pub parse_u16 : Str → Option ℕ
unfolding parse_unsigned
parse_u16 [] = none
parse_u16 (x ∷ s) = if x == b'+' then parse_unsigned s else parse_unsigned (x ∷ s)

-- `{}` of an unsigned number; a number has fewer digits than its successor has units.
digits_from : ℕ → ℕ → Str → Str
digits_from zero n acc = acc
digits_from (suc fuel) n acc =
    let more = digits_from fuel (n / 10) ((48 + n % 10) ∷ acc) in
    if ltb n 10 then (48 + n) ∷ acc else more

unfoldable pub show : ℕ → Str
unfolding digits_from
show n = digits_from (suc n) n []

abbrev pub show_bool : Bool → Str
show_bool true = bytes "true"
show_bool false = bytes "false"
