-- ===== src/Autonomy/Uuid.antt =====
-- A UUID as its value: str(…) of it, UUID(…) of a text, and parse_uuid of autonomy_text_utils.py.
use syncore.Common.{
  ℕ, zero, suc, ◌+◌, ◌*◌, ◌-◌, ◌/◌, ◌%◌, ltb, leb, ◌==◌, ◌&&◌, if◌then◌else◌, Text, is_digit, take,
  drop, Option, none, some, [], ◌∷◌, ◌++◌,
}

-- The value of a hexadecimal digit.
abbrev hex_digit : ℕ → Option ℕ
hex_digit c =
    if is_digit c
    then some (c - 48)
    else if leb 97 c && leb c 102
    then some (c - 87)
    else if leb 65 c && leb c 70
    then some (c - 55)
    else none

-- The hexadecimal digits without dashes: their number and their value.
abbrev read_hex : ℕ → ℕ → Text → Option (ℕ × ℕ)
read_hex n v [] = some (n, v)
read_hex n v (c ∷ s) =
    let skipped = read_hex n v s in
    let more = λ (d : ℕ). read_hex (n + 1) (v * 16 + d) s in
    if c == 45 then skipped else (elim (hex_digit c) [ none ↦ none | some d ↦ more d ])

-- UUID(raw): 32 hexadecimal digits, with or without dashes. The prefixes and braces that Python reads
-- as well are refused here.
unfoldable pub parse_uuid : Text → Option ℕ
parse_uuid raw = elim (read_hex 0 0 raw) [
  | none ↦ none
  | some (n, v) ↦ if n == 32 then some v else none
]

abbrev hex_code : ℕ → ℕ
hex_code d = if ltb d 10 then 48 + d else 87 + d

-- The last `n` hexadecimal digits of a number.
hex_digits : ℕ → ℕ → Text → Text
hex_digits zero k behind = behind
hex_digits (suc n) k behind = hex_digits n (k / 16) (hex_code (k % 16) ∷ behind)

-- uuid.hex
unfoldable pub uuid_hex : ℕ → Text
unfolding hex_digits
uuid_hex k = hex_digits 32 k []

-- str(uuid): 32 digits in groups of 8, 4, 4, 4 and 12.
unfoldable pub uuid_text : ℕ → Text
unfolding hex_digits
uuid_text k =
    let d = hex_digits 32 k [] in
    take 8 d
    ++ 45 ∷ take 4 (drop 8 d)
    ++ 45 ∷ take 4 (drop 12 d)
    ++ 45 ∷ take 4 (drop 16 d)
    ++ 45 ∷ drop 20 d
