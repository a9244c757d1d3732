-- ===== src/Acl/Parse.antt =====
-- common/acl_processor.rs: `parse_port_range`, with what it uses of `str`.
use peer_link.Common.{
  ℕ, ◌+◌, ◌-◌, ◌*◌, ◌^◌, Bool, [], ◌∷◌, ◌&&◌, ◌||◌, Option, none, some, ◌==◌, leb, ltb,
  if◌then◌else◌,
}
use peer_link.Acl.{Text}

-- `char::is_whitespace`
abbrev pub is_whitespace : ℕ → Bool
is_whitespace c =
    (leb 9 c && leb c 13)
    || c == 32
    || c == 133
    || c == 160
    || c == 5760
    || (leb 8192 c && leb c 8202)
    || c == 8232
    || c == 8233
    || c == 8239
    || c == 8287
    || c == 12288

unfoldable pub trim_start : Text → Text
trim_start [] = []
trim_start (c ∷ cs) = if is_whitespace c then trim_start cs else c ∷ cs

-- A text without the white space that ends it.
unfoldable pub trim_end : Text → Text
trim_end [] = []
trim_end (c ∷ cs) = elim (trim_end cs) [
  | [] ↦ if is_whitespace c then [] else c ∷ []
  | d ∷ ds ↦ c ∷ d ∷ ds
]

unfoldable pub trim : Text → Text
unfolding trim_start trim_end
trim cs = trim_end (trim_start cs)

-- The value of decimal digits after `acc`; none for another character or beyond `u16::MAX`.
unfoldable pub digits_u16 : ℕ → Text → Option ℕ
digits_u16 acc [] = some acc
digits_u16 acc (c ∷ cs) =
    if leb 48 c && leb c 57 && ltb (acc * 10 + (c - 48)) (2 ^ 16)
    then digits_u16 (acc * 10 + (c - 48)) cs
    else none

-- `str::parse::<u16>`: one `+` may come first.
unfoldable pub parse_u16 : Text → Option ℕ
unfolding digits_u16
parse_u16 [] = none
parse_u16 (c ∷ []) = digits_u16 0 (c ∷ [])
parse_u16 (c ∷ d ∷ ds) = if c == 43 then digits_u16 0 (d ∷ ds) else digits_u16 0 (c ∷ d ∷ ds)

-- `split_once('-')`
unfoldable pub split_once : ℕ → Text → Option (Text × Text)
split_once sep [] = none
split_once sep (c ∷ cs) =
    if c == sep
    then some ([], cs)
    else (elim (split_once sep cs) [ none ↦ none | some (a, b) ↦ some (c ∷ a, b) ])

unfoldable pub parse_port_range : Text → Option (ℕ × ℕ)
unfolding trim parse_u16 split_once
parse_port_range s = elim (split_once 45 s) [
  | some (start, end) ↦ elim (parse_u16 (trim start)) [
    | none ↦ none
    | some a ↦ elim (parse_u16 (trim end)) [ none ↦ none | some b ↦ some (a, b) ]
  ]
  | none ↦ elim (parse_u16 (trim s)) [ none ↦ none | some port ↦ some (port, port) ]
]
