-- ===== src/Controller/Quantity.antt =====
-- src/controller/mod.rs, `parse_quantity` and `parse_quantity_or_bytes`, over code points.
use zfs_evacuation_controlle.Base.{
  ℕ, ◌+◌, ◌*◌, ◌-◌, ◌^◌, String, Bool, ◌&&◌, ◌||◌, Option, none, some, List, [], ◌∷◌, ltb, leb,
  ◌==◌, if◌then◌else◌, codes, is_ascii_digit,
}
use zfs_evacuation_controlle.Controller.Context.{Libs}

-- `char::is_whitespace`
abbrev is_whitespace : ℕ → Bool
is_whitespace c =
    (leb 9 c && leb c 13)
    || ((c == 32)
        || ((c == 133)
            || ((c == 160)
                || ((c == 5760)
                    || ((leb 8192 c && leb c 8202)
                        || ((c == 8232)
                            || ((c == 8233) || ((c == 8239) || ((c == 8287) || (c == 12288))))))))))

trim_start : List ℕ → List ℕ
trim_start [] = []
trim_start (c ∷ cs) = let rest = trim_start cs in if is_whitespace c then rest else c ∷ cs

-- Drops the white space at the end.
trim_end : List ℕ → List ℕ
trim_end [] = []
trim_end (c ∷ cs) = elim (trim_end cs) [
  | [] ↦ if is_whitespace c then [] else c ∷ []
  | d ∷ ds ↦ c ∷ d ∷ ds
]

unfoldable pub trim : List ℕ → List ℕ
unfolding trim_start trim_end
trim cs = trim_end (trim_start cs)

-- `str::parse::<u128>`: an optional plus, then at least one digit, and no overflow.
unfoldable pub digits_value : ℕ → List ℕ → Option ℕ
digits_value acc [] = some acc
digits_value acc (c ∷ cs) =
    let next = acc * 10 + (c - b'0') in
    let rest = digits_value next cs in if is_ascii_digit c && ltb next (2 ^ 128) then rest else none

strip_plus : List ℕ → List ℕ
strip_plus [] = []
strip_plus (c ∷ cs) = if c == b'+' then cs else c ∷ cs

unfoldable pub parse_u128 : List ℕ → Option ℕ
unfolding digits_value strip_plus
parse_u128 cs = elim (strip_plus cs) [ [] ↦ none | d ∷ ds ↦ digits_value 0 (d ∷ ds) ]

-- A character of the numeric part.
abbrev is_numeric : ℕ → Bool
is_numeric c = is_ascii_digit c || ((c == b'.') || ((c == b'-') || (c == b'+')))

-- `q.split_at(q.find(…)?)`: none where every character is numeric.
split_suffix : List ℕ → Option (List ℕ × List ℕ)
split_suffix [] = none
split_suffix (c ∷ cs) =
    let rest = split_suffix cs in
    if is_numeric c
    then elim rest [ none ↦ none | some (num, suffix) ↦ some (c ∷ num, suffix) ]
    else some ([], c ∷ cs)

-- The suffixes, by the code points of their letters.
multiplier : List ℕ → Option ℕ
multiplier (c ∷ []) =
    if c == b'k'
    then some (10 ^ 3)
    else if c == b'M'
    then some (10 ^ 6)
    else if c == b'G'
    then some (10 ^ 9)
    else if c == b'T'
    then some (10 ^ 12)
    else if c == b'P'
    then some (10 ^ 15)
    else if c == b'E'
    then some (10 ^ 18)
    else none
multiplier (c ∷ d ∷ []) =
    if d == b'i'
    then (if c == b'K'
        then some (2 ^ 10)
        else if c == b'M'
        then some (2 ^ 20)
        else if c == b'G'
        then some (2 ^ 30)
        else if c == b'T'
        then some (2 ^ 40)
        else if c == b'P'
        then some (2 ^ 50)
        else if c == b'E'
        then some (2 ^ 60)
        else none)
    else none
multiplier _ = none

-- `Some((val * mult as f64) as u128)`, unless the number is negative.
scaled : Libs → ℕ → List ℕ → Option ℕ
scaled libs mult num = elim (libs.f64_parse num) [
  | none ↦ none
  | some val ↦
      if libs.f64_is_negative val
      then none
      else some (libs.f64_to_u128 (libs.f64_mul val (libs.f64_of_u128 mult)))
]

parse_split : Libs → List ℕ × List ℕ → Option ℕ
unfolding multiplier scaled
parse_split libs ([], suffix) = none
parse_split libs (d ∷ ds, suffix) = elim (multiplier suffix) [
  | none ↦ none
  | some mult ↦ scaled libs mult (d ∷ ds)
]

unfoldable pub parse_quantity : Libs → List ℕ → Option ℕ
unfolding trim split_suffix parse_split
parse_quantity libs q = elim (split_suffix (trim q)) [ none ↦ none | some p ↦ parse_split libs p ]

unfoldable pub parse_quantity_or_bytes : Libs → String → Option ℕ
unfolding trim parse_u128 parse_quantity
parse_quantity_or_bytes libs q = elim (parse_u128 (trim (codes q))) [
  | none ↦ parse_quantity libs (codes q)
  | some n ↦ some n
]
