-- ===== src/Client/Text.antt =====
-- The strings of the client: upper case, reading from standard input, and printing lists.
use distributed_sns.Base.{
  ℕ, zero, suc, ◌-◌, ◌&&◌, Option, none, some, List, [], ◌∷◌, ◌++◌, Str, ◌==◌, nat_eq,
  if◌then◌else◌, leb,
}
use distributed_sns.Base.Int.{ℤ, pos, negsuc}
use distributed_sns.Base.Decimal.{to_string}

-- `toupper` of one byte, in the classic locale.
unfoldable pub to_upper : ℕ → ℕ
to_upper c = if leb b'a' c && leb c b'z' then c - 32 else c

unfoldable pub to_upper_case : Str → Str
unfolding to_upper
to_upper_case [] = []
to_upper_case (c ∷ s) = to_upper c ∷ to_upper_case s

-- `str.find_first_of(delim)` for one byte; `none` is `npos`.
unfoldable pub find_first_of : ℕ → Str → Option ℕ
find_first_of delim [] = none
find_first_of delim (c ∷ s) =
    let later = find_first_of delim s in
    if c == delim then some 0 else elim later [ none ↦ none | some i ↦ some (suc i) ]

-- `getline(cin, input)`: the line without its newline, and what is left; at the end of the input
-- there is none.
unfoldable pub read_line : Str → Option (Str × Str)
read_line [] = none
read_line (c ∷ s) =
    let rest = read_line s in
    if c == 10
    then some ([], s)
    else elim rest [ none ↦ some (c ∷ [], []) | some (l, left) ↦ some (c ∷ l, left) ]

-- `fgets(buf, n + 1, stdin)`: at most `n` bytes, up to a newline, which is kept.
unfoldable pub fgets : ℕ → Str → Str × Str
fgets zero s = ([], s)
fgets (suc n) [] = ([], [])
fgets (suc n) (c ∷ s) =
    let more = fgets n s in if c == 10 then (c ∷ [], s) else (c ∷ more.0, more.1)

-- The bytes before the first `c`, or all of them.
unfoldable pub before_byte : ℕ → Str → Str
before_byte c [] = []
before_byte c (x ∷ s) = let rest = before_byte c s in if x == c then [] else x ∷ rest

-- `printWithSeparator`
unfoldable pub separated : List Str → Str → Str
separated [] sep = []
separated (t ∷ []) sep = t
separated (t ∷ u ∷ ts) sep = t ++ (sep ++ separated (u ∷ ts) sep)

unfoldable pub print_with_separator : List Str → Str → Str
unfolding separated
print_with_separator tokens sep = separated tokens sep ++ (10 ∷ [])

-- A number as `strftime` prints an hour or a minute.
unfoldable pub two_digits : ℤ → Str
two_digits (pos n) = if leb n 9 then b'0' ∷ to_string (pos n) else to_string (pos n)
two_digits (negsuc n) = to_string (negsuc n)
