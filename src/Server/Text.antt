-- ===== src/Server/Text.antt =====
-- The text of the local files: times, posts, and the lines of the user info file.
use distributed_sns.Base.{
  ℕ, none, some, List, [], ◌∷◌, ◌++◌, Str, codes, ◌==◌, nat_eq, if◌then◌else◌,
}
use distributed_sns.Base.Int.{ℤ}
use distributed_sns.Base.Decimal.{to_string}
use distributed_sns.Base.Result.{Result, ok, err, thrown, ◌>>=◌}
use distributed_sns.Server.State.{Timestamp, LocalTime, Message}

unfoldable pub first_char : ℕ → List Str → List Str
first_char x [] = (x ∷ []) ∷ []
first_char x (l ∷ ls) = (x ∷ l) ∷ ls

-- `split`, by `getline`: there is no empty token behind a delimiter that ends the string.
unfoldable pub split : Str → ℕ → List Str
unfolding first_char
split [] delim = []
split (x ∷ s) delim =
    let rest = split s delim in if x == delim then [] ∷ rest else first_char x rest

abbrev pub newline : ℕ
newline = 10

abbrev pub space : ℕ
space = b' '

-- "%Y-%m-%dT%H:%M:%S", but without leading zeros.
unfoldable pub timestamp_to_str : LocalTime → Timestamp → Str
timestamp_to_str tz t =
    let tm = tz.localtime t.seconds in
    to_string tm.year
    ++ (codes "-"
        ++ (to_string tm.month
            ++ (codes "-"
                ++ (to_string tm.day
                    ++ (codes "T"
                        ++ (to_string tm.hour
                            ++ (codes ":"
                                ++ (to_string tm.minute
                                    ++ (codes ":" ++ to_string tm.second)))))))))

unfoldable pub str_to_seconds : LocalTime → Str → Result ℤ
str_to_seconds tz s = elim (tz.parse_time s) [ none ↦ err thrown | some t ↦ ok t ]

unfoldable pub str_to_timestamp : LocalTime → Str → Result Timestamp
unfolding str_to_seconds
str_to_timestamp tz s = do t ← str_to_seconds tz s; ok (record { seconds = t; nanos = 0 })

unfoldable pub format_message_output : LocalTime → Message → Str
unfolding timestamp_to_str
format_message_output tz m =
    codes "T "
    ++ (timestamp_to_str tz m.timestamp
        ++ ((newline ∷ codes "U ")
            ++ (m.username ++ ((newline ∷ codes "W ") ++ (m.msg ++ (newline ∷ newline ∷ []))))))

-- `FSLocal::read`: the lines of the file, each with a newline.
unfoldable pub join_lines : List Str → Str
join_lines [] = []
join_lines (l ∷ ls) = l ++ (newline ∷ join_lines ls)

unfoldable pub read_local : Str → Str
unfolding split join_lines
read_local file = join_lines (split file newline)

-- The lines of the user info file.
unfoldable pub user_line : Str → Str
user_line u = codes "user " ++ (u ++ (newline ∷ []))

unfoldable pub follow_line : Str → Str → Str → Str
follow_line u v time = codes "follow " ++ (u ++ (space ∷ (v ++ (space ∷ (time ++ (newline ∷ []))))))

unfoldable pub unfollow_line : Str → Str → Str
unfollow_line u v = codes "unfollow " ++ (u ++ (space ∷ (v ++ (newline ∷ []))))
