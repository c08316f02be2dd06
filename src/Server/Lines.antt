-- ===== src/Server/Lines.antt =====
-- The lines of the user info file, written and read.
use distributed_sns.Base.{
  ℕ, ◌≡◌, refl, ◌∙◌, ◌≢◌, sym, ap, List, [], ◌∷◌, ◌++◌, append_assoc, arith, Str, codes, nat_eq,
  ==_refl, ==_ne, All, All-append,
}
use distributed_sns.Base.Int.{ℤ}
use distributed_sns.Base.Decimal.{to_string, to_string-All, IsDecimal}
use distributed_sns.FsUtils.Paths.{Lacks}
use distributed_sns.Server.State.{LocalTime, Timestamp}
use distributed_sns.Server.Text.{split, join_lines, read_local, newline, space, timestamp_to_str}

module _ (c : ℕ) where
  -- A token in front of a delimiter.
  pub split-token : (t s : Str) → Lacks c t → split (t ++ (c ∷ s)) c ≡ t ∷ split s c
  unfolding split
  split-token [] s h = rw (==_refl c) refl
  split-token (x ∷ t) s h = rw (==_ne x c h.0, split-token t s h.1) refl

  pub split_last : (t : Str) → t ≢ [] → Lacks c t → split t c ≡ t ∷ []
  unfolding split
  split_last [] n h = absurd (n refl)
  split_last (x ∷ []) n h = rw (==_ne x c h.0) refl
  split_last (x ∷ y ∷ t) n h = rw (==_ne x c h.0) (rw (split_last (y ∷ t) (λ e. cc) h.1) refl)

-- A file that is written by lines splits into those lines.
pub split-join_lines : (ls : List Str) → All (Lacks newline) ls → split (join_lines ls) newline ≡ ls
unfolding split join_lines
split-join_lines [] h = refl
split-join_lines (l ∷ ls) h =
    split-token newline l (join_lines ls) h.0 ∙ ap (λ r. l ∷ r) (split-join_lines ls h.1)

-- A local file that was written as lines without a newline in them, each with a newline behind
-- it, is read back unchanged.
pub read_local-join_lines :
    (ls : List Str) → All (Lacks newline) ls → read_local (join_lines ls) ≡ join_lines ls
unfolding read_local
read_local-join_lines ls h = ap join_lines (split-join_lines ls h)

pub join_lines-append :
    (ls : List Str) (l : Str) → join_lines (ls ++ (l ∷ [])) ≡ join_lines ls ++ (l ++ (newline ∷ []))
unfolding join_lines
join_lines-append [] l = refl
join_lines-append (k ∷ ls) l =
    ap (λ r. k ++ (newline ∷ r)) (join_lines-append ls l)
    ∙ sym (append_assoc k (newline ∷ join_lines ls) (l ++ (newline ∷ [])))

-- A user name, or a time: what is written into a line as one word.
abbrev pub IsWord : Str → Type 0
IsWord w = (w ≢ []) × Lacks space w × Lacks newline w

pub split-user : (u : Str) → IsWord u → split (codes "user " ++ u) space ≡ codes "user" ∷ u ∷ []
split-user u h =
    split-token space (codes "user") u (omega arith)
    ∙ ap (λ r. codes "user" ∷ r) (split_last space u h.0 h.1)

pub split-unfollow :
    (u v : Str)
    → IsWord u
    → IsWord v
    → split (codes "unfollow " ++ (u ++ (space ∷ v))) space ≡ codes "unfollow" ∷ u ∷ v ∷ []
split-unfollow u v h k =
    split-token space (codes "unfollow") (u ++ (space ∷ v)) (omega arith)
    ∙ ap (λ r. codes "unfollow" ∷ r)
        (split-token space u v h.1 ∙ ap (λ r. u ∷ r) (split_last space v k.0 k.1))

pub split-follow :
    (u v time : Str)
    → IsWord u
    → IsWord v
    → IsWord time
    → split (codes "follow " ++ (u ++ (space ∷ (v ++ (space ∷ time))))) space
      ≡ codes "follow" ∷ u ∷ v ∷ time ∷ []
split-follow u v time h k l =
    split-token space (codes "follow") (u ++ (space ∷ (v ++ (space ∷ time)))) (omega arith)
    ∙ ap (λ r. codes "follow" ∷ r)
        (split-token space u (v ++ (space ∷ time)) h.1
          ∙ ap (λ r. u ∷ r)
              (split-token space v time k.1 ∙ ap (λ r. v ∷ r) (split_last space time l.0 l.1)))

-- The characters of a printed time.
IsTimeText : ℕ → Type 0
IsTimeText c = (c ≢ space) × (c ≢ newline)

time_of_decimal : (s : Str) → All IsDecimal s → All IsTimeText s
unfolding IsTimeText
time_of_decimal [] h = tt
time_of_decimal (c ∷ s) h =
    let less = h.0.0 in
    (((λ e. absurd (omega arith)), (λ e. absurd (omega arith))), time_of_decimal s h.1)

number-All : (n : ℤ) (s : Str) → All IsTimeText s → All IsTimeText (to_string n ++ s)
number-All n s h = All-append IsTimeText (to_string n) s (time_of_decimal _ (to_string-All n)) h

Lacks-of_time : (s : Str) → All IsTimeText s → Lacks space s × Lacks newline s
unfolding IsTimeText
Lacks-of_time [] h = (tt, tt)
Lacks-of_time (c ∷ s) h = let (a, b) = Lacks-of_time s h.1 in ((h.0.0, a), (h.0.1, b))

cons-All : (c : ℕ) (s : Str) → c ≢ space → c ≢ newline → All IsTimeText s → All IsTimeText (c ∷ s)
unfolding IsTimeText
cons-All c s f g h = ((f, g), h)

append-ne_nil : (s : Str) (c : ℕ) (t : Str) → s ++ (c ∷ t) ≢ []
append-ne_nil [] c t e = cc
append-ne_nil (x ∷ s) c t e = cc

-- A printed time is one word.
pub timestamp_to_str-IsWord : (tz : LocalTime) (t : Timestamp) → IsWord (timestamp_to_str tz t)
unfolding timestamp_to_str
timestamp_to_str-IsWord tz t =
    let tm = tz.localtime t.seconds in
    let (a, b) = Lacks-of_time _ (
      number-All tm.year _ (
        cons-All b'-' _ (omega arith) (omega arith) (
          number-All tm.month _ (
            cons-All b'-' _ (omega arith) (omega arith) (
              number-All tm.day _ (
                cons-All b'T' _ (omega arith) (omega arith) (
                  number-All tm.hour _ (
                    cons-All b':' _ (omega arith) (omega arith) (
                      number-All tm.minute _ (
                        cons-All b':' _ (omega arith) (omega arith)
                          (time_of_decimal _ (to_string-All tm.second)))))))))))) in
    (append-ne_nil (to_string tm.year) _ _, a, b)
