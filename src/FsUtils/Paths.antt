-- ===== src/FsUtils/Paths.antt =====
-- Paths that are written from names, and the parent and the last name of a path.
use distributed_sns.Base.{
  arith, ℕ, ◌≡◌, refl, ◌≢◌, ap, ◌∙◌, inl, inr, List, [], ◌∷◌, ◌++◌, Str, ◌==◌, nat_eq, str_eq,
  ==_refl, ==_ne, ne_of_==, sym, All, Bool-cases, append-nil,
}
use distributed_sns.FsUtils.{
  split_filepath, join_but_last, get_parent_folder_path, after_last_slash, get_relative_filename,
}
use distributed_sns.FsUtils.Split.{cons_head, fields, nonempty, split_string-fields}

abbrev pub Lacks : ℕ → Str → Type 0
Lacks c = All (λ b. b ≢ c)

-- What a path can be made of.
abbrev pub IsName : Str → Type 0
IsName t = (t ≢ []) × Lacks b'/' t

-- The names, each behind a slash.
abbrev pub join : List Str → Str
join [] = []
join (t ∷ ts) = b'/' ∷ (t ++ join ts)

-- The list without its last element.
abbrev pub but_last {ℓ} : {A : Type ℓ} → List A → List A
but_last [] = []
but_last (x ∷ []) = []
but_last (x ∷ y ∷ xs) = x ∷ but_last (y ∷ xs)

module _ (c : ℕ) where
  pub fields_at_delimiter : (s : Str) → fields c (c ∷ s) ≡ [] ∷ fields c s
  unfolding fields
  fields_at_delimiter s = rw (==_refl c)

  pub fields_of_token : (t s : Str) → Lacks c t → fields c (t ++ (c ∷ s)) ≡ t ∷ fields c s
  unfolding fields
  fields_of_token [] s h = fields_at_delimiter s
  fields_of_token (x ∷ t) s h = rw (==_ne c x (λ e. h.0 (sym e)), fields_of_token t s h.1)

  pub fields_last : (t : Str) → Lacks c t → fields c t ≡ t ∷ []
  unfolding fields
  fields_last [] h = refl
  fields_last (x ∷ t) h = rw (==_ne c x (λ e. h.0 (sym e)), fields_last t h.1)

  All-cons_head :
      (x : ℕ) (fs : List Str) → x ≢ c → All (Lacks c) fs → All (Lacks c) (cons_head x fs)
  unfolding cons_head
  All-cons_head x [] h a = ((h, tt), tt)
  All-cons_head x (f ∷ fs) h a = ((h, a.0), a.1)

  All-fields : (s : Str) → All (Lacks c) (fields c s)
  unfolding fields
  All-fields [] = (tt, tt)
  All-fields (x ∷ s) = elim (Bool-cases (c == x)) [
    | inl hit ↦ rw hit (tt, All-fields s)
    | inr miss ↦
        rw miss (All-cons_head x (fields c s) (λ e. ne_of_== c x miss (sym e)) (All-fields s))
  ]

pub nonempty-cons : (t : Str) (ts : List Str) → t ≢ [] → nonempty (t ∷ ts) ≡ t ∷ nonempty ts
unfolding nonempty
nonempty-cons [] ts h = absurd (h refl)
nonempty-cons (x ∷ t) ts h = refl

All-nonempty : (ts : List Str) → All (Lacks b'/') ts → All IsName (nonempty ts)
unfolding nonempty
All-nonempty [] h = tt
All-nonempty ([] ∷ ts) h = All-nonempty ts h.1
All-nonempty ((x ∷ t) ∷ ts) h = (((λ e. cc), h.0), All-nonempty ts h.1)

split_filepath-nonempty : (p : Str) → split_filepath p ≡ nonempty (fields b'/' p)
unfolding split_filepath
split_filepath-nonempty p = split_string-fields b'/' p

-- Every token is a name.
pub split_filepath-All : (p : Str) → All IsName (split_filepath p)
split_filepath-All p = rw (split_filepath-nonempty p) (All-nonempty _ (All-fields b'/' p))

split_filepath-slash : (p : Str) → split_filepath (b'/' ∷ p) ≡ split_filepath p
unfolding nonempty
split_filepath-slash p =
    rw (split_filepath-nonempty (b'/' ∷ p), split_filepath-nonempty p, fields_at_delimiter b'/' p)

split_filepath-token :
    (t p : Str) → IsName t → split_filepath (t ++ (b'/' ∷ p)) ≡ t ∷ split_filepath p
split_filepath-token t p h =
    rw
      (
        split_filepath-nonempty (t ++ (b'/' ∷ p)),
        split_filepath-nonempty p,
        fields_of_token b'/' t p h.1,
      )
      (nonempty-cons t _ h.0)

split_filepath-last : (t : Str) → IsName t → split_filepath t ≡ t ∷ []
unfolding nonempty
split_filepath-last t h =
    rw (split_filepath-nonempty t, fields_last b'/' t h.1) (nonempty-cons t [] h.0)

pub split_filepath-nil : split_filepath [] ≡ []
unfolding nonempty fields
split_filepath-nil = split_filepath-nonempty []

-- A path that is written as names with a slash before each, where no name is empty or has a slash
-- in it, splits into those names.
pub split_filepath-join : (ts : List Str) → All IsName ts → split_filepath (join ts) ≡ ts
unfolding nonempty
split_filepath-join [] h = split_filepath-nil
split_filepath-join (t ∷ []) h =
    split_filepath-slash _ ∙ rw (append-nil t) (split_filepath-last t h.0)
split_filepath-join (t ∷ u ∷ ts) h =
    split_filepath-slash _
    ∙ split_filepath-token t _ h.0
    ∙ ap (◌∷◌ t) (sym (split_filepath-slash _) ∙ split_filepath-join (u ∷ ts) h.1)

split_filepath-join_but_last :
    (ts : List Str) → All IsName ts → split_filepath (join_but_last ts) ≡ but_last ts
unfolding join_but_last
split_filepath-join_but_last [] h = split_filepath-nil
split_filepath-join_but_last (t ∷ []) h = split_filepath-nil
split_filepath-join_but_last (t ∷ u ∷ ts) h =
    split_filepath-token t _ h.0 ∙ ap (◌∷◌ t) (split_filepath-join_but_last (u ∷ ts) h.1)

-- The names of the parent folder path of a path are the names of the path but the last, for every
-- string.
pub split_filepath-get_parent_folder_path :
    (p : Str) → split_filepath (get_parent_folder_path p) ≡ but_last (split_filepath p)
unfolding get_parent_folder_path
split_filepath-get_parent_folder_path p = split_filepath-join_but_last _ (split_filepath-All p)

join_but_last-head :
    (ts : List Str) → All IsName ts → {c : _} {s : Str} → join_but_last ts ≡ c ∷ s → c ≢ b'/'
unfolding join_but_last
join_but_last-head [] h e = cc
join_but_last-head (t ∷ []) h e = cc
join_but_last-head ([] ∷ u ∷ ts) h e = absurd (h.0.0 refl)
join_but_last-head ((x ∷ t) ∷ u ∷ ts) h e = λ k. h.0.1.0 cc

-- The parent folder path does not begin with a slash, even where the path does.
pub get_parent_folder_path-head :
    (p : Str) {c : _} {s : Str} → get_parent_folder_path p ≡ c ∷ s → c ≢ b'/'
unfolding get_parent_folder_path
get_parent_folder_path-head p e = join_but_last-head _ (split_filepath-All p) e

pub get_parent_folder_path_of_none :
    (p : Str) → split_filepath p ≡ [] → get_parent_folder_path p ≡ []
unfolding get_parent_folder_path join_but_last
get_parent_folder_path_of_none p e = rw e refl

after_last_slash_of_name : (t whole : Str) → Lacks b'/' t → after_last_slash whole t ≡ whole
unfolding after_last_slash
after_last_slash_of_name [] whole h = refl
after_last_slash_of_name (x ∷ t) whole h =
    rw (==_ne x b'/' h.0) (after_last_slash_of_name t whole h.1)

after_last_slash-append :
    (p t whole : Str) → Lacks b'/' t → after_last_slash whole (p ++ (b'/' ∷ t)) ≡ t
unfolding after_last_slash
after_last_slash-append [] t whole h = ground (arith, after_last_slash_of_name t t h)
after_last_slash-append (x ∷ p) t whole h = after_last_slash-append p t _ h

-- The last name of a path is what stands behind its last slash.
pub get_relative_filename-append :
    (p t : Str) → Lacks b'/' t → get_relative_filename (p ++ (b'/' ∷ t)) ≡ t
unfolding get_relative_filename
get_relative_filename-append p t h = after_last_slash-append p t _ h
