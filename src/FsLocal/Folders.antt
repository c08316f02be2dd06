-- ===== src/FsLocal/Folders.antt =====
-- `fs::create_directories`: the folders on the way to a path, and what it leaves as it was.
use distributed_sns.Base.{
  ℕ, ◌+◌, ◌<◌, arith, ◌≡◌, refl, sym, ◌∙◌, ap, ◌≢◌, inl, inr, true, false, Option, none, some, List,
  [], ◌∷◌, ◌++◌, append-nil, append_assoc, Str, ◌==◌, ==_refl, ==_ne, eq_of_==, Bool-cases,
  Option-cases, length, length-append,
}
use distributed_sns.Base.Map.{find, set, find-set}
use distributed_sns.Base.Result.{ok}
use distributed_sns.FsLocal.Storage.{
  Names, Entry, Entries, directory, regular, is_folder, is_regular, make_folders, names_eq,
  names_order,
}

-- No name of `rest` is a file, along the way from `done`.
abbrev pub IsClear : Entries → Names → Names → Type 0
IsClear es done [] = Unit
IsClear es done (t ∷ rest) =
    (is_regular (find (done ++ (t ∷ [])) es) ≡ false) × IsClear es (done ++ (t ∷ [])) rest

-- The file at a path, by what it holds.
abbrev pub file_of : Option Entry → Option Str
file_of (some (regular held)) = some held
file_of _ = none

-- The files stay, with no new ones, and so does what stands at paths of more than `n` names.
pub record Kept (n : ℕ) (before after : Entries) : Type 0 where
  pub files : (q : Names) → file_of (find q after) ≡ file_of (find q before)
  pub longer : (q : Names) → n < length q → find q after ≡ find q before

pub Kept-self : (n : ℕ) (es : Entries) → Kept n es es
Kept-self n es = record { files = λ q. refl; longer = λ q l. refl }

is_folder_of : (es : Entries) (p : Names) → find p es ≡ some directory → is_folder es p ≡ true
unfolding is_folder
is_folder_of es p e = ground arith

pub find-set_self : (p : Names) (v : Entry) (es : Entries) → find p (set p v es) ≡ some v
find-set_self p v es = rw (find-set p p v es, ==_refl p)

pub find-set_ne : (q p : Names) (v : Entry) (es : Entries) → q ≢ p → find q (set p v es) ≡ find q es
find-set_ne q p v es n = rw (find-set q p v es, ==_ne q p n)

IsClear-set :
    (es : Entries) (p done rest : Names)
    → IsClear es done rest
    → IsClear (set p directory es) done rest
unfolding is_regular
IsClear-set es p done [] h = tt
IsClear-set es p done (t ∷ rest) h = (
  elim (Bool-cases ((done ++ (t ∷ [])) == p)) [
    | inl hit ↦ rw (find-set (done ++ (t ∷ [])) p directory es, hit) refl
    | inr miss ↦ rw (find-set (done ++ (t ∷ [])) p directory es, miss) h.0
  ],
  IsClear-set es p (done ++ (t ∷ [])) rest h.1,
)

-- One name further is one name longer.
length-step : (done : Names) (t : List ℕ) → length (done ++ (t ∷ [])) ≡ length done + 1
length-step done t = length-append done (t ∷ [])

files_set :
    (p : Names) (es : Entries)
    → find p es ≡ none
    → (q : Names) → file_of (find q (set p directory es)) ≡ file_of (find q es)
files_set p es e q = ap file_of (find-set q p directory es) ∙ elim (Bool-cases (q == p)) [
  | inl hit ↦ rw (hit, eq_of_== q p hit, e) refl
  | inr miss ↦ rw miss refl
]

Kept-set :
    (n : ℕ) (p : Names) (es after : Entries)
    → find p es ≡ none
    → length p < n + 1
    → Kept n (set p directory es) after
    → Kept n es after
Kept-set n p es after e l k = record {
  files = λ q. k.files q ∙ files_set p es e q;
  longer =
      λ q m. k.longer q m ∙ find-set_ne q p directory es (λ i. absurd (omega (arith, ap length i)));
}

-- Where no file is in the way, the folders are made.
pub make_folders-Kept :
    (es : Entries) (done rest : Names)
    → is_folder es done ≡ true
    → IsClear es done rest
    → (after : Entries) × (make_folders es done rest ≡ ok after)
      × (is_folder after (done ++ rest) ≡ true)
      × Kept (length (done ++ rest)) es after
unfolding make_folders is_regular
make_folders-Kept es done [] f h = (es, refl, rw (append-nil done) f, Kept-self _ es)
make_folders-Kept es done (t ∷ rest) f h =
    let here = done ++ (t ∷ []) in
    let same = append_assoc done (t ∷ []) rest in
    elim (Option-cases (find here es)) [
      | inl e ↦
          let (after, g, i, k) =
            make_folders-Kept (set here directory es) here rest
              (is_folder_of _ here (find-set_self here directory es))
              (IsClear-set es here here rest h.1) in
          (
            after,
            rw (e, make_folders) g,
            rw (sym same) i,
            Kept-set _ here es after e
                (omega (arith, length-append done (t ∷ []), length-append done (t ∷ rest)))
                (rw (sym same) k),
          )
      | inr (directory, e) ↦
          let (after, g, i, k) = make_folders-Kept es here rest (is_folder_of es here e) h.1 in
          (after, rw (e, make_folders) g, rw (sym same) i, rw (sym same) k)
      | inr (regular c, e) ↦ absurd (ground (arith, h.0))
    ]
