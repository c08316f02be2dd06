-- ===== src/FsUtils/Tests.antt =====
-- Runs of the path functions.
use distributed_sns.Base.{◌≡◌, refl, [], ◌∷◌, false, codes, List, Str, All, arith, str_eq, nat_eq}
use distributed_sns.FsUtils.{
  split_string, split_filepath, get_parent_folder_path, get_relative_filename, is_name_valid,
}
use distributed_sns.FsUtils.Split.{fields, nonempty, split_string-fields}
use distributed_sns.FsUtils.Paths.{IsName}

split_filepath_test :
    split_filepath (codes "/cluster1//master/") ≡ codes "cluster1" ∷ codes "master" ∷ []
unfolding split_filepath str_eq nat_eq
split_filepath_test = refl

split_string_test :
    split_string (codes "T 1;;U a;;;W x;;") (codes ";;")
    ≡ codes "T 1" ∷ codes ";U a" ∷ codes ";W x" ∷ codes ";" ∷ []
unfolding split_string str_eq nat_eq
split_string_test = refl

parent_test : get_parent_folder_path (codes "/a/b//c") ≡ codes "a/b/"
unfolding get_parent_folder_path str_eq nat_eq
parent_test = refl

relative_test : get_relative_filename (codes "a/b/c.txt") ≡ codes "c.txt"
unfolding get_relative_filename str_eq nat_eq
relative_test = refl

valid_test : is_name_valid (codes "a/b") ≡ false
unfolding is_name_valid str_eq nat_eq
valid_test = refl

split_string-fields_example :
    split_string (codes "/a//b") (b'/' ∷ []) ≡ nonempty (fields b'/' (codes "/a//b"))
split_string-fields_example = split_string-fields b'/' (codes "/a//b")

abbrev two_names : List Str
two_names = codes "a" ∷ codes "b" ∷ []

two_names_ok : All IsName two_names
two_names_ok = (((λ e. cc), omega arith), (((λ e. cc), omega arith), tt))
