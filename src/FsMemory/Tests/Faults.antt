-- ===== src/FsMemory/Tests/Faults.antt =====
-- Runs that are stopped by a fault, and printing.
use distributed_sns.FsMemory.Print.{
  to_string, local_last_prefix, newlines, nodes, HasPlainNames, to_string-nodes, save_to_disk,
  made_directory, wrote_file,
}
use distributed_sns.Base.{
  ◌≡◌, refl, Bool, true, false, none, some, [], ◌∷◌, ◌++◌, codes, Str, nat_eq, str_eq,
}
use distributed_sns.Base.Result.{ok, err, blocked, null_deref}
use distributed_sns.FsUtils.{split_filepath}
use distributed_sns.FsTree.{get_child}
use distributed_sns.FsMemory.{FsMemory, operate, get_tree_node, create_body, Body}
use distributed_sns.FsMemory.View.{view}
use distributed_sns.FsMemory.Faults.{operate_empty_path, get_tree_node_through_file}
use distributed_sns.FsMemory.Success.{Ends, create-Ends}
use distributed_sns.FsMemory.Operate.{seen}
use distributed_sns.FsMemory.{init, create}
use distributed_sns.Base.{List, ◌≢◌}
use distributed_sns.FsMemory.Tests.States.{with_file}

operate_empty_path_example :
    (m' : FsMemory) × (operate (with_file []) [] false (create_body false) ≡ ok (m', false))
    × ((file : Str) (dirs' : Bool) (body' : Body) → operate m' file dirs' body' ≡ err blocked)
operate_empty_path_example = operate_empty_path (with_file []) false (create_body false) refl refl

slashes : split_filepath (codes "//") ≡ []
unfolding split_filepath nat_eq str_eq
slashes = refl

file_is_seen : view ((with_file []).filetree) (codes "a" ∷ codes "f" ∷ []) ≡ some (false, [])
unfolding view get_child str_eq
file_is_seen = refl

below_file : view ((with_file []).filetree) (codes "a" ∷ codes "f" ∷ codes "g" ∷ []) ≡ none
unfolding view get_child str_eq
below_file = refl

get_tree_node_through_file_example :
    get_tree_node
      ((with_file []).filetree)
      (codes "a" ∷ codes "f" ∷ codes "g" ∷ codes "h" ∷ [])
      true
    ≡ err null_deref
get_tree_node_through_file_example =
    get_tree_node_through_file ((with_file []).filetree) (codes "a" ∷ codes "f" ∷ []) (codes "g")
      (codes "h") [] file_is_seen below_file

path_of_file : split_filepath (codes "/a/f") ≡ (codes "a" ∷ []) ++ (codes "f" ∷ [])
unfolding split_filepath nat_eq str_eq
path_of_file = refl

only_root : (q : List Str) (d : Str) → seen (init true) q ≢ some (false, d)
unfolding view get_child
only_root [] d e = cc
only_root (u ∷ q) d e = cc

nothing_there : seen (init true) (codes "a" ∷ codes "f" ∷ []) ≡ none
unfolding view get_child
nothing_there = refl

create-Ends_example : Ends (create (init true) (codes "/a/f") false true) true
create-Ends_example =
    create-Ends (init true) (codes "/a/f") (codes "a" ∷ []) (codes "f") refl (λ e. cc) path_of_file
      false (λ q d _. only_root q d) nothing_there

printed :
    to_string (with_file (codes "x"))
    ≡ codes "> root"
      ++ (10
          ∷ (local_last_prefix
              ++ (codes "> a"
                  ++ (10 ∷ (codes "    " ++ (local_last_prefix ++ (codes "# f" ++ (10 ∷ []))))))))
unfolding to_string
printed = refl

plain_names : HasPlainNames (with_file (codes "x")).filetree
unfolding HasPlainNames str_eq nat_eq
plain_names = (refl, ((refl, ((refl, tt), tt)), tt))

to_string-nodes_example :
    newlines (to_string (with_file (codes "x"))) ≡ nodes (with_file (codes "x")).filetree
to_string-nodes_example = to_string-nodes (with_file (codes "x")) plain_names

saved :
    save_to_disk (λ _. true) true (with_file (codes "x")) (codes "d")
    ≡ ok (
        some (
          made_directory (codes "d/root")
          ∷ made_directory (codes "d/root/a")
          ∷ wrote_file (codes "d/root/a/f") (codes "x")
          ∷ []))
unfolding save_to_disk
saved = refl
