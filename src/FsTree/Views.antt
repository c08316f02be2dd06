-- ===== src/FsTree/Views.antt =====
-- What each operation on a node does to the children that can be found.
use distributed_sns.Base.{◌≡◌, refl, none, some, arith, Str, ◌==◌, str_eq, if◌then◌else◌}
use distributed_sns.FsTree.{Node, Children, nil, cons, find_child, set_child, erase_child}

pub find_child-set_child :
    (j k : Str) (n : Node) (c : Children)
    → find_child j (set_child k n c) ≡ (if j == k then some n else find_child j c)
unfolding find_child set_child
find_child-set_child j k n nil = refl
find_child-set_child j k n (cons i m c) = ground (arith, find_child-set_child j k n c)

pub find_child-erase_child :
    (j k : Str) (c : Children)
    → find_child j (erase_child k c) ≡ (if j == k then none else find_child j c)
unfolding find_child erase_child
find_child-erase_child j k nil = ground arith
find_child-erase_child j k (cons i m c) = ground (arith, find_child-erase_child j k c)
