-- ===== src/Coordinator/Locks/Names.antt =====
-- The paths of the lock files of the coordinator, and the names that they split into: the master
-- file of a cluster stands at `cluster<id>/master`, a slave's at `cluster<id>/slave<id>`.
use distributed_sns.Base.{
  ◌≡◌, ◌≢◌, [], ◌∷◌, ◌++◌, append-nil, arith, Str, codes, str_eq, All, All-append,
}
use distributed_sns.Base.Int.{ℤ, int_eq}
use distributed_sns.Base.Decimal.{to_string, to_string-All, IsDecimal}
use distributed_sns.FsUtils.{split_filepath}
use distributed_sns.FsUtils.Paths.{IsName, Lacks, split_filepath-join}
use distributed_sns.Coordinator.State.{get_master_filepath, get_slave_filepath}

abbrev pub cluster_name : ℤ → Str
cluster_name id = codes "cluster" ++ to_string id

abbrev pub master_name : Str
master_name = codes "master"

abbrev pub slave_name : ℤ → Str
slave_name id = codes "slave" ++ to_string id

Lacks-of_decimal : (s : Str) → All IsDecimal s → Lacks b'/' s
Lacks-of_decimal [] h = tt
Lacks-of_decimal (c ∷ s) h = (h.0.2, Lacks-of_decimal s h.1)

to_string-Lacks : (id : ℤ) → Lacks b'/' (to_string id)
to_string-Lacks id = Lacks-of_decimal (to_string id) (to_string-All id)

cluster_name-IsName : (id : ℤ) → IsName (cluster_name id)
cluster_name-IsName id = (
  λ e. cc,
  All-append (λ b. b ≢ b'/') (codes "cluster") (to_string id) (omega arith) (to_string-Lacks id),
)

slave_name-IsName : (id : ℤ) → IsName (slave_name id)
slave_name-IsName id = (
  λ e. cc,
  All-append (λ b. b ≢ b'/') (codes "slave") (to_string id) (omega arith) (to_string-Lacks id),
)

master_name-IsName : IsName master_name
master_name-IsName = (λ e. cc, omega arith)

pub split-get_master_filepath :
    (id : ℤ) → split_filepath (get_master_filepath id) ≡ cluster_name id ∷ master_name ∷ []
unfolding get_master_filepath
split-get_master_filepath id =
    split_filepath-join (cluster_name id ∷ master_name ∷ [])
      (cluster_name-IsName id, (master_name-IsName, tt))

pub split-get_slave_filepath :
    (id server : ℤ)
    → split_filepath (get_slave_filepath id server) ≡ cluster_name id ∷ slave_name server ∷ []
unfolding get_slave_filepath
split-get_slave_filepath id server = rw (append-nil (to_string server)) at (
    split_filepath-join (cluster_name id ∷ slave_name server ∷ [])
      (cluster_name-IsName id, (slave_name-IsName server, tt)))

pub get_master_filepath-ne-nil : (id : ℤ) → get_master_filepath id ≢ []
unfolding get_master_filepath
get_master_filepath-ne-nil id e = cc

pub get_slave_filepath-ne-nil : (id server : ℤ) → get_slave_filepath id server ≢ []
unfolding get_slave_filepath
get_slave_filepath-ne-nil id server e = cc
