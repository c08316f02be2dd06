-- ===== src/Coordinator/Servers.antt =====
-- The searches of the coordinator through its clusters.
use distributed_sns.Base.{
  ℕ, zero, suc, ◌+◌, ◌%◌, not, ◌&&◌, Option, none, some, List, [], ◌∷◌, ◌==◌, nat_eq, if◌then◌else◌,
  length, get_elem?,
}
use distributed_sns.Base.Int.{ℤ, pos, negsuc, int_eq, rem_ℤ, minus_one}
use distributed_sns.Base.Result.{Result, ok, err, out_of_range, ◌>>=◌}
use distributed_sns.Coordinator.State.{
  ServerInfo, ZNode, is_active, to_server_info, Cluster, ServerRef, Coordinator, id_to_index,
}

-- The first server of the cluster that is a master, with its key.
unfoldable pub first_master : Cluster → Option (ℤ × ZNode)
first_master [] = none
first_master ((id, z) ∷ m) = let rest = first_master m in if z.master then some (id, z) else rest

-- `clusters[i]`, for an `int`.
unfoldable pub cluster_at : List Cluster → ℤ → Result Cluster
cluster_at cs (negsuc _) = err out_of_range
cluster_at cs (pos i) = elim (get_elem? cs i) [ some m ↦ ok m | none ↦ err out_of_range ]

key_of : Option (ℤ × ZNode) → ℤ
key_of none = minus_one
key_of (some (id, _)) = id

unfoldable pub get_cluster_master_key : Coordinator → ℤ → Result ℤ
unfolding cluster_at first_master key_of
get_cluster_master_key c cluster_idx = do
  cluster ← cluster_at c.clusters cluster_idx
  ok (key_of (first_master cluster))

-- Self and inactive servers are left out.
counterparts : ℤ → Cluster → List ServerInfo
counterparts self [] = []
counterparts self ((key, z) ∷ m) =
    let rest = counterparts self m in
    if not (self == key) && is_active z then to_server_info z ∷ rest else rest

-- The cluster id is not checked: out of range, the vector is read past its ends.
unfoldable pub get_counterparts : Coordinator → ServerInfo → Result (List ServerInfo)
unfolding cluster_at counterparts
get_counterparts c master_info = do
  cluster ← cluster_at c.clusters (id_to_index master_info.clusterid)
  ok (counterparts master_info.serverid cluster)

-- The masters of the clusters from index `i` on, but of the one at `skip`.
masters_from : ℤ → ℕ → List Cluster → List ZNode
masters_from skip i [] = []
masters_from skip i (m ∷ cs) =
    let rest = masters_from skip (suc i) cs in
    if pos i == skip then rest else elim (first_master m) [ none ↦ rest | some (_, z) ↦ z ∷ rest ]

infos : List ZNode → List ServerInfo
infos [] = []
infos (z ∷ zs) = to_server_info z ∷ infos zs

unfoldable pub get_other_cluster_masters : Coordinator → ServerInfo → List ServerInfo
unfolding masters_from first_master infos
get_other_cluster_masters c master_info =
    infos (masters_from (id_to_index master_info.clusterid) 0 c.clusters)

-- The search stops at the first cluster that has a master.
first_available : ℕ → ℕ → List Cluster → Option ZNode
first_available skip i [] = none
first_available skip i (m ∷ cs) =
    let rest = first_available skip (suc i) cs in
    if i == skip then rest else elim (first_master m) [ none ↦ rest | some (_, z) ↦ some z ]

unfoldable pub get_first_available_cluster_master : List Cluster → ℕ → Option ZNode
unfolding first_available first_master
get_first_available_cluster_master cs cluster_idx = first_available cluster_idx 0 cs

-- The `while` loop of `getActiveMaster`: so many clusters, from this index on, round the vector.
unfoldable pub active_master_loop : ℕ → List Cluster → ℤ → Result (Option (ServerRef × ZNode))
active_master_loop zero cs cluster_idx = ok none
active_master_loop (suc remaining) cs (negsuc _) = err out_of_range
active_master_loop (suc remaining) cs (pos i) =
    let rest = active_master_loop remaining cs (pos ((i + 1) % length cs)) in
    elim (get_elem? cs i) [
      | none ↦ err out_of_range
      | some m ↦ elim (first_master m) [ none ↦ rest | some (id, z) ↦ ok (some ((i, id), z)) ]
    ]

-- The remainder by no cluster at all is a division by zero.
unfoldable pub get_active_master : List Cluster → ℤ → Result (Option (ServerRef × ZNode))
unfolding active_master_loop first_master
get_active_master cs client_id =
    if length cs == 0
    then err out_of_range
    else active_master_loop (length cs) cs (rem_ℤ client_id (length cs))
