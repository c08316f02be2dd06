-- ===== src/Coordinator/Elections.antt =====
-- The leader election of `Heartbeat`: where the lock is taken, and where it is free.
use distributed_sns.Base.{◌≡◌, refl, ◌∙◌, true, false, Option, [], ◌∷◌, ==_refl, if◌then◌else◌}
use distributed_sns.Base.Int.{ℤ, int_eq, int_order}
use distributed_sns.Base.Result.{ok}
use distributed_sns.FsMemory
use distributed_sns.FsMemory.{FsMemory}
use distributed_sns.FsMemory.Queries.{read-seen, read_info}
use distributed_sns.FsMemory.Operate.{seen}
use distributed_sns.Coordinator.State.{
  ServerInfo, ZNode, get_address, get_master_filepath, get_slave_filepath,
}
use distributed_sns.Coordinator.Heartbeat.{Election, elect, address_of, or_empty}
use distributed_sns.Coordinator.Locks.{
  IsLockTable, held, Sets, KeepsFiles, cluster_name, master_name, split-get_master_filepath,
  exists_master, create_master, write_slave, write_master,
}

read_master :
    (fs : FsMemory) (id : ℤ)
    → FsMemory.read fs (get_master_filepath id) 0
      ≡ ok (read_info (seen fs (cluster_name id ∷ master_name ∷ [])) 0)
read_master fs id = read-seen fs (get_master_filepath id) 0 ∙ rw (split-get_master_filepath id) refl

-- Where the master file stands, the server becomes a slave, and no lock changes hands.
pub record Joins (fs : FsMemory) (s : ServerInfo) (e : Election) : Type 0 where
  pub path : e.raw_path ≡ get_slave_filepath s.clusterid s.serverid
  pub slave : e.master ≡ false
  pub sync :
      e.sync_address
      ≡ or_empty (read_info (seen fs (cluster_name s.clusterid ∷ master_name ∷ [])) 0)
  pub locks : KeepsFiles fs e.filesys

-- Where the locks are in order and the master file of the cluster stands, the election returns
-- and the server is no master: it gets the path of its slave file, and as address to synchronise
-- with what the master file holds; every master file keeps its contents.
pub elect_taken :
    (fs : FsMemory) (s : ServerInfo) (server : ZNode) (other : Option ZNode)
    → IsLockTable fs
    → held fs s.clusterid ≡ true
    → (e : Election) × (elect fs s server other ≡ ok e) × Joins fs s e
unfolding elect
elect_taken fs s server other l taken =
    let (fs', b, e, keeps) = write_slave fs s.clusterid s.serverid (get_address server) l in
    (
      record {
        filesys = fs';
        raw_path = get_slave_filepath s.clusterid s.serverid;
        master = false;
        sync_address =
            or_empty (read_info (seen fs (cluster_name s.clusterid ∷ master_name ∷ [])) 0);
      },
      rw (exists_master fs s.clusterid)
          (rw taken (rw e (rw (read_master fs' s.clusterid, keeps.1 s.clusterid) refl))),
      record { path = refl; slave = refl; sync = refl; locks = keeps },
    )

-- Where it does not stand, the server creates it and becomes the master.
pub record Wins (fs : FsMemory) (s : ServerInfo) (other : Option ZNode) (e : Election)
    : Type 0 where
  pub path : e.raw_path ≡ get_master_filepath s.clusterid
  pub master : e.master ≡ true
  pub sync : e.sync_address ≡ (if s.registered then [] else address_of other)
  pub locks : Sets fs s.clusterid true e.filesys

-- Where the locks are in order and the master file of the cluster does not stand, the election
-- returns and the server is the master: it gets the path of the master file, which now stands,
-- while those of the other clusters stand or not as before; the address to synchronise with is
-- that of the other master that was found, if the server is not registered yet.
pub elect_free :
    (fs : FsMemory) (s : ServerInfo) (server : ZNode) (other : Option ZNode)
    → IsLockTable fs
    → held fs s.clusterid ≡ false
    → (e : Election) × (elect fs s server other ≡ ok e) × Wins fs s other e
unfolding elect
elect_free fs s server other l free =
    let (fs₁, created, sets) = create_master fs s.clusterid l free in
    let (fs₂, b, written, keeps) =
      write_master fs₁ s.clusterid (get_address server) sets.0
        (sets.1 s.clusterid ∙ rw (==_refl s.clusterid)) in
    (
      record {
        filesys = fs₂;
        raw_path = get_master_filepath s.clusterid;
        master = true;
        sync_address = if s.registered then [] else address_of other;
      },
      rw (exists_master fs s.clusterid) (rw free (rw created (rw written refl))),
      record {
        path = refl;
        master = refl;
        sync = refl;
        locks = (keeps.0, λ j. keeps.1 j ∙ sets.1 j);
      },
    )
