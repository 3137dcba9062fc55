-- ===== src/Cluster/File/Synced.antt =====
-- The cluster and its state file over the three operations that save it.
use rale.Base.{ℕ, ◌≡◌, ◌≢◌, refl, sym, ◌∙◌, ap, true, Option, some, arith, ℤ}
use rale.Text.{Bytes}
use rale.Cluster.{
  Cluster, Status, success, failure, cluster_add_node, cluster_remove_node, cluster_set_self_id,
}
use rale.Cluster.Members.{IsValid, cluster_add_node-Adds}
use rale.Cluster.Removal.{cluster_remove_node-Removes}
use rale.Cluster.File.{
  Stored, cluster_text, cluster_save_state, saved_after, cluster_add_node_stored,
  cluster_remove_node_stored, cluster_set_self_id_stored,
}

-- A path is set, and the file holds the cluster.
pub record IsSynced (s : Stored) : Type 0 where
  pub configured : s.path_set ≡ true
  pub holds : s.file ≡ some (cluster_text s.cluster)

saved_after-IsSynced :
    (s : Stored) (r : Cluster × Status)
    → IsSynced s
    → (r.1 ≢ success → r.0 ≡ s.cluster)
    → IsSynced (saved_after true s r).0
unfolding cluster_save_state
saved_after-IsSynced s (c, success) h same =
    rw h.configured (record { configured = refl; holds = refl })
saved_after-IsSynced s (c, failure e) h same = record {
  configured = h.configured;
  holds = h.holds ∙ ap (λ (x : Cluster). some (cluster_text x)) (sym (same (λ e2. cc)));
}

set_self_id-unchanged :
    (c : Cluster) (id : ℤ)
    → (cluster_set_self_id c id).1 ≢ success
    → (cluster_set_self_id c id).0 ≡ c
unfolding cluster_set_self_id
set_self_id-unchanged c id h = ground arith

-- As long as the state file can be written, it holds the text of the cluster after a call of
-- cluster_add_node, cluster_remove_node or cluster_set_self_id, refused calls included, if it did so
-- before the call and the cluster was valid. (cluster_finit and the functions of node.c change the
-- cluster without saving it.)
pub operations-IsSynced :
    (now : ℕ) (s : Stored) (id : ℤ) (name ip : Option Bytes) (rale_port dstore_port : ℕ)
    → IsValid s.cluster
    → IsSynced s
    → IsSynced (cluster_add_node_stored true now s id name ip rale_port dstore_port).0
      × IsSynced (cluster_remove_node_stored true s id).0
      × IsSynced (cluster_set_self_id_stored true s id).0
unfolding cluster_add_node_stored cluster_remove_node_stored cluster_set_self_id_stored
operations-IsSynced now s id name ip rale_port dstore_port valid h =
    let adds = cluster_add_node-Adds now s.cluster id name ip rale_port dstore_port valid in
    let removes = cluster_remove_node-Removes s.cluster id valid in
    (
      saved_after-IsSynced s (cluster_add_node now s.cluster id name ip rale_port dstore_port) h
          (λ e. adds.unchanged (λ x. e (adds.answers ∙ x))),
      saved_after-IsSynced s (cluster_remove_node s.cluster id) h
          (λ e. removes.unchanged (λ x. e (removes.answers ∙ x))),
      saved_after-IsSynced s (cluster_set_self_id s.cluster id) h
          (set_self_id-unchanged s.cluster id),
    )
