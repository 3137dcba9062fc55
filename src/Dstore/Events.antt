-- ===== src/Dstore/Events.antt =====
-- The commands, the callbacks and the ticks of dstore.c, and what each sends.
use rale.Base.{refl, Option, none, some, ℤ}
use rale.Text.{Bytes}
use rale.Db.{DbResult, db_success}
use rale.Db.Sound.{db_insert-IsSound}
use rale.Dstore.{Env, Action, skip, ◌>>◌, write_leader, dstore_save_to_rale_db}
use rale.Dstore.Peers.{dstore_replicate_to_followers}
use rale.Dstore.Commands.{
  is_success, insert_then, store_pair, dstore_handle_put, forward_to_leader, put_pair, put_split,
  store_leader, leader_elected, leader_snapshot, dstore_handle_propagated_add,
  dstore_handle_propagated_remove, plain_command, dstore_put_from_command,
}
use rale.Dstore.Silence.{
  IsSilent, Keeps-done, Keeps-if, IsSilent-skip, IsSilent-if, update-IsIsolated,
}
use rale.Dstore.Handlers.{silence, IsSilent-replicate, IsSilent-broadcast}

insert_then-Keeps :
    (env : Env) (k v : Bytes) (next : DbResult → Action)
    → ((r : DbResult) → IsSilent (next r))
    → IsSilent (insert_then env k v next)
insert_then-Keeps env k v next silent d h =
    let (b, run, sound) = db_insert-IsSound env.memory d.db k v h.table in
    rw run (
      silent db_success (record d { db = b }) (record { no_clients = h.no_clients; table = sound }))

IsSilent-save : (env : Env) (k v : Bytes) → IsSilent (dstore_save_to_rale_db env k v)
unfolding dstore_save_to_rale_db
IsSilent-save env k v d h = Keeps-done (update-IsIsolated d _ (λ i. refl) refl h)

IsSilent-write_leader : (env : Env) (term leader : ℤ) → IsSilent (write_leader env term leader)
unfolding write_leader
IsSilent-write_leader env term leader d h = Keeps-done (update-IsIsolated d _ (λ i. refl) refl h)

IsSilent-store_pair : (env : Env) (k v : Bytes) → IsSilent (store_pair env k v)
unfolding store_pair
IsSilent-store_pair env k v = insert_then-Keeps env k v _ λ r.
    IsSilent-if (is_success r)
      (dstore_save_to_rale_db env k v >> dstore_replicate_to_followers env k v) skip
      (search (silence, IsSilent-save, IsSilent-replicate)) IsSilent-skip

pub IsSilent-handle_put : (env : Env) (k v : Option Bytes) → IsSilent (dstore_handle_put env k v)
unfolding dstore_handle_put
IsSilent-handle_put env (some k) (some v) = IsSilent-store_pair env k v
IsSilent-handle_put env (some k) none = IsSilent-skip
IsSilent-handle_put env none v = IsSilent-skip

pub IsSilent-forward : (env : Env) (m : Bytes) → IsSilent (forward_to_leader env m)
unfolding forward_to_leader
IsSilent-forward env m d h = search silence

IsSilent-put_pair : (env : Env) (k v : Bytes) → IsSilent (put_pair env k v)
unfolding put_pair
IsSilent-put_pair env k v d h = search (silence, IsSilent-store_pair, IsSilent-forward)

IsSilent-put_split : (env : Env) (o : Option (Bytes × Bytes)) → IsSilent (put_split env o)
unfolding put_split
IsSilent-put_split env none = IsSilent-skip
IsSilent-put_split env (some (k, v)) = IsSilent-if _ _ _ IsSilent-skip (IsSilent-put_pair env k v)

IsSilent-store_leader : (env : Env) (term leader : ℤ) → IsSilent (store_leader env term leader)
unfolding store_leader
IsSilent-store_leader env term leader =
    search (silence, insert_then-Keeps, IsSilent-write_leader, IsSilent-broadcast)

IsSilent-leader_elected : (env : Env) (params : Bytes) → IsSilent (leader_elected env params)
unfolding leader_elected
IsSilent-leader_elected env params = IsSilent-if _ _ _ (IsSilent-store_leader env _ _) IsSilent-skip

IsSilent-leader_snapshot : (env : Env) (params : Bytes) → IsSilent (leader_snapshot env params)
unfolding leader_snapshot
IsSilent-leader_snapshot env params =
    IsSilent-if _ _ _ (IsSilent-write_leader env _ _) IsSilent-skip

IsSilent-propagated_add :
    (env : Env) (command : Bytes) → IsSilent (dstore_handle_propagated_add env command)
unfolding dstore_handle_propagated_add
IsSilent-propagated_add env command d h =
    Keeps-if _ _ _ (Keeps-done (update-IsIsolated d _ (λ i. refl) refl h)) (IsSilent-skip d h)

IsSilent-propagated_remove :
    (env : Env) (command : Bytes) → IsSilent (dstore_handle_propagated_remove env command)
unfolding dstore_handle_propagated_remove
IsSilent-propagated_remove env command d h =
    Keeps-if _ _ _ (Keeps-done (update-IsIsolated d _ (λ i. refl) refl h)) (IsSilent-skip d h)

IsSilent-plain_command : (env : Env) (command : Bytes) → IsSilent (plain_command env command)
unfolding plain_command
IsSilent-plain_command env command = search (
  IsSilent-if, IsSilent-skip, IsSilent-propagated_add, IsSilent-propagated_remove,
  IsSilent-put_split,
)

pub IsSilent-command :
    (env : Env) (command : Bytes) → IsSilent (dstore_put_from_command env command)
unfolding dstore_put_from_command
IsSilent-command env command d h =
    search (silence, IsSilent-leader_elected, IsSilent-leader_snapshot, IsSilent-plain_command)
