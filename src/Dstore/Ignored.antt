-- ===== src/Dstore/Ignored.antt =====
-- The two commands of dstore.c that nodes send to each other without effect.
use rale.Base.{◌≡◌, [], ◌++◌, ℤ, arith}
use rale.Text.{Bytes, codes, starts_with}
use rale.Text.Number.{is_digit}
use rale.Hash.{done}
use rale.Dstore.{Dstore, Env}
use rale.Dstore.Spread.{remove_message}
use rale.Dstore.Commands.{plain_command, dstore_put_from_command, dstore_handle_propagated_remove}

forward_put-ignored :
    (env : Env) (text : Bytes) (d : Dstore)
    → dstore_put_from_command env (codes "FORWARD_PUT " ++ text) d ≡ done (d, [])
unfolding dstore_put_from_command plain_command starts_with
forward_put-ignored env text d = ground arith

propagated_remove-ignored :
    (env : Env) (id : ℤ) (d : Dstore)
    → dstore_put_from_command env (remove_message id) d ≡ done (d, [])
unfolding dstore_put_from_command plain_command starts_with dstore_handle_propagated_remove is_digit
propagated_remove-ignored env id d = ground arith

-- Whatever follows "FORWARD_PUT ", at the leader or elsewhere, the command changes nothing and sends
-- nothing: once its pair is checked, it is refused because it does not start with "PUT ". And whatever
-- the id, the command by which a node announces that a node is removed changes nothing at the node that
-- gets it, and sends nothing: the id is read at the space before it.
pub peer_commands-ignored :
    (env : Env) (text : Bytes) (id : ℤ) (d : Dstore)
    → (dstore_put_from_command env (codes "FORWARD_PUT " ++ text) d ≡ done (d, []))
      × (dstore_put_from_command env (remove_message id) d ≡ done (d, []))
peer_commands-ignored env text id d =
    (forward_put-ignored env text d, propagated_remove-ignored env id d)
