-- ===== src/Tests/Commands.antt =====
-- A daemon whose node leads two members.
use rale.Base.{◌≡◌, refl, [], ◌∷◌, none, arith, pos}
use rale.Text.{Bytes, codes, str_eq, strlcpy, strchr, starts_with}
use rale.Hash.{done}
use rale.RaledCommand.{
  Setting, rale_success, raled_process_command, json_text, text_line, text_command,
  process_list_command, list_nodes, list_entry, close_list, role_str,
}
use rale.RaledCommand.Tokens.{next_token, token_end, upper}
use rale.RaledCommand.Replies.{Answers, raled_process_command-Answers}
use rale.RaledCommand.Refused.{put_line-refused}
use rale.Text.Number.{decimal}
use rale.Tests.Stores.{env, leading, store-IsIsolated}

abbrev daemon : Setting
daemon = record { env = env; role = pos 2; errbuf = []; parse = λ s. none; response_size = 64 }

-- A list whose second entry does not fit is cut.
list_cut :
    raled_process_command daemon (codes "list") leading
    ≡ done (
      (leading, []),
      record {
        status = rale_success;
        response =
            codes "{\"nodes\":[{\"id\":0,\"name\":\"node0\",\"ip\":\"unknown\",\"rale_port\":0,\"";
      },
    )
unfolding raled_process_command json_text text_line text_command process_list_command list_nodes
    list_entry close_list role_str next_token token_end upper str_eq strlcpy
    rale.Text.Number.decimal rale.Text.Number.digits
list_cut = refl

raled_process_command-Answers_example :
    Answers 64 (raled_process_command daemon (codes "put a=1 2") leading)
raled_process_command-Answers_example =
    raled_process_command-Answers daemon (codes "put a=1 2") leading (omega arith)
      (store-IsIsolated _)

put_line-refused_example :
    raled_process_command daemon (codes "PUT a 12") leading
    ≡ done ((leading, []), record { status = rale_success; response = codes "OK: 12" })
unfolding strlcpy
put_line-refused_example =
    put_line-refused daemon 97 [] 49 (50 ∷ []) leading (omega arith) refl (omega arith)
      (omega arith) (refl, tt) refl (refl, tt) (refl, (refl, tt))
