-- ===== src/Tests/ConfigTests.antt =====
-- A configuration that viper would read.
use go_chatgpt_tasks.Base.{◌≡◌, ◌↔◌, true, false, List, [], ◌∷◌, none, Text, codes}
use go_chatgpt_tasks.Base.Int.{pos}
use go_chatgpt_tasks.Task.Effect.{ok}
use go_chatgpt_tasks.Platform.Config.{AppSettings, Viper, settings, load}
use go_chatgpt_tasks.Platform.Config.Usable.{Usable, load-ok_iff}
use go_chatgpt_tasks.Mcp.Server.{local_db, local_quota}

abbrev local_settings : AppSettings
local_settings = record {
  app = record { env = codes "development"; name = codes "tasks"; shutdown_timeout = pos 0 };
  http = record { port = pos 8080 };
  db = local_db;
  redis = record { addr = codes "localhost:6379"; password = []; db = pos 0 };
  jwt = record { secret = codes "secret"; issuer = []; ttl = pos 0 };
  otel = record { enabled = false; endpoint = []; service_name = [] };
  logger = record { level = codes "info"; encoding = codes "json" };
  quota = local_quota;
  llm = record {
    timeout_seconds = pos 30;
    max_retries = pos 3;
    max_input_tokens = pos 4096;
    max_output_tokens = pos 1024;
    max_cost_cents = pos 100;
    output_schema = codes "{}";
  };
  task = record { worker_count = pos 3 };
}

-- An instance that keeps the keys that have a value.
abbrev keys_only : Viper (List Text) Text
keys_only = record {
  new = [];
  set_default = λ key value v. key ∷ v;
  automatic_env = λ v. v;
  bind_env = λ key env v. v;
  read_env_file = λ v. v;
  is_set = λ v key. false;
  get = λ v key. [];
  set = λ key value v. key ∷ v;
  unmarshal = λ v. ok local_settings;
}

load-ok_iff_example :
    (load keys_only (λ bs. bs) (λ bs. bs) (λ env. none) true ≡ ok local_settings) ↔ (
      (keys_only.unmarshal (settings keys_only (λ bs. bs) (λ bs. bs) (λ env. none))
        ≡ ok local_settings)
      × Usable true local_settings)
load-ok_iff_example = load-ok_iff keys_only (λ bs. bs) (λ bs. bs) (λ env. none) true local_settings
