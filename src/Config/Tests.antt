-- ===== src/Config/Tests.antt =====
-- Runs of wrapper/src/config.c on concrete input.
use mcpbridge.Base.{
  ◌≡◌, ◌≢◌, refl, ◌⊎◌, Bytes, codes, bytes_eq, true, false, Option, none, some, [], ◌∷◌,
  if◌then◌else◌,
}
use mcpbridge.Base.Int.{ℤ, pos}
use mcpbridge.CLib.{c_string, cut_at}
use mcpbridge.Http.Url.{split_host}
use mcpbridge.Config.{
  ConfigJson, Accounts, Config, backend_stdio, schema_ok, timeout_of, strings, more_args,
  with_command, home_of, expand_head, expand_tilde, basename_dup, is_loopback, host_of,
  validate_url, config_of, config_load,
}
use mcpbridge.Config.Loaded.{IsStdio, IsHttp, NotNegative, config_load-IsLoaded}

data Node : Type 0 where
  root missing : Node
  text : Bytes → Node
  number : ℤ → Node
  one_item : Bytes → Node

abbrev member : Bytes → Option Node
member key =
    if bytes_eq key (codes "schema")
    then some (number (pos 2))
    else if bytes_eq key (codes "name")
    then some (text (codes "demo"))
    else if bytes_eq key (codes "command")
    then some (text (codes "~/bin/demo"))
    else if bytes_eq key (codes "args")
    then some (one_item (codes "-v"))
    else if bytes_eq key (codes "tool_call_timeout_ms")
    then some missing
    else none

-- A parser that gives one document for every text.
abbrev one_document : ConfigJson Node
one_document = record {
  parse = λ _. some root;
  get_object_item = λ n key. elim n [ root ↦ member key | _ ↦ none ];
  int_value = λ n. elim n [ number z ↦ some z | _ ↦ none ];
  string_value = λ n. elim n [ text t ↦ some t | _ ↦ none ];
  is_null = λ n. elim n [ missing ↦ true | _ ↦ false ];
  array_items = λ n. elim n [ one_item t ↦ some (text t ∷ []) | _ ↦ none ];
}

abbrev accounts : Accounts
accounts = record { home = some (codes "/home/me"); own_dir = none; dir_of = λ _. none }

abbrev loaded : Config
loaded = record {
  backend = backend_stdio;
  name = codes "demo";
  command = some (codes "/home/me/bin/demo");
  args = codes "demo" ∷ codes "-v" ∷ [];
  url = none;
  tool_call_timeout_ms = pos 300000;
  source_path = codes "demo.json";
}

demo_loads : config_load one_document accounts (codes "demo.json") (some (codes "{}")) ≡ some loaded
unfolding config_load config_of bytes_eq schema_ok timeout_of strings more_args with_command home_of
    expand_head expand_tilde basename_dup c_string cut_at
demo_loads = refl

config_load-IsLoaded_example :
    (IsStdio loaded ⊎ IsHttp loaded)
    × (loaded.name ≢ [])
    × NotNegative loaded.tool_call_timeout_ms
    × (loaded.source_path ≡ codes "demo.json")
config_load-IsLoaded_example =
    config_load-IsLoaded one_document accounts (codes "demo.json") (some (codes "{}")) loaded
      demo_loads

-- The brackets that the HTTP transport refuses.
brackets_accepted : validate_url (codes "http://[::1]:80/mcp") ≡ true
unfolding validate_url host_of is_loopback bytes_eq cut_at split_host
brackets_accepted = refl
