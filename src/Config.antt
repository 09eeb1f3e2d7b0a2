-- ===== src/Config.antt =====
-- wrapper/src/config.c: the configuration of one server. The file, the library cJSON and the accounts
-- of the system are arguments.
pub mod Loaded
mod Tests
use mcpbridge.Base.{
  ℕ, Bytes, codes, bytes_eq, Bool, true, false, not, ◌&&◌, ◌||◌, Option, none, some, List, [], ◌∷◌,
  ◌++◌, ◌==◌, if◌then◌else◌, length, drop,
}
use mcpbridge.Base.Int.{ℤ, pos, negsuc, int_eq}
use mcpbridge.CLib.{c_string, cut_at, starts_with}
use mcpbridge.Http.Url.{split_host}

-- The calls of cJSON. `J` stands for `cJSON *`.
pub record ConfigJson (J : Type 0) : Type 0 where
  pub parse : Bytes → Option J
  -- `cJSON_GetObjectItemCaseSensitive`
  pub get_object_item : J → Bytes → Option J
  -- `cJSON_IsNumber`, and `valueint`
  pub int_value : J → Option ℤ
  -- `cJSON_IsString`, and `valuestring`
  pub string_value : J → Option Bytes
  pub is_null : J → Bool
  -- `cJSON_IsArray`, and the items
  pub array_items : J → Option (List J)

-- What `getenv("HOME")`, `getpwuid(getuid())` and `getpwnam` give.
pub record Accounts : Type 0 where
  pub home : Option Bytes
  pub own_dir : Option Bytes
  pub dir_of : Bytes → Option Bytes

pub data ConfigBackend : Type 0 where
  backend_none backend_stdio backend_http : ConfigBackend

-- `args_count` is the length of `args`.
pub record Config : Type 0 where
  pub backend : ConfigBackend
  pub name : Bytes
  pub command : Option Bytes
  pub args : List Bytes
  pub url : Option Bytes
  pub tool_call_timeout_ms : ℤ
  pub source_path : Bytes

abbrev pub filled : Option Bytes → Option Bytes
filled none = none
filled (some []) = none
filled (some (ch ∷ r)) = some (ch ∷ r)

-- The directory of the account that a head names, the '~' left out.
unfoldable pub home_of : Accounts → Bytes → Option Bytes
home_of a [] = elim (filled a.home) [ some dir ↦ some dir | none ↦ a.own_dir ]
home_of a (ch ∷ user) = a.dir_of (ch ∷ user)

-- Behind the '~'; `none` is NULL.
unfoldable pub expand_head : Accounts → Bytes → Option Bytes
unfolding home_of
expand_head a rest = elim (cut_at b'/' rest) [
  | none ↦ home_of a rest
  | some (user, path) ↦ elim (home_of a user) [ none ↦ none | some dir ↦ some (dir ++ b'/' ∷ path) ]
]

unfoldable pub expand_tilde : Accounts → Bytes → Option Bytes
unfolding expand_head
expand_tilde a [] = some []
expand_tilde a (ch ∷ rest) = if ch == b'~' then expand_head a rest else some (ch ∷ rest)

unfoldable pub is_loopback : Bytes → Bool
is_loopback host =
    bytes_eq host (codes "localhost")
    || bytes_eq host (codes "127.0.0.1")
    || bytes_eq host (codes "::1")

-- What may follow the ']'.
abbrev may_follow : Bytes → Bool
may_follow [] = true
may_follow (ch ∷ _) = ch == b':' || ch == b'/'

-- The host, `none` where the brackets are not right.
unfoldable pub host_of : Bytes → Option Bytes
unfolding split_host
host_of [] = some []
host_of (ch ∷ r) =
    let bracketed : Option Bytes = elim (cut_at b']' r) [
      | none ↦ none
      | some (host, after) ↦ if may_follow after then some host else none
    ] in
    if ch == b'[' then bracketed else some (split_host (ch ∷ r)).0

unfoldable pub validate_url : Bytes → Bool
unfolding host_of is_loopback
validate_url url =
    let valid : Bool = elim (host_of (drop 7 url)) [
      | none ↦ false
      | some host ↦ not (length host == 0) && is_loopback host
    ] in
    if starts_with (codes "http://") url then valid else false

-- The part behind the last '/'.
unfoldable pub basename_dup : Bytes → Bytes
basename_dup [] = []
basename_dup (ch ∷ r) = elim (cut_at b'/' (ch ∷ r)) [ none ↦ ch ∷ r | some _ ↦ basename_dup r ]

-- CONFIG_DEFAULT_TOOL_CALL_TIMEOUT_MS
abbrev pub default_timeout_ms : ℤ
default_timeout_ms = pos 300000

abbrev pub not_below_zero : ℤ → Option ℤ
not_below_zero (pos n) = some (pos n)
not_below_zero (negsuc _) = none

module _ {J : Type 0} (j : ConfigJson J) where
  -- A string that is not empty, under a key.
  abbrev pub text_at : J → Bytes → Option Bytes
  text_at root key = elim (j.get_object_item root key) [
    | none ↦ none
    | some item ↦ filled (j.string_value item)
  ]

  unfoldable pub schema_ok : J → Bool
  schema_ok root = elim (j.get_object_item root (codes "schema")) [
    | none ↦ false
    | some item ↦ elim (j.int_value item) [ none ↦ false | some n ↦ int_eq n (pos 2) ]
  ]

  unfoldable pub timeout_of : J → Option ℤ
  timeout_of root = elim (j.get_object_item root (codes "tool_call_timeout_ms")) [
    | none ↦ some default_timeout_ms
    | some item ↦
        if j.is_null item
        then some default_timeout_ms
        else elim (j.int_value item) [ none ↦ none | some n ↦ not_below_zero n ]
  ]

  unfoldable pub strings : List J → Option (List Bytes)
  strings [] = some []
  strings (item ∷ items) = elim (j.string_value item) [
    | none ↦ none
    | some text ↦ elim (strings items) [ none ↦ none | some texts ↦ some (text ∷ texts) ]
  ]

  -- The entries of "args".
  unfoldable pub more_args : J → Option (List Bytes)
  unfolding strings
  more_args root = elim (j.get_object_item root (codes "args")) [
    | none ↦ some []
    | some item ↦ elim (j.array_items item) [
      | some items ↦ strings items
      | none ↦ if j.is_null item then some [] else none
    ]
  ]

  unfoldable pub with_command : Accounts → Config → J → Bytes → Option Config
  unfolding more_args basename_dup expand_tilde
  with_command a c root cmd = elim (expand_tilde a cmd) [
    | none ↦ none
    | some command ↦ elim (more_args root) [
      | none ↦ none
      | some more ↦ some (record c {
        backend = backend_stdio;
        command = some command;
        args = basename_dup command ∷ more;
      })
    ]
  ]

  unfoldable pub with_url : Config → Bytes → Option Config
  unfolding validate_url
  with_url c url =
      if validate_url url then some (record c { backend = backend_http; url = some url }) else none

  -- Behind the timeout.
  abbrev pub with_backend : Accounts → Config → J → Option Bytes → Option Bytes → Option Config
  with_backend a c root (some _) (some _) = none
  with_backend a c root none none = none
  with_backend a c root (some cmd) none = with_command a c root cmd
  with_backend a c root none (some url) = with_url c url

  -- From the parsed text.
  unfoldable pub config_of : Accounts → Bytes → J → Option Config
  config_of a path root =
      let rest : Option Config = elim (text_at root (codes "name")) [
        | none ↦ none
        | some name ↦ elim (timeout_of root) [
          | none ↦ none
          | some timeout ↦
              with_backend a
                (record {
                  backend = backend_none;
                  name = name;
                  command = none;
                  args = [];
                  url = none;
                  tool_call_timeout_ms = timeout;
                  source_path = path;
                })
                root (text_at root (codes "command")) (text_at root (codes "url"))
        ]
      ] in
      if schema_ok root then rest else none

  -- `body` is what `slurp` gives. `none` is NULL.
  unfoldable pub config_load : Accounts → Bytes → Option Bytes → Option Config
  unfolding config_of
  config_load a path none = none
  config_load a path (some body) = elim (j.parse (c_string body)) [
    | none ↦ none
    | some root ↦ config_of a path root
  ]
