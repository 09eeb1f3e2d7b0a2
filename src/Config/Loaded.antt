-- ===== src/Config/Loaded.antt =====
-- What wrapper/src/config.c accepts.
use mathlib.Core.Path.{subst}
use mathlib.Core.Option.{some-injective, none-ne-some}
use mcpbridge.Base.{
  ℕ, ◌≡◌, ◌≢◌, refl, sym, ◌∙◌, ◌⊎◌, inl, inr, Bytes, codes, bytes_eq, true, Option, none, some,
  List, [], ◌∷◌, drop, arith, Option-cases, Bool-cases,
}
use mcpbridge.Base.Int.{ℤ, pos, negsuc}
use mcpbridge.CLib.{c_string}
use mcpbridge.Http.Url.{HttpUrl, is_local_host, split_host, http_url_parse}
use mcpbridge.Config.{
  ConfigJson, Accounts, backend_none, backend_stdio, backend_http, Config, is_loopback, host_of,
  validate_url, basename_dup, expand_tilde, filled, not_below_zero, text_at, timeout_of, more_args,
  with_command, with_url, config_of, config_load,
}

-- A command with its name as the first argument, and no URL.
pub record IsStdio (c : Config) : Type 0 where
  pub kind : c.backend ≡ backend_stdio
  pub command_path : Bytes
  pub has_command : c.command ≡ some command_path
  pub more : List Bytes
  pub named_first : c.args ≡ basename_dup command_path ∷ more
  pub no_url : c.url ≡ none

-- A valid URL and no command.
pub record IsHttp (c : Config) : Type 0 where
  pub kind : c.backend ≡ backend_http
  pub target : Bytes
  pub has_url : c.url ≡ some target
  pub is_valid : validate_url target ≡ true
  pub no_command : c.command ≡ none

abbrev pub NotNegative : ℤ → Type 0
NotNegative z = (n : ℕ) × (z ≡ pos n)

filled_lem : (o : Option Bytes) (text : Bytes) → filled o ≡ some text → text ≢ []
filled_lem none text h q = none-ne-some text h
filled_lem (some []) text h q = none-ne-some text h
filled_lem (some (ch ∷ r)) text h q = ground (arith, some-injective _ _ h, q)

not_below_zero-NotNegative : (n z : ℤ) → not_below_zero n ≡ some z → NotNegative z
not_below_zero-NotNegative (pos n) z h = (n, sym (some-injective _ _ h))
not_below_zero-NotNegative (negsuc n) z h = absurd (none-ne-some z h)

module _ {J : Type 0} (j : ConfigJson J) where
  text_at_filled : (root : J) (key text : Bytes) → text_at j root key ≡ some text → text ≢ []
  text_at_filled root key text h = elim (Option-cases (j.get_object_item root key)) [
    | inl gone ↦ absurd (ground (arith, gone, h))
    | inr (item, e) ↦ filled_lem (j.string_value item) text (ground (arith, e, h))
  ]

  timeout_of-NotNegative : (root : J) (z : ℤ) → timeout_of j root ≡ some z → NotNegative z
  unfolding timeout_of
  timeout_of-NotNegative root z h =
      elim (Option-cases (j.get_object_item root (codes "tool_call_timeout_ms"))) [
        | inl gone ↦ (300000, ground (arith, gone, h))
        | inr (item, e) ↦ elim (Bool-cases (j.is_null item)) [
          | inl null ↦ (300000, ground (arith, e, null, h))
          | inr there ↦ elim (Option-cases (j.int_value item)) [
            | inl gone ↦ absurd (ground (arith, e, there, gone, h))
            | inr (n, g) ↦ not_below_zero-NotNegative n z (ground (arith, e, there, g, h))
          ]
        ]
      ]

  with_command-IsStdio :
      (a : Accounts) (c : Config) (root : J) (cmd : Bytes) (c' : Config)
      → c.url ≡ none
      → with_command j a c root cmd ≡ some c'
      → IsStdio c'
        × (c'.name ≡ c.name)
        × (c'.tool_call_timeout_ms ≡ c.tool_call_timeout_ms)
        × (c'.source_path ≡ c.source_path)
  unfolding with_command
  with_command-IsStdio a c root cmd c' blank h = elim (Option-cases (expand_tilde a cmd)) [
    | inl gone ↦ absurd (ground (arith, gone, h))
    | inr (command, e) ↦ elim (Option-cases (more_args j root)) [
      | inl gone ↦ absurd (ground (arith, gone, e, h))
      | inr (more, g) ↦
          let made = record c {
            backend = backend_stdio;
            command = some command;
            args = basename_dup command ∷ more;
          } in
          let whole : made ≡ c' = ground (arith, e, g, h) in
          subst
            (λ d.
              IsStdio d
              × (d.name ≡ c.name)
              × (d.tool_call_timeout_ms ≡ c.tool_call_timeout_ms)
              × (d.source_path ≡ c.source_path))
            whole
            (
              record {
                kind = refl;
                command_path = command;
                has_command = refl;
                more = more;
                named_first = refl;
                no_url = blank;
              },
              refl,
              refl,
              refl,
            )
    ]
  ]

  with_url-IsHttp :
      (c : Config) (url : Bytes) (c' : Config)
      → c.command ≡ none
      → with_url j c url ≡ some c'
      → IsHttp c'
        × (c'.name ≡ c.name)
        × (c'.tool_call_timeout_ms ≡ c.tool_call_timeout_ms)
        × (c'.source_path ≡ c.source_path)
  unfolding with_url
  with_url-IsHttp c url c' blank h = elim (Bool-cases (validate_url url)) [
    | inr bad ↦ absurd (ground (arith, bad, h))
    | inl good ↦
        let made = record c { backend = backend_http; url = some url } in
        let whole : made ≡ c' = ground (arith, good, h) in
        subst
          (λ d.
            IsHttp d
            × (d.name ≡ c.name)
            × (d.tool_call_timeout_ms ≡ c.tool_call_timeout_ms)
            × (d.source_path ≡ c.source_path))
          whole
          (
            record {
              kind = refl;
              target = url;
              has_url = refl;
              is_valid = good;
              no_command = blank;
            },
            refl,
            refl,
            refl,
          )
  ]

  -- What a loaded configuration is.
  abbrev pub IsLoaded : Config → Bytes → Type 0
  IsLoaded c path =
      (IsStdio c ⊎ IsHttp c)
      × (c.name ≢ [])
      × NotNegative c.tool_call_timeout_ms
      × (c.source_path ≡ path)

  config_of-IsLoaded :
      (a : Accounts) (path : Bytes) (root : J) (c : Config)
      → config_of j a path root ≡ some c
      → IsLoaded c path
  unfolding config_of
  config_of-IsLoaded a path root c h = elim (Option-cases (text_at j root (codes "name"))) [
    | inl gone ↦ absurd (ground (arith, gone, h))
    | inr (name, e) ↦ elim (Option-cases (timeout_of j root)) [
      | inl gone ↦ absurd (ground (arith, gone, e, h))
      | inr (timeout, g) ↦
          let start : Config = record {
            backend = backend_none;
            name = name;
            command = none;
            args = [];
            url = none;
            tool_call_timeout_ms = timeout;
            source_path = path;
          } in
          let named = text_at_filled root (codes "name") name e in
          let good = timeout_of-NotNegative root timeout g in
          elim (Option-cases (text_at j root (codes "command"))) [
            | inl no_cmd ↦ elim (Option-cases (text_at j root (codes "url"))) [
              | inl no_url ↦ absurd (ground (arith, e, g, no_cmd, no_url, h))
              | inr (url, u) ↦
                  let (v, n, t, p) =
                    with_url-IsHttp start url c refl (ground (arith, e, g, no_cmd, u, h)) in
                  (inr v, λ q. named (sym n ∙ q), subst NotNegative (sym t) good, p)
            ]
            | inr (cmd, k) ↦ elim (Option-cases (text_at j root (codes "url"))) [
              | inr (url, u) ↦ absurd (ground (arith, e, g, k, u, h))
              | inl no_url ↦
                  let (v, n, t, p) =
                    with_command-IsStdio a start root cmd c refl
                      (ground (arith, e, g, k, no_url, h)) in
                  (inl v, λ q. named (sym n ∙ q), subst NotNegative (sym t) good, p)
            ]
          ]
    ]
  ]

  -- Whatever file is loaded, a configuration that comes of it is complete and for one backend: it
  -- has a command with its last name as the first argument and no URL, or a valid URL and no
  -- command; its name is not empty, and its timeout is not negative.
  pub config_load-IsLoaded :
      (a : Accounts) (path : Bytes) (body : Option Bytes) (c : Config)
      → config_load j a path body ≡ some c
      → (IsStdio c ⊎ IsHttp c)
        × (c.name ≢ [])
        × NotNegative c.tool_call_timeout_ms
        × (c.source_path ≡ path)
  unfolding config_load
  config_load-IsLoaded a path none c h = absurd (none-ne-some c h)
  config_load-IsLoaded a path (some body) c h = elim (Option-cases (j.parse (c_string body))) [
    | inl gone ↦ absurd (ground (arith, gone, h))
    | inr (root, e) ↦ config_of-IsLoaded a path root c (ground (arith, e, h))
  ]

host_of_plain :
    (s : Bytes) → is_local_host (split_host s).0 ≡ true → host_of s ≡ some (split_host s).0
unfolding host_of split_host is_local_host bytes_eq
host_of_plain [] here = refl
host_of_plain (ch ∷ r) here = ground (arith, here)

-- Every URL that the HTTP transport can use passes the configuration's test.
pub validate_url-http_url_parse :
    (url : Bytes) (u : HttpUrl) → http_url_parse (some url) ≡ some u → validate_url url ≡ true
unfolding validate_url http_url_parse is_local_host is_loopback
validate_url-http_url_parse url u h =
    let here : is_local_host (split_host (drop 7 url)).0 ≡ true = ground (arith, h) in
    let plain = host_of_plain (drop 7 url) here in ground (arith, plain, here, h)
