-- ===== src/Mcp/Build.antt =====
-- `mcp_build_list_changed` and `mcp_build_error_response` of wrapper/src/mcp.c.
use mcpbridge.Base.{Bytes, codes, bytes_eq, Option, none, some, [], ◌∷◌, ◌++◌, if◌then◌else◌}
use mcpbridge.Base.Int.{ℤ}
use mcpbridge.CLib.{c_string}
use mcpbridge.Mcp.CJson.{CJson}
use mcpbridge.Mcp.Message.{McpId, absent, int, string}

abbrev pub newline : Bytes
newline = b'\n' ∷ []

unfoldable pub build_list_changed : Bytes → Option Bytes
build_list_changed kind =
    if bytes_eq kind (codes "tools")
    then some (codes "{\"jsonrpc\":\"2.0\",\"method\":\"notifications/tools/list_changed\"}\n")
    else if bytes_eq kind (codes "prompts")
    then some (codes "{\"jsonrpc\":\"2.0\",\"method\":\"notifications/prompts/list_changed\"}\n")
    else if bytes_eq kind (codes "resources")
    then some (codes "{\"jsonrpc\":\"2.0\",\"method\":\"notifications/resources/list_changed\"}\n")
    else none

module _ {J D : Type 0} (cj : CJson J D) where
  open cj use {
    create_object, add_string_to_object, add_number_to_object, add_item_to_object,
    print_unformatted, double_of_int64,
  }

  -- The `id` member, through `(double)id->v.i` for a number; a string is read up to its NUL.
  abbrev add_id : J → McpId → Option J
  add_id root absent = none
  add_id root (int i) = some (add_number_to_object root (codes "id") (double_of_int64 i))
  add_id root (string s) = some (add_string_to_object root (codes "id") (c_string s))

  abbrev add_data : J → Option J → J
  add_data err none = err
  add_data err (some extra) = add_item_to_object err (codes "data") extra

  -- The envelope, before it is printed; `none` for an absent id.
  unfoldable pub error_envelope : McpId → ℤ → Bytes → Option J → Option J
  error_envelope id code message extra =
      let root = add_string_to_object create_object (codes "jsonrpc") (codes "2.0") in
      let coded = add_number_to_object create_object (codes "code") (double_of_int64 code) in
      let err = add_data (add_string_to_object coded (codes "message") message) extra in
      elim (add_id root id) [
        | none ↦ none
        | some identified ↦ some (add_item_to_object identified (codes "error") err)
      ]

  abbrev with_newline : Option Bytes → Option Bytes
  with_newline none = none
  with_newline (some json) = some (json ++ newline)

  unfoldable pub build_error_response : McpId → ℤ → Bytes → Option J → Option Bytes
  unfolding error_envelope
  build_error_response id code message extra = elim (error_envelope id code message extra) [
    | none ↦ none
    | some root ↦ with_newline (print_unformatted root)
  ]
