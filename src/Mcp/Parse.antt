-- ===== src/Mcp/Parse.antt =====
-- `extract_id`, `parse_via_cjson` and `mcp_msg_parse` of wrapper/src/mcp.c, over the operations of
-- cJSON. What the functions free on their way out has no counterpart.
use mcpbridge.Base.{Bytes, Bool, true, false, not, Option, none, some, [], ◌∷◌, if◌then◌else◌}
use mcpbridge.Mcp.CJson.{CJson}
use mcpbridge.Mcp.Envelope.{
  Step, go, fail, scanned, fallback, refused, scan_envelope, id_key, method_key, result_key,
  error_key,
}
use mcpbridge.Mcp.Message.{
  McpId, absent, int, string, has_tag, request, response, notification, Msg, ParseError, bad_json,
  not_object, bad_id, bad_method, incoherent,
}

-- `MCP_PARSE_OK` with the message in `*out`, or the error code.
pub data Parsed : Type 0 where
  parsed : Msg → Parsed
  parse_failed : ParseError → Parsed

abbrev is_some {ℓ} : {A : Type ℓ} → Option A → Bool
is_some none = false
is_some (some _) = true

-- The kind, or the incoherent remainder.
abbrev classify_parsed : Bytes → McpId → Option Bytes → Bool → Bool → Parsed
classify_parsed bytes id (some method) has_result has_error = parsed (record {
  kind = if has_tag id then request else notification;
  id = id;
  method = some method;
  raw = bytes;
  is_error = false;
})
classify_parsed bytes absent none has_result has_error = parse_failed incoherent
classify_parsed bytes id none false false = parse_failed incoherent
classify_parsed bytes id none has_result has_error =
    parsed (record { kind = response; id = id; method = none; raw = bytes; is_error = has_error })

module _ {J D : Type 0} (cj : CJson J D) where
  open cj use {
    parse_with_length, is_object, get_object_item, string_value, number_value, int64_of_double,
    double_of_int64, double_eq,
  }

  -- On the item under "id".
  abbrev id_of_item : J → Step McpId
  id_of_item item = elim (string_value item) [
    | some s ↦ go (string s)
    | none ↦ elim (number_value item) [
      | none ↦ fail bad_id
      | some d ↦
          let n = int64_of_double d in
          if not (double_eq d (double_of_int64 n)) then fail bad_id else go (int n)
    ]
  ]

  unfoldable pub extract_id : J → Step McpId
  extract_id obj = elim (get_object_item obj id_key) [
    | none ↦ go absent
    | some item ↦ id_of_item item
  ]

  -- The item under "method": absent, a string, or refused.
  abbrev extract_method : J → Step (Option Bytes)
  extract_method obj = elim (get_object_item obj method_key) [
    | none ↦ go none
    | some item ↦ elim (string_value item) [ none ↦ fail bad_method | some s ↦ go (some s) ]
  ]

  abbrev parse_object : Bytes → J → Parsed
  parse_object bytes root = elim (extract_id root) [
    | fail e ↦ parse_failed e
    | go id ↦ elim (extract_method root) [
      | fail e ↦ parse_failed e
      | go method ↦
          classify_parsed bytes id method (is_some (get_object_item root result_key))
            (is_some (get_object_item root error_key))
    ]
  ]

  unfoldable pub parse_via_cjson : Bytes → Parsed
  unfolding extract_id
  parse_via_cjson bytes = elim (parse_with_length bytes) [
    | none ↦ parse_failed bad_json
    | some root ↦ if not (is_object root) then parse_failed not_object else parse_object bytes root
  ]

  unfoldable pub msg_parse : Bytes → Parsed
  unfolding scan_envelope parse_via_cjson
  msg_parse [] = parse_failed bad_json
  msg_parse (b ∷ bs) = elim (scan_envelope (b ∷ bs)) [
    | scanned m ↦ parsed m
    | fallback ↦ parse_via_cjson (b ∷ bs)
    | refused e ↦ parse_failed e
  ]
