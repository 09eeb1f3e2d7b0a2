-- ===== src/Mcp/CJson.antt =====
-- The vendored library cJSON, as far as wrapper/src calls it. It is not part of this development:
-- the functions that use it take these operations as an argument. `J` stands for `cJSON *` and `D`
-- for `double`.
use mcpbridge.Base.{Bytes, Bool, Option, ℕ}
use mcpbridge.Base.Int.{ℤ}

pub record CJson (J D : Type 0) : Type 0 where
  pub parse_with_length : Bytes → Option J
  pub is_object : J → Bool
  -- `cJSON_GetObjectItemCaseSensitive`
  pub get_object_item : J → Bytes → Option J
  -- `cJSON_IsString` with a `valuestring`, and that string
  pub string_value : J → Option Bytes
  -- `cJSON_IsNumber`, and `valuedouble`
  pub number_value : J → Option D
  pub create_object : J
  pub add_string_to_object : J → Bytes → Bytes → J
  pub add_number_to_object : J → Bytes → D → J
  pub add_item_to_object : J → Bytes → J → J
  pub get_array_size : J → ℕ
  pub print_unformatted : J → Option Bytes
  -- the casts between `double` and `int64_t`, and `==` on `double`
  pub int64_of_double : D → ℤ
  pub double_of_int64 : ℤ → D
  pub double_eq : D → D → Bool
