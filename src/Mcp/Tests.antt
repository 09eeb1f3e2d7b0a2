-- ===== src/Mcp/Tests.antt =====
-- Runs of the scanner and of the reader of wrapper/src/mcp.c on concrete lines.
use mcpbridge.Base.{◌<◌, none, ◌↔◌, codes, true, false, some, ◌≡◌, refl, bytes_eq, [], ◌∷◌, arith}
use mcpbridge.Base.Int.{negsuc}
use mcpbridge.CLib.{c_string}
use mcpbridge.Mcp.Message.{
  id_eq, IsSameId, id_eq_iff, int, string, request, bad_json, bad_id, classify_envelope,
}
use mcpbridge.Mcp.Scan.{ScanCur, scan_string, scan_number, scan_literal, scan_key_is}
use mcpbridge.Mcp.Values.Progress.{left, scan_any-moves}
use mcpbridge.Mcp.Values.Fuel.{scan_any-fuel}
use mcpbridge.Mcp.Values.{scan_value, member_key, open_container, separator, scan_any}
use mcpbridge.Mcp.Envelope.Int64.{value_from, scan_parse_int64_lem}
use mcpbridge.Mcp.Envelope.{scan_parse_int64, no_fields, scanned, fallback, refused, scan_envelope}
use mcpbridge.Mcp.Reader.{
  Reader, reader_init, live_bytes, reader_feed, reader_reserve, pump_chunks, end_drop,
  split_newline,
}
use mcpbridge.Mcp.Reader.Reserve.{IsValid, Reserved, reserve_fits, reserve_refused}
use mcpbridge.Mcp.Reader.Overflow.{feed, pop, calls, reader_bounded}
use mcpbridge.Mcp.Reader.Lines.{split_lines}
use mcpbridge.Mcp.Reader.Framing.{pump_chunks-split_lines}
use mcpbridge.Mcp.Reader.Lost.{line_behind_backlog_lost}

scan_request :
    scan_envelope
      (codes "{\"jsonrpc\":\"2.0\",\"id\":-7,\"method\":\"tools/list\",\"params\":{\"a\":[1,{}]}}")
    ≡ scanned (record {
      kind = request;
      id = int (negsuc 6);
      method = some (codes "tools/list");
      raw =
          codes
            "{\"jsonrpc\":\"2.0\",\"id\":-7,\"method\":\"tools/list\",\"params\":{\"a\":[1,{}]}}";
      is_error = false;
    })
unfolding scan_envelope no_fields scan_any scan_string scan_number scan_literal scan_key_is bytes_eq
    c_string open_container separator classify_envelope
scan_request = refl

scan_escaped_id : scan_envelope (codes "{\"id\":\"a\\n\",\"result\":null}") ≡ fallback
unfolding scan_envelope no_fields scan_any scan_string scan_number scan_literal scan_key_is bytes_eq
    c_string open_container separator classify_envelope
scan_escaped_id = refl

scan_null_id : scan_envelope (codes " {\"id\":null,\"result\":null}") ≡ refused bad_id
unfolding scan_envelope no_fields scan_any scan_string scan_number scan_literal scan_key_is bytes_eq
    c_string open_container separator classify_envelope
scan_null_id = refl

scan_truncated : scan_envelope (codes "{\"id\":1,\"result\":[1,2}") ≡ refused bad_json
unfolding scan_envelope no_fields scan_any scan_string scan_number scan_literal scan_key_is bytes_eq
    c_string open_container separator classify_envelope
scan_truncated = refl

id_eq_iff_example :
    (id_eq (string (b'a' ∷ 0 ∷ b'b' ∷ [])) (string (b'a' ∷ 0 ∷ b'c' ∷ [])) ≡ true)
    ↔ IsSameId (string (b'a' ∷ 0 ∷ b'b' ∷ [])) (string (b'a' ∷ 0 ∷ b'c' ∷ []))
id_eq_iff_example = id_eq_iff (string (b'a' ∷ 0 ∷ b'b' ∷ [])) (string (b'a' ∷ 0 ∷ b'c' ∷ []))

-- What stands behind the NUL does not count.
id_eq_nul : id_eq (string (b'a' ∷ 0 ∷ b'b' ∷ [])) (string (b'a' ∷ 0 ∷ b'c' ∷ [])) ≡ true
unfolding id_eq c_string bytes_eq
id_eq_nul = refl

-- A value with a comma behind it.
abbrev nested : ScanCur
nested = record { rest = codes "[1,{}],"; depth = 0 }

scan_any-fuel_example : scan_value 30 nested ≡ scan_any nested
scan_any-fuel_example = scan_any-fuel 30 nested (omega arith)

scan_any-moves_example : left (record { rest = codes ","; depth = 0 }) < left nested
unfolding scan_any scan_string scan_number open_container separator member_key
scan_any-moves_example = scan_any-moves nested (record { rest = codes ","; depth = 0 }) refl

scan_parse_int64_lem_example :
    (scan_parse_int64 (codes "9223372036854775808") ≡ none)
    × (scan_parse_int64 (codes "-9223372036854775808") ≡ some (negsuc 9223372036854775807))
unfolding value_from
scan_parse_int64_lem_example = scan_parse_int64_lem b'9' (codes "223372036854775808") refl

-- A reader for lines of eight bytes.
abbrev small : Reader
small = reader_init 8

small-IsValid : IsValid small
small-IsValid = reader_bounded 8 [] (omega arith)

reader_bounded_example :
    IsValid (calls small (feed (codes "abc\nde") ∷ pop ∷ feed (codes "fgh\n") ∷ []))
reader_bounded_example =
    reader_bounded 8 (feed (codes "abc\nde") ∷ pop ∷ feed (codes "fgh\n") ∷ []) (omega arith)

pump_chunks-split_lines_example :
    ((pump_chunks small (codes "ab\nc" ∷ codes "d\ne" ∷ [])).0 ≡ codes "ab" ∷ codes "cd" ∷ [])
    × (live_bytes (pump_chunks small (codes "ab\nc" ∷ codes "d\ne" ∷ [])).1 ≡ codes "e")
unfolding reader_init split_newline split_lines
pump_chunks-split_lines_example =
    pump_chunks-split_lines small (codes "ab\nc" ∷ codes "d\ne" ∷ []) small-IsValid refl refl
      (omega arith, (omega arith, tt))

reserve_refused_example : reader_reserve small 10 ≡ (false, small)
unfolding reader_init
reserve_refused_example = reserve_refused small 10 small-IsValid (omega arith)

reserve_fits_example : (r : Reader) × (reader_reserve small 9 ≡ (true, r)) × Reserved small 9 r
unfolding reader_init
reserve_fits_example = reserve_fits small 9 small-IsValid (omega arith)

-- A reader that holds the line "abcdef".
abbrev waiting : Reader
waiting = record {
  stored = codes "abcdef\n";
  cap = 9;
  head = 0;
  max = 8;
  dropping = false;
  overflow_pending = false;
}

line_behind_backlog_lost_example : reader_feed waiting (codes "gh\n") ≡ end_drop waiting
unfolding split_newline
line_behind_backlog_lost_example =
    line_behind_backlog_lost waiting (codes "abcdef") (codes "gh")
      (record {
        head_le_len = omega arith;
        len_le_cap = omega arith;
        cap_le_hard = omega arith;
        cap_pos = omega arith;
        hard_fits = omega arith;
      })
      refl refl refl (omega arith)
