-- ===== src/Stdio/Tests.antt =====
-- A run of the stdio transport of wrapper/src/transport_stdio.c on concrete input.
use mcpbridge.Base.{◌≡◌, refl, Bytes, codes, false, some, List, [], ◌∷◌, ◌++◌, arith}
use mcpbridge.Mcp.Reader.{Reader, live_bytes, split_newline}
use mcpbridge.Mcp.Reader.Lines.{split_lines}
use mcpbridge.Mcp.Reader.Reserve.{IsValid}
use mcpbridge.Http.Sse.Handling.{deliver}
use mcpbridge.Stdio.{
  StdioSelf, child_bytes, progress, stdio_pump, stop_signals, wait_steps, still_running, reaped,
}
use mcpbridge.Stdio.Pump.{stdio_pump-lines}

abbrev half_a_line : Reader
half_a_line = record {
  stored = codes "ab";
  cap = 8;
  head = 0;
  max = 100;
  dropping = false;
  overflow_pending = false;
}

half_a_line-IsValid : IsValid half_a_line
half_a_line-IsValid = record {
  hard_fits = omega arith;
  cap_pos = omega arith;
  cap_le_hard = omega arith;
  len_le_cap = omega arith;
  head_le_len = omega arith;
}

abbrev child : StdioSelf
child = record {
  cmd = codes "cat";
  argv = codes "cat" ∷ [];
  pid = some 42;
  stdin_fd = some 5;
  stdout_fd = some 6;
  reader = some half_a_line;
}

abbrev collect : List Bytes → Bytes → List Bytes
collect c m = c ++ m ∷ []

stdio_pump-lines_example :
    (r' : Reader) × (stdio_pump collect child (child_bytes (codes "c\nd\ne")) [] ≡ (
      (record child { reader = some r' }, deliver collect [] (split_lines (codes "abc\nd\ne")).0),
      progress,
    ))
    × (live_bytes r' ≡ (split_lines (codes "abc\nd\ne")).1)
stdio_pump-lines_example =
    stdio_pump-lines collect child 6 half_a_line (codes "c\nd\ne") [] refl refl half_a_line-IsValid
      refl refl (omega arith)

two_lines : split_lines (codes "abc\nd\ne") ≡ (codes "abc" ∷ codes "d" ∷ [], codes "e")
unfolding split_lines split_newline
two_lines = refl

-- A child that ends with its input.
polite_stop : stop_signals (still_running ∷ reaped ∷ []) ≡ []
unfolding stop_signals wait_steps
polite_stop = refl
