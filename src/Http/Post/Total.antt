-- ===== src/Http/Post/Total.antt =====
-- A POST of wrapper/src/transport_http.c comes to an end.
use mcpbridge.Base.{Option}
use mcpbridge.Http.Input.{Input}
