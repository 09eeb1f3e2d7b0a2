-- ===== src/Mcp/Message.antt =====
-- Ids and parsed messages of wrapper/src/mcp.h, with their tests in wrapper/src/mcp.c.
use mcpbridge.CLib.{c_string, strcmp_eq}
use mcpbridge.Base.{
  ℕ, zero, suc, [], ◌∷◌, ◌≢◌, refl, ap, sym, ◌∙◌, bytes_eq_self, Bytes, bytes_eq_iff, Bool, true,
  false, not, ◌&&◌, ◌||◌, Option, none, some, ◌≡◌, ◌↔◌, arith, if◌then◌else◌,
}
use mcpbridge.Base.Int.{ℤ, int_eq, int_eq_iff}

-- `struct mcp_id`: the tag with the member of the union that it selects.
pub data McpId : Type 0 where
  absent : McpId
  int : ℤ → McpId
  string : Bytes → McpId

unfoldable pub id_eq : McpId → McpId → Bool
id_eq absent absent = true
id_eq (int a) (int b) = int_eq a b
id_eq (string a) (string b) = strcmp_eq a b
id_eq _ _ = false

-- `id->tag != MCP_ID_NONE`
abbrev pub has_tag : McpId → Bool
has_tag absent = false
has_tag _ = true

pub data Kind : Type 0 where
  unknown request response notification : Kind

abbrev pub kind_is_request : Kind → Bool
kind_is_request request = true
kind_is_request _ = false

abbrev pub kind_is_response : Kind → Bool
kind_is_response response = true
kind_is_response _ = false

abbrev pub kind_is_notification : Kind → Bool
kind_is_notification notification = true
kind_is_notification _ = false

pub record Msg : Type 0 where
  pub kind : Kind
  pub id : McpId
  pub method : Option Bytes
  pub raw : Bytes
  pub is_error : Bool

-- `MCP_PARSE_ERR_*`
pub data ParseError : Type 0 where
  bad_json not_object bad_id bad_method incoherent : ParseError

abbrev method_is : Option Bytes → Bytes → Bool
method_is none name = false
method_is (some m) name = strcmp_eq m name

unfoldable pub msg_is_request : Msg → Bytes → Bool
msg_is_request m name = kind_is_request m.kind && method_is m.method name

unfoldable pub msg_is_notification : Msg → Bytes → Bool
msg_is_notification m name = kind_is_notification m.kind && method_is m.method name

-- The kind of an envelope, and whether it is an error response.
unfoldable pub classify_envelope : Bool → Bool → Bool → Bool → Option (Kind × Bool)
classify_envelope has_id has_method has_result has_error =
    if has_method && has_id
    then some (request, false)
    else if has_method && not has_id
    then some (notification, false)
    else if not has_method && has_id && (has_result || has_error)
    then some (response, has_error)
    else none

-- The text that a pointer to some bytes is read as, up to a NUL or to the end that the list stands for.
pub data IsText : Bytes → Bytes → Type 0 where
  text_end : IsText [] []
  text_nul : {r : Bytes} → IsText (0 ∷ r) []
  text_byte : {ch : ℕ} {r t : Bytes} → ch ≢ 0 → IsText r t → IsText (ch ∷ r) (ch ∷ t)

-- One tag, and one number or one text.
unfoldable pub IsSameId : McpId → McpId → Type 0
IsSameId absent absent = Unit {0}
IsSameId (int a) (int b) = a ≡ b
IsSameId (string a) (string b) = (t : Bytes) × IsText a t × IsText b t
IsSameId _ _ = ⊥

c_string-byte : (ch : ℕ) (r : Bytes) → ch ≢ 0 → c_string (ch ∷ r) ≡ ch ∷ c_string r
unfolding c_string
c_string-byte ch r n = ground (arith, n)

c_string-IsText : (a : Bytes) → IsText a (c_string a)
unfolding c_string
c_string-IsText [] = text_end
c_string-IsText (zero ∷ r) = text_nul
c_string-IsText (suc n ∷ r) =
    let nonzero : suc n ≢ 0 = λ e. omega (arith, e) in
    rw (c_string-byte (suc n) r nonzero) (text_byte nonzero (c_string-IsText r))

text-c_string : {a t : Bytes} → IsText a t → c_string a ≡ t
unfolding c_string
text-c_string text_end = refl
text-c_string text_nul = refl
text-c_string (text_byte {ch} {r} n x) = c_string-byte ch r n ∙ ap (λ u. ch ∷ u) (text-c_string x)

same-IsText : (a b : Bytes) → (strcmp_eq a b ≡ true) ↔ ((t : Bytes) × IsText a t × IsText b t)
same-IsText a b = (
  λ e.
      let equal = (bytes_eq_iff (c_string a) (c_string b)).0 e in
      (c_string b, rw (← equal) (c_string-IsText a), c_string-IsText b),
  λ (t, x, y). (bytes_eq_iff (c_string a) (c_string b)).1 (text-c_string x ∙ sym (text-c_string y)),
)

-- `mcp_id_eq` holds exactly of two ids with one tag and one number or one text, where the text of a
-- string ends at its first NUL.
pub id_eq_iff : (a b : McpId) → (id_eq a b ≡ true) ↔ IsSameId a b
unfolding id_eq IsSameId
id_eq_iff (int a) (int b) = int_eq_iff a b
id_eq_iff (string a) (string b) = same-IsText a b
id_eq_iff _ _ = ground arith

pub id_eq_self : (a : McpId) → id_eq a a ≡ true
unfolding id_eq
id_eq_self absent = refl
id_eq_self (int a) = (int_eq_iff a a).1 refl
id_eq_self (string a) = bytes_eq_self (c_string a)
