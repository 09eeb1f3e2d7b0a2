-- ===== src/Mcp/Values/Fuel.antt =====
-- The fuel of the scanners of values of wrapper/src/mcp.c is enough.
use mcpbridge.Base.{ℕ, zero, suc, ◌+◌, ◌*◌, ◌≤◌, ◌<◌, ◌≡◌, refl, ap, ◌∙◌, Option, none, some, arith}
use mcpbridge.Mcp.Scan.{ScanCur, scan_ws}
use mcpbridge.Mcp.Scan.Progress.{length-scan_ws}
use mcpbridge.Mcp.Values.{
  Lead, null_lead, false_lead, true_lead, string_lead, number_lead, array_lead, object_lead,
  no_lead, lead, Opening, refused, empty, inside, open_container, Separator, comma, closed, neither,
  separator, member_key, scan_value, scan_array, scan_elements, scan_object, scan_members,
  value_fuel, scan_any,
}
use mcpbridge.Mcp.Values.Progress.{
  left, end_of, behind, value_by, body_by, next_by, behind_by, member_by, open-shrinks,
  separator-shrinks, member_key-shrinks, all_move,
}

body-agrees :
    (m n : ScanCur → Option ScanCur) (o : Opening)
    → ((d : ScanCur) → end_of o ≡ some d → m d ≡ n d)
    → body_by m o ≡ body_by n o
body-agrees m n refused k = refl
body-agrees m n (empty d) k = refl
body-agrees m n (inside d) k = k d refl

next-agrees :
    (m n : ScanCur → Option ScanCur) (s : Separator)
    → ((d : ScanCur) → behind s ≡ some d → m d ≡ n d)
    → next_by m s ≡ next_by n s
next-agrees m n (comma d) k = k d refl
next-agrees m n (closed d) k = refl
next-agrees m n neither k = refl

-- Two ways to go on agree behind a value that leaves less than a bound, if they agree below it.
behind-agrees :
    (closer bound : ℕ) (m n : ScanCur → Option ScanCur) (o : Option ScanCur)
    → ((d : ScanCur) → o ≡ some d → left d < bound)
    → ((d : ScanCur) → left d + 1 < bound → m d ≡ n d)
    → behind_by closer m o ≡ behind_by closer n o
behind-agrees closer bound m n none k same = refl
behind-agrees closer bound m n (some e) k same =
    next-agrees m n (separator closer (scan_ws e)) (λ d h.
      same d (omega (arith, separator-shrinks closer (scan_ws e) d h, length-scan_ws e, k e refl)))

member-agrees :
    (bound : ℕ) (v w m n : ScanCur → Option ScanCur) (o : Option ScanCur)
    → ((d : ScanCur) → o ≡ some d → left d < bound)
    → ((d : ScanCur) → left d < bound → v d ≡ w d)
    → ((d e : ScanCur) → w d ≡ some e → left e < left d)
    → ((d : ScanCur) → left d + 1 < bound → m d ≡ n d)
    → member_by v m o ≡ member_by w n o
member-agrees bound v w m n none k vs moves same = refl
member-agrees bound v w m n (some at) k vs moves same =
    ap (behind_by b'}' m) (vs at (k at refl))
    ∙ behind-agrees b'}' bound m n (w at) (λ d e. omega (arith, moves at d e, k at refl)) same

-- The five scanners agree on two amounts of fuel that are enough.
record AllAgree (f g : ℕ) : Type 0 where
  value_agrees :
      (c : ScanCur) → 3 * left c + 3 ≤ f → 3 * left c + 3 ≤ g → scan_value f c ≡ scan_value g c
  array_agrees :
      (c : ScanCur) → 3 * left c + 2 ≤ f → 3 * left c + 2 ≤ g → scan_array f c ≡ scan_array g c
  elements_agrees :
      (c : ScanCur)
      → 3 * left c + 4 ≤ f
      → 3 * left c + 4 ≤ g
      → scan_elements f c ≡ scan_elements g c
  object_agrees :
      (c : ScanCur) → 3 * left c + 2 ≤ f → 3 * left c + 2 ≤ g → scan_object f c ≡ scan_object g c
  members_agrees :
      (c : ScanCur) → 3 * left c + 4 ≤ f → 3 * left c + 4 ≤ g → scan_members f c ≡ scan_members g c

value-agrees :
    (f g : ℕ) (l : Lead) (c : ScanCur)
    → AllAgree f g
    → 3 * left c + 2 ≤ f
    → 3 * left c + 2 ≤ g
    → value_by f c l ≡ value_by g c l
value-agrees f g null_lead c a hf hg = refl
value-agrees f g false_lead c a hf hg = refl
value-agrees f g true_lead c a hf hg = refl
value-agrees f g string_lead c a hf hg = refl
value-agrees f g number_lead c a hf hg = refl
value-agrees f g array_lead c a hf hg = a.array_agrees c hf hg
value-agrees f g object_lead c a hf hg = a.object_agrees c hf hg
value-agrees f g no_lead c a hf hg = refl

all_agree : (f g : ℕ) → AllAgree f g
unfolding scan_value
all_agree zero g = record {
  value_agrees = λ c hf hg. absurd (omega (arith, hf));
  array_agrees = λ c hf hg. absurd (omega (arith, hf));
  elements_agrees = λ c hf hg. absurd (omega (arith, hf));
  object_agrees = λ c hf hg. absurd (omega (arith, hf));
  members_agrees = λ c hf hg. absurd (omega (arith, hf));
}
all_agree (suc f) zero = record {
  value_agrees = λ c hf hg. absurd (omega (arith, hg));
  array_agrees = λ c hf hg. absurd (omega (arith, hg));
  elements_agrees = λ c hf hg. absurd (omega (arith, hg));
  object_agrees = λ c hf hg. absurd (omega (arith, hg));
  members_agrees = λ c hf hg. absurd (omega (arith, hg));
}
all_agree (suc f) (suc g) =
    let a = all_agree f g in
    let moves = all_move g in
    record {
      value_agrees =
          λ c hf hg. value-agrees f g (lead c.rest) c a (omega (arith, hf)) (omega (arith, hg));
      array_agrees = λ c hf hg.
          body-agrees (scan_elements f) (scan_elements g) (open_container b'[' b']' c) (λ d e.
            let less = open-shrinks b'[' b']' c d e in
            a.elements_agrees d (omega (arith, hf, less)) (omega (arith, hg, less)));
      elements_agrees = λ c hf hg.
          ap (behind_by b']' (scan_elements f)) (
            a.value_agrees (scan_ws c) (omega (arith, hf, length-scan_ws c))
              (omega (arith, hg, length-scan_ws c)))
          ∙ behind-agrees b']' (left c) (scan_elements f) (scan_elements g)
              (scan_value g (scan_ws c))
              (λ d e. omega (arith, moves.value_moves (scan_ws c) d e, length-scan_ws c))
              (λ d less. a.elements_agrees d (omega (arith, hf, less)) (omega (arith, hg, less)));
      object_agrees = λ c hf hg.
          body-agrees (scan_members f) (scan_members g) (open_container b'{' b'}' c) (λ d e.
            let less = open-shrinks b'{' b'}' c d e in
            a.members_agrees d (omega (arith, hf, less)) (omega (arith, hg, less)));
      members_agrees = λ c hf hg.
          member-agrees (left c) (scan_value f) (scan_value g) (scan_members f) (scan_members g)
            (member_key c) (member_key-shrinks c)
            (λ d less. a.value_agrees d (omega (arith, hf, less)) (omega (arith, hg, less)))
            moves.value_moves
            (λ d less. a.members_agrees d (omega (arith, hf, less)) (omega (arith, hg, less)));
    }

-- No scan of a value fails for want of fuel: any fuel from `value_fuel` on gives what `scan_any`
-- gives.
pub scan_any-fuel : (f : ℕ) (c : ScanCur) → value_fuel c ≤ f → scan_value f c ≡ scan_any c
unfolding scan_any
scan_any-fuel f c h = (all_agree f (value_fuel c)).value_agrees c h (omega arith)
