-- ===== src/Contracts/GateId.antt =====
-- The identifiers that `bind_human_gate` of src/development_conveyor/contracts.py gives to gates.
use Prim.Native.String.{◌++◌ as text_append}
use Prim.Native.Char.{code}
use text.Mathlib.TextLemmas.{nil-append, cons-append}
use development_conveyor.Base.{
  ◌++◌, ℕ, zero, suc, String, ◌≡◌, refl, ap, ◌∙◌, ◌≤◌, ◌∷◌, Bool, true, ◌&&◌, ◌||◌, &&-true, leb,
  all, length, codes, take_text, nat_eq, arith,
}
use development_conveyor.Contracts.{
  safe_identifier, is_alphanumeric, is_identifier_tail, safe_codes,
}

-- A hexadecimal digit, as `hexdigest` writes it.
abbrev pub is_hex : ℕ → Bool
is_hex c = (leb b'0' c && leb c b'9') || (leb b'a' c && leb c b'f')

is_hex-tail : (c : ℕ) → is_hex c ≡ true → is_identifier_tail c ≡ true
unfolding is_identifier_tail is_alphanumeric
is_hex-tail c h = ground arith

hex-take :
    (n : ℕ) (s : String)
    → all is_hex (codes s) ≡ true
    → (all is_identifier_tail (codes (take_text n s)) ≡ true) × (length (codes (take_text n s)) ≤ n)
hex-take zero s h = (refl, omega arith)
hex-take (suc n) String.[] h = (refl, omega arith)
hex-take (suc n) (String.◌∷◌ c s) h =
    let (first, later) = &&-true (is_hex (code c)) (all is_hex (codes s)) h in
    let (tails, short) = hex-take n s later in
    (rw (is_hex-tail (code c) first) tails, omega (arith, short))

codes-append : (s t : String) → codes (text_append s t) ≡ codes s ++ codes t
codes-append String.[] t = ap codes (nil-append t)
codes-append (String.◌∷◌ c s) t =
    ap codes (cons-append c s t) ∙ ap (◌∷◌ (code c)) (codes-append s t)

-- The first 32 digits of a digest make a safe identifier.
pub gate_id-safe :
    (s : String)
    → all is_hex (codes s) ≡ true
    → safe_identifier (text_append "gate-" (take_text 32 s)) ≡ true
unfolding safe_identifier safe_codes is_identifier_tail is_alphanumeric
gate_id-safe s h =
    let (tails, short) = hex-take 32 s h in
    rw (codes-append "gate-" (take_text 32 s)) (rw tails (ground (arith, short)))
