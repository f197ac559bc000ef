-- ===== src/PriceGraph/Route/Digits.antt =====
-- A fee that src/core/executable_price_graph.rs prints into a key is read back by
-- src/core/route_artifact.rs.
use Prim.Native.Char.{Char, code}
use Prim.Native.String.{String, ◌++◌ as ◌&◌}
use text.Mathlib.TextLemmas.{nil-append, cons-append, append-ne-nil_of_right_ne-nil}
use dex_arbitrage.Prelude.{
  ℕ, zero, suc, ◌+◌, ◌-◌, ◌*◌, ◌/◌, ◌%◌, ◌^◌, ◌<◌, ◌≡◌, ◌≢◌, refl, ap, ◌∙◌, inl, inr, Option, none,
  some, ok, false, ◌&&◌, ltb, leb, Bool-cases, arith, string_eq,
}
use dex_arbitrage.Prelude.Split.{Lacks}
use dex_arbitrage.RouteArtifact.Load.{parse_digits, parse_u32, parse_fee}
use dex_arbitrage.PriceGraph.Route.{digit, digits, u32_to_string, fee_string}

parse_digits-append :
    (acc : ℕ) (s t : String) {value : ℕ}
    → parse_digits acc s ≡ some value
    → parse_digits acc (s & t) ≡ parse_digits value t
unfolding parse_digits
parse_digits-append acc String.[] t h = rw nil-append (ground arith)
parse_digits-append acc (String.◌∷◌ c s) t {value} h =
    let next = acc * 10 + (code c - b'0') in
    elim (Bool-cases (leb b'0' (code c) && leb (code c) b'9' && ltb next (2 ^ 32))) [
      | inl read ↦
          let ih = parse_digits-append next s t {value = value} (ground arith) in
          rw cons-append (ground arith)
      | inr refused ↦ absurd (ground arith)
    ]

-- The character of a digit.
digit-code : (d : ℕ) → d < 10 → (c : Char) × (digit d ≡ String.◌∷◌ c "") × (code c ≡ b'0' + d)
unfolding digit
digit-code zero h = (_, refl, refl)
digit-code (suc zero) h = (_, refl, refl)
digit-code (suc (suc zero)) h = (_, refl, refl)
digit-code (suc (suc (suc zero))) h = (_, refl, refl)
digit-code (suc (suc (suc (suc zero)))) h = (_, refl, refl)
digit-code (suc (suc (suc (suc (suc zero))))) h = (_, refl, refl)
digit-code (suc (suc (suc (suc (suc (suc zero)))))) h = (_, refl, refl)
digit-code (suc (suc (suc (suc (suc (suc (suc zero))))))) h = (_, refl, refl)
digit-code (suc (suc (suc (suc (suc (suc (suc (suc zero)))))))) h = (_, refl, refl)
digit-code (suc (suc (suc (suc (suc (suc (suc (suc (suc zero))))))))) h = (_, refl, refl)
digit-code (suc (suc (suc (suc (suc (suc (suc (suc (suc (suc d)))))))))) h = absurd (omega arith)

parse_digits-digit :
    (acc d : ℕ) → d < 10 → acc * 10 + d < 2 ^ 32 → parse_digits acc (digit d) ≡ some (acc * 10 + d)
unfolding parse_digits
parse_digits-digit acc d h bound = let (c, shown, at) = digit-code d h in rw shown (ground arith)

parse_digits-digits :
    (places n : ℕ) → n < 10 ^ places → n < 2 ^ 32 → parse_digits 0 (digits places n) ≡ some n
unfolding digits parse_digits
parse_digits-digits zero n h bound = ground arith
parse_digits-digits (suc places) n h bound = elim (Bool-cases (ltb n 10)) [
  | inl small ↦
      rw (small, digits)
        (parse_digits-digit 0 n (ground arith) (omega arith) ∙ ap some (omega arith))
  | inr large ↦
      let leading = parse_digits-digits places (n / 10) (omega arith) (omega arith) in
      let digit_read = parse_digits-digit (n / 10) (n % 10) (omega arith) (omega arith) in
      rw (large, digits)
        (parse_digits-append 0 (digits places (n / 10)) (digit (n % 10)) leading
          ∙ digit_read
          ∙ ap some (omega arith))
]

digits-nonempty : (places n : ℕ) → digits (suc places) n ≢ ""
unfolding digits
digits-nonempty places n = elim (Bool-cases (ltb n 10)) [
  | inl small ↦
      let (c, shown, at) = digit-code n (ground arith) in rw (small, digits, shown) (λ e. cc)
  | inr large ↦
      let (c, shown, at) = digit-code (n % 10) (omega arith) in
      rw (large, digits)
        (append-ne-nil_of_right_ne-nil (digits places (n / 10)) (rw shown (λ e. cc)))
]

-- Whatever is read as digits holds nothing else.
parse_digits-Lacks :
    (sep acc : ℕ) (s : String) {value : ℕ}
    → b'9' < sep
    → parse_digits acc s ≡ some value
    → Lacks sep s
unfolding parse_digits
parse_digits-Lacks sep acc String.[] h read = tt
parse_digits-Lacks sep acc (String.◌∷◌ c s) {value} h read =
    let next = acc * 10 + (code c - b'0') in
    elim (Bool-cases (leb b'0' (code c) && leb (code c) b'9' && ltb next (2 ^ 32))) [
      | inl digit_read ↦
          (ground arith, parse_digits-Lacks sep next s {value = value} h (ground arith))
      | inr refused ↦ absurd (ground arith)
    ]

parse_u32-digits :
    (s : String) {value : ℕ} → s ≢ "" → parse_digits 0 s ≡ some value → parse_u32 s ≡ some value
unfolding parse_u32 parse_digits
parse_u32-digits String.[] h read = absurd (h refl)
parse_u32-digits (String.◌∷◌ c s) {value} h read = ground arith

pub text_differs : (s t : String) → s ≢ t → string_eq.beq s t ≡ false
text_differs s t h = elim (Bool-cases (string_eq.beq s t)) [
  | inl same ↦ absurd (h ((string_eq.beq_iff s t).0 same))
  | inr other ↦ other
]

parse_fee-some :
    (text : String) (n : ℕ) → text ≢ "" → parse_u32 text ≡ some n → parse_fee text ≡ ok (some n)
unfolding parse_fee
parse_fee-some text n h read = rw (text_differs text "" h, read, parse_fee) refl

pub parse_fee-fee_string :
    (fee : Option ℕ) → ((n : ℕ) → fee ≡ some n → n < 2 ^ 32) → parse_fee (fee_string fee) ≡ ok fee
unfolding fee_string u32_to_string
parse_fee-fee_string none h = unfold parse_fee in refl
parse_fee-fee_string (some n) h =
    let bound = h n refl in
    let shown = digits-nonempty 9 n in
    let read = parse_digits-digits 10 n (omega arith) bound in
    parse_fee-some (digits 10 n) n shown (parse_u32-digits (digits 10 n) shown read)

pub fee_string-Lacks :
    (sep : ℕ) (fee : Option ℕ)
    → ((n : ℕ) → fee ≡ some n → n < 2 ^ 32)
    → b'9' < sep
    → Lacks sep (fee_string fee)
unfolding fee_string u32_to_string
fee_string-Lacks sep none h le = tt
fee_string-Lacks sep (some n) h le =
    let bound = h n refl in
    parse_digits-Lacks sep 0 (digits 10 n) le (parse_digits-digits 10 n (omega arith) bound)
