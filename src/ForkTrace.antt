-- ===== src/ForkTrace.antt =====
-- src/core/fork_trace_validation.rs: the walk over the call tree of a transaction. A frame
-- is what the code reads of its JSON object: a field that is missing or is no text is none, and
-- calls that are missing or no array are none at all. Texts are read as ASCII; the reading of an
-- address is an argument, and the texts of the anomalies are left out.
pub mod Walk
pub mod Paths
mod Tests
use Prim.Native.String.{String}
use dex_arbitrage.Prelude.{
  ℕ, zero, suc, ◌+◌, ◌-◌, ◌*◌, ◌^◌, Option, none, some, Bool, true, false, not, ◌&&◌, ◌||◌,
  if◌then◌else◌, ltb, leb, ◌==◌, List, [], ◌∷◌, ◌++◌, any, contains, nat_eq,
}
use dex_arbitrage.Prelude.Text.{codes, eq_ignore_ascii_case}

pub data AnomalyKind : Type 0 where
  unexpected_call_target : AnomalyKind
  unexpected_native_value_transfer : AnomalyKind
  self_destruct : AnomalyKind
  unexpected_delegate_target : AnomalyKind
  internal_revert : AnomalyKind

-- The path is kept as its indices.
pub record TraceAnomaly : Type 0 where
  pub path : List ℕ
  pub kind : AnomalyKind

pub record FrameFields : Type 0 where
  pub call_type : Option String
  pub to : Option String
  pub value : Option String
  pub input : Option String
  pub error : Option String

mutual
  pub data CallFrame : Type 0 where
    frame : FrameFields → CallFrames → CallFrame

  pub data CallFrames : Type 0 where
    no_calls : CallFrames
    call : CallFrame → CallFrames → CallFrames

-- `uniswapV3SwapCallback`: fa 46 1e 33, as one number of four bytes.
abbrev pub uniswap_v3_swap_callback_selector : ℕ
uniswap_v3_swap_callback_selector = 4_198_899_251

hex_digit : ℕ → Option ℕ
hex_digit c =
    if leb b'0' c && leb c b'9'
    then some (c - b'0')
    else if leb b'a' c && leb c b'f'
    then some (c - b'a' + 10)
    else if leb b'A' c && leb c b'F'
    then some (c - b'A' + 10)
    else none

-- The digits of `from_str_radix(_, 16)` below a limit, after the number read so far.
hex_digits : (limit : ℕ) → ℕ → List ℕ → Option ℕ
unfolding hex_digit
hex_digits limit acc [] = some acc
hex_digits limit acc (c ∷ cs) = elim (hex_digit c) [
  | none ↦ none
  | some d ↦
      let rest = hex_digits limit (acc * 16 + d) cs in
      if ltb (acc * 16 + d) limit then rest else none
]

from_str_radix_16 : (limit : ℕ) → List ℕ → Option ℕ
unfolding hex_digits
from_str_radix_16 limit [] = none
from_str_radix_16 limit (c ∷ []) = if c == b'+' then none else hex_digits limit 0 (c ∷ [])
from_str_radix_16 limit (c ∷ d ∷ cs) =
    if c == b'+' then hex_digits limit 0 (d ∷ cs) else hex_digits limit 0 (c ∷ d ∷ cs)

-- `trim_start_matches("0x")`
trim_0x : List ℕ → List ℕ
trim_0x (z ∷ x ∷ cs) = let rest = trim_0x cs in if z == b'0' && x == b'x' then rest else z ∷ x ∷ cs
trim_0x cs = cs

parse_value : Option String → ℕ
unfolding trim_0x from_str_radix_16
parse_value none = 0
parse_value (some s) = elim (from_str_radix_16 (2 ^ 128) (trim_0x (codes s))) [
  | none ↦ 0
  | some value ↦ value
]

-- Four bytes of two digits, as one number.
selector_bytes : (bytes acc : ℕ) → List ℕ → Option ℕ
unfolding from_str_radix_16
selector_bytes zero acc cs = some acc
selector_bytes (suc bytes) acc (c ∷ d ∷ cs) = elim (from_str_radix_16 256 (c ∷ d ∷ [])) [
  | none ↦ none
  | some byte ↦ selector_bytes bytes (acc * 256 + byte) cs
]
selector_bytes (suc bytes) acc _ = none

pub selector_of : String → Option ℕ
unfolding selector_bytes trim_0x
selector_of input_hex = selector_bytes 4 0 (trim_0x (codes input_hex))

-- `unwrap_or`
pub text_or : String → Option String → String
text_or default none = default
text_or default (some s) = s

pub push_anomaly : Bool → List ℕ → AnomalyKind → List TraceAnomaly → List TraceAnomaly
push_anomaly test path kind anomalies =
    if test then anomalies ++ record { path = path; kind = kind } ∷ [] else anomalies

unfoldable pub stray_kind : String → AnomalyKind
stray_kind call_type =
    if eq_ignore_ascii_case call_type "DELEGATECALL"
    then unexpected_delegate_target
    else unexpected_call_target

pub is_self_destruct : FrameFields → Bool
unfolding text_or
is_self_destruct fields = eq_ignore_ascii_case (text_or "" fields.call_type) "SELFDESTRUCT"

pub moves_value : FrameFields → Bool
unfolding parse_value
moves_value fields = ltb 0 (parse_value fields.value)

pub has_error : FrameFields → Bool
has_error fields = elim fields.error [ none ↦ false | some err ↦ true ]

module _ (parse_address : String → Option ℕ) (allowlist known_callback_selectors : List ℕ) where
  is_recognized_callback : String → Bool
  unfolding selector_of
  is_recognized_callback input = elim (selector_of input) [
    | none ↦ false
    | some sel ↦ contains sel known_callback_selectors
  ]

  -- `frame.get("to").and_then(parse_address)`, if it is to be reported.
  pub is_stray : FrameFields → Bool
  unfolding is_recognized_callback text_or
  is_stray fields = elim fields.to [
    | none ↦ false
    | some text ↦ elim (parse_address text) [
      | none ↦ false
      | some to_addr ↦
          not (contains to_addr allowlist)
          && not (is_recognized_callback (text_or "0x" fields.input))
    ]
  ]

  -- The statements on one frame.
  pub check_frame : FrameFields → List ℕ → List TraceAnomaly → List TraceAnomaly
  unfolding push_anomaly stray_kind is_self_destruct moves_value is_stray has_error
  check_frame fields path anomalies =
      let a = push_anomaly (is_self_destruct fields) path self_destruct anomalies in
      let b = push_anomaly (moves_value fields) path unexpected_native_value_transfer a in
      let c = push_anomaly (is_stray fields) path (stray_kind (text_or "" fields.call_type)) b in
      push_anomaly (has_error fields) path internal_revert c

  mutual
    unfolding check_frame

    pub walk : CallFrame → List ℕ → List TraceAnomaly → List TraceAnomaly
    walk (frame fields calls) path anomalies =
        walk_calls calls path 0 (check_frame fields path anomalies)

    -- The loop over the calls, at the index of the next.
    pub walk_calls : CallFrames → List ℕ → (i : ℕ) → List TraceAnomaly → List TraceAnomaly
    walk_calls no_calls path i anomalies = anomalies
    walk_calls (call child calls) path i anomalies =
        walk_calls calls path (i + 1) (walk child (path ++ i ∷ []) anomalies)

  unfoldable pub validate_trace : CallFrame → List TraceAnomaly
  unfolding walk
  validate_trace trace = walk trace (0 ∷ []) []
