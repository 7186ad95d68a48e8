-- ===== src/Proxy/Usage.antt =====
-- What the proxy reads of the tokens used, from a line of a stream or from a body: src/proxy/mod.rs.
use brigh_to_router.Prelude.{
  ℕ, max, Bool, true, false, Option, none, some, [], ◌∷◌, ◌==◌, if◌then◌else◌,
}
use mathlib.Core.List.{reverse}
use brigh_to_router.Prelude.Eq.{list_beq}
use brigh_to_router.Prelude.Result.{Result, ok, err}
use brigh_to_router.Prelude.Text.{Text, codes}
use brigh_to_router.Contract.Config.{or_else}
use brigh_to_router.Contract.Config.{BackendFormat, open_ai, anthropic}
use brigh_to_router.Json.{Value, Codec, Bytes, get, as_str, as_u64, and_then}

pub record UsageAccumulator : Type 0 where
  pub input_tokens : ℕ
  pub output_tokens : ℕ
  pub seen_usage : Bool

abbrev pub default : UsageAccumulator
default = record { input_tokens = 0; output_tokens = 0; seen_usage = false }

-- `u8::is_ascii_whitespace`, and `trim_ascii_start` on it.
is_ascii_whitespace : ℕ → Bool
is_ascii_whitespace b =
    if b == 0x20
    then true
    else if b == 0x09
    then true
    else if b == 0x0a
    then true
    else if b == 0x0c
    then true
    else b == 0x0d

trim_ascii_start : Bytes → Bytes
unfolding is_ascii_whitespace
trim_ascii_start [] = []
trim_ascii_start (b ∷ bs) = if is_ascii_whitespace b then trim_ascii_start bs else b ∷ bs

strip_prefix : Bytes → Bytes → Option Bytes
strip_prefix [] bs = some bs
strip_prefix (c ∷ cs) [] = none
strip_prefix (c ∷ cs) (b ∷ bs) = if c == b then strip_prefix cs bs else none

pub starts_with : Bytes → Bytes → Bool
unfolding strip_prefix
starts_with p bs = elim (strip_prefix p bs) [ none ↦ false | some rest ↦ true ]

drop_return : Bytes → Bytes
drop_return [] = []
drop_return (b ∷ bs) = if b == b'\r' then bs else b ∷ bs

-- `strip_suffix(b"\r").unwrap_or(line)`.
unfoldable pub strip_return : Bytes → Bytes
unfolding drop_return
strip_return line = reverse (drop_return (reverse line))

-- The first of two names that is there, as a number.
count_of : Value → Text → Text → Option ℕ
count_of usage a b = and_then (or_else (get usage a) (get usage b)) as_u64

ok_value : Result Value Text → Option Value
ok_value (ok v) = some v
ok_value (err e) = none

module _ (codec : Codec) where
  after_data : Bytes → Option Bytes
  unfolding strip_prefix trim_ascii_start
  after_data line =
      and_then (strip_prefix (codes "data:") line) (λ rest. some (trim_ascii_start rest))

  both : Option ℕ → Option ℕ → Option (ℕ × ℕ)
  both none o = none
  both (some a) none = none
  both (some a) (some b) = some (a, b)

  openai_counts : Value → Option (ℕ × ℕ)
  unfolding count_of both
  openai_counts usage =
      both (count_of usage (codes "prompt_tokens") (codes "input_tokens"))
        (count_of usage (codes "completion_tokens") (codes "output_tokens"))

  openai_usage : Value → Option (ℕ × ℕ)
  unfolding openai_counts
  openai_usage v =
      and_then
        (or_else (get v (codes "usage"))
          (and_then (get v (codes "response")) (λ r. get r (codes "usage"))))
        openai_counts

  unfoldable pub parse_openai_usage_from_line : Bytes → Option (ℕ × ℕ)
  unfolding after_data ok_value openai_usage
  parse_openai_usage_from_line line = and_then (after_data line) λ payload.
      if starts_with (codes "[DONE]") payload
      then none
      else and_then (ok_value (codec.parse_bytes payload)) openai_usage

  started_input : Value → Option ℕ
  started_input v =
      and_then
        (and_then (and_then (get v (codes "message")) (λ m. get m (codes "usage")))
          (λ u. get u (codes "input_tokens")))
        as_u64

  final_output : Value → Option ℕ
  final_output v =
      and_then (and_then (get v (codes "usage")) (λ u. get u (codes "output_tokens"))) as_u64

  anthropic_usage : Value → Option (Option ℕ × Option ℕ)
  unfolding started_input final_output
  anthropic_usage v = and_then (and_then (get v (codes "type")) as_str) λ kind.
      if list_beq kind (codes "message_start")
      then and_then (started_input v) (λ n. some (some n, none))
      else if list_beq kind (codes "message_delta")
      then and_then (final_output v) (λ n. some (none, some n))
      else none

  unfoldable pub parse_anthropic_usage_from_line : Bytes → Option (Option ℕ × Option ℕ)
  unfolding after_data ok_value anthropic_usage
  parse_anthropic_usage_from_line line =
      and_then (after_data line)
        λ payload. and_then (ok_value (codec.parse_bytes payload)) anthropic_usage

  note_openai : Option (ℕ × ℕ) → UsageAccumulator → UsageAccumulator
  note_openai none acc = acc
  note_openai (some (i, o)) acc = record {
    input_tokens = max acc.input_tokens i;
    output_tokens = max acc.output_tokens o;
    seen_usage = true;
  }

  note_input : Option ℕ → UsageAccumulator → UsageAccumulator
  note_input none acc = acc
  note_input (some i) acc = record acc { input_tokens = i; seen_usage = true }

  note_output : Option ℕ → UsageAccumulator → UsageAccumulator
  note_output none acc = acc
  note_output (some o) acc = record acc { output_tokens = o; seen_usage = true }

  note_anthropic : Option (Option ℕ × Option ℕ) → UsageAccumulator → UsageAccumulator
  unfolding note_input note_output
  note_anthropic none acc = acc
  note_anthropic (some (i, o)) acc = note_output o (note_input i acc)

  unfoldable pub process_sse_line : BackendFormat → Bytes → UsageAccumulator → UsageAccumulator
  unfolding note_openai note_anthropic
  process_sse_line open_ai line acc = note_openai (parse_openai_usage_from_line line) acc
  process_sse_line anthropic line acc = note_anthropic (parse_anthropic_usage_from_line line) acc

  body_counts : BackendFormat → Value → UsageAccumulator
  unfolding count_of note_input note_output
  body_counts open_ai usage =
      note_output (count_of usage (codes "completion_tokens") (codes "output_tokens"))
        (note_input (count_of usage (codes "prompt_tokens") (codes "input_tokens")) default)
  body_counts anthropic usage =
      note_output (and_then (get usage (codes "output_tokens")) as_u64)
        (note_input (and_then (get usage (codes "input_tokens")) as_u64) default)

  body_usage : BackendFormat → Option Value → UsageAccumulator
  unfolding body_counts
  body_usage format none = default
  body_usage format (some usage) = body_counts format usage

  unfoldable pub parse_usage_from_body : Bytes → BackendFormat → UsageAccumulator
  unfolding ok_value body_usage
  parse_usage_from_body body format =
      body_usage format (and_then (ok_value (codec.parse_bytes body)) (λ v. get v (codes "usage")))
