-- ===== src/Limits/Measurement.antt =====
-- limits.py, `UsageMeasurement`: what the ledger records about the tokens of an operation.
use jev_frame.Prelude.{
  String, Bool, true, false, not, ◌&&◌, ◌≡◌, ◌↔◌, none, some, arith, Eq, ◌==◌, ==_iff, string_eq,
}
use jev_frame.Prelude.Int.{int_eq, int_beq_iff}
use jev_frame.Errors.{Result, ok, value_error, guard, ◌>>◌}
use jev_frame.Definitions.{Tokens, UsageCoverage, complete, partial, unknown, is_negative_count}

pub data UsageMeasurementKind : Type 0 where
  observed estimated reserved released unmeasured : UsageMeasurementKind

pub record UsageMeasurement : Type 0 where
  pub operation_id : String
  pub kind : UsageMeasurementKind
  pub input_tokens : Tokens
  pub output_tokens : Tokens
  pub coverage : UsageCoverage

-- `UsageMeasurement.__post_init__`
unfoldable pub usage_measurement :
    String → UsageMeasurementKind → Tokens → Tokens → UsageCoverage → Result UsageMeasurement
usage_measurement operation_id kind input_tokens output_tokens coverage = do
  guard (not (operation_id == "")) value_error
  guard (not (is_negative_count input_tokens)) value_error
  guard (not (is_negative_count output_tokens)) value_error
  ok (record {
    operation_id = operation_id;
    kind = kind;
    input_tokens = input_tokens;
    output_tokens = output_tokens;
    coverage = coverage;
  })

-- the tuple `(operation_id, kind)` that keys a measurement
abbrev pub MeasurementKey : Type 0
MeasurementKey = String × UsageMeasurementKind

abbrev pub kind_beq : UsageMeasurementKind → UsageMeasurementKind → Bool
kind_beq observed observed = true
kind_beq estimated estimated = true
kind_beq reserved reserved = true
kind_beq released released = true
kind_beq unmeasured unmeasured = true
kind_beq _ _ = false

kind_beq_iff : (a b : UsageMeasurementKind) → (kind_beq a b ≡ true) ↔ (a ≡ b)
kind_beq_iff a b = ground arith

abbrev pub coverage_beq : UsageCoverage → UsageCoverage → Bool
coverage_beq complete complete = true
coverage_beq partial partial = true
coverage_beq unknown unknown = true
coverage_beq _ _ = false

abbrev pub tokens_beq : Tokens → Tokens → Bool
tokens_beq none none = true
tokens_beq (some a) (some b) = a == b
tokens_beq _ _ = false

tokens_beq_iff : (a b : Tokens) → (tokens_beq a b ≡ true) ↔ (a ≡ b)
tokens_beq_iff none none = ground arith
tokens_beq_iff (some a) (some b) = ground (arith, int_beq_iff a b)
tokens_beq_iff none (some b) = ground arith
tokens_beq_iff (some a) none = ground arith

abbrev pub key_beq : MeasurementKey → MeasurementKey → Bool
key_beq (i, k) (j, m) = i == j && kind_beq k m

pub key_beq_iff : (a b : MeasurementKey) → (key_beq a b ≡ true) ↔ (a ≡ b)
key_beq_iff (i, k) (j, m) = ground (arith, ==_iff i j, kind_beq_iff k m)

instance abbrev pub key_eq : Eq MeasurementKey
key_eq = record { equal = key_beq; equal_iff = key_beq_iff }

-- the dataclass equality of two measurements
abbrev pub measurement_beq : UsageMeasurement → UsageMeasurement → Bool
measurement_beq a b =
    a.operation_id == b.operation_id
    && kind_beq a.kind b.kind
    && tokens_beq a.input_tokens b.input_tokens
    && tokens_beq a.output_tokens b.output_tokens
    && coverage_beq a.coverage b.coverage

coverage_beq_iff : (a b : UsageCoverage) → (coverage_beq a b ≡ true) ↔ (a ≡ b)
coverage_beq_iff a b = ground arith

pub measurement_eq_of_beq : (a b : UsageMeasurement) → measurement_beq a b ≡ true → a ≡ b
measurement_eq_of_beq a b h = ground (
  arith,
  ==_iff a.operation_id b.operation_id,
  kind_beq_iff a.kind b.kind,
  tokens_beq_iff a.input_tokens b.input_tokens,
  tokens_beq_iff a.output_tokens b.output_tokens,
  coverage_beq_iff a.coverage b.coverage,
)
