-- ===== src/Limits/Stable.antt =====
-- limits.py: a measurement that has been recorded never changes.
use jev_frame.Prelude.{
  String, ◌≡◌, ◌≢◌, refl, sym, ap, ◌∙◌, Option, none, some, inl, inr, List, [], ◌∷◌, arith,
  Option-cases, Bool-cases, string_eq, ==_iff, ◌==◌, ◌||◌, ◌⊎◌,
}
use jev_frame.Prelude.Dict.{lookup, insert, lookup-insert}
use jev_frame.Errors.{Result, ok, raise}
use jev_frame.Definitions.{RunLimits, Usage, Tokens, UsageCoverage, unknown, is_negative_count}
use jev_frame.Exec.{lift, ◌>>=◌}
use jev_frame.Limits.Measurement.{
  MeasurementKey, UsageMeasurement, UsageMeasurementKind, usage_measurement, estimated, reserved,
  released, measurement_eq_of_beq, key_eq, key_beq_iff,
}
use jev_frame.Limits.{
  Ledger, new_ledger, enter_operation, leave_operation, admit_provider_attempt, admit_child_run,
  admit_tool_attempt, admit_write, admit_investigation, admit_planner_call, admit_plan_revision,
}
use jev_frame.Limits.Accounting.{
  kind_of_coverage, record_measurement, record_usage, record_estimate, reserve_usage,
  release_reservation,
}
use jev_frame.Limits.Requests.{Request, perform, serve}

abbrev measured : MeasurementKey → Ledger → Option UsageMeasurement
measured key l = lookup key l.measurements

-- what `release_reservation` stores for a reservation
abbrev release_of : String → UsageMeasurement → UsageMeasurement
release_of i r = record {
  operation_id = i;
  kind = released;
  input_tokens = r.input_tokens;
  output_tokens = r.output_tokens;
  coverage = unknown;
}

-- A released measurement repeats the reservation, which is still recorded.
abbrev IsSettled : Ledger → Type 0
IsSettled l =
    (i : String) (m : UsageMeasurement)
    → measured (i, released) l ≡ some m
    → (r : UsageMeasurement) × (measured (i, reserved) l ≡ some r) × (m ≡ release_of i r)

record_measurement_keeps :
    (new : UsageMeasurement) (l : Ledger) (key : MeasurementKey) (m : UsageMeasurement)
    → measured key l ≡ some m
    → measured key (record_measurement new l).1 ≡ some m
unfolding record_measurement
record_measurement_keeps new l key m h =
    let own : MeasurementKey = (new.operation_id, new.kind) in
    elim (Option-cases (lookup own l.measurements)) [
      | inl e ↦ ground (arith, lookup-insert key own new l.measurements, key_beq_iff own key)
      | inr (known, e) ↦ ground (
        arith,
        lookup-insert key own new l.measurements,
        key_beq_iff own key,
        measurement_eq_of_beq known new,
      )
    ]

-- `record_measurement` adds nothing under a key of another kind.
record_measurement_adds :
    (new : UsageMeasurement) (l : Ledger) (i : String)
    → new.kind ≢ released
    → measured (i, released) (record_measurement new l).1 ≡ measured (i, released) l
unfolding record_measurement
record_measurement_adds new l i other =
    let own : MeasurementKey = (new.operation_id, new.kind) in
    ground
      (arith, lookup-insert (i, released) own new l.measurements, key_beq_iff own (i, released))

-- `l'` has the measurements of `l`, and no new one that is released.
record Grows (l l' : Ledger) : Type 0 where
  keeps :
      (key : MeasurementKey) (m : UsageMeasurement)
      → measured key l ≡ some m
      → measured key l' ≡ some m
  same_released : (i : String) → measured (i, released) l' ≡ measured (i, released) l

Grows-refl : (l l' : Ledger) → l'.measurements ≡ l.measurements → Grows l l'
Grows-refl l l' e = record { keeps = λ key m h. ground arith; same_released = λ i. ground arith }

record_measurement-Grows :
    (new : UsageMeasurement) (l : Ledger)
    → new.kind ≢ released
    → Grows l (record_measurement new l).1
record_measurement-Grows new l other = record {
  keeps = record_measurement_keeps new l;
  same_released = λ i. record_measurement_adds new l i other;
}

usage_measurement_kind :
    (i : String) (k : UsageMeasurementKind) (a b : Tokens) (c : UsageCoverage)
    (m : UsageMeasurement)
    → usage_measurement i k a b c ≡ ok m
    → m.kind ≡ k
unfolding usage_measurement
usage_measurement_kind i k a b c m h = ground arith

-- A measurement is built, which may raise, and recorded.
recording-Grows :
    (built : Result UsageMeasurement) (l : Ledger)
    → ((m : UsageMeasurement) → built ≡ ok m → m.kind ≢ released)
    → Grows l ((lift built >>= record_measurement) l).1
recording-Grows (ok m) l other = record_measurement-Grows m l (other m refl)
recording-Grows (raise e) l other = Grows-refl l l refl

record_usage-Grows : (i : String) (u : Usage) (l : Ledger) → Grows l (record_usage i u l).1
unfolding record_usage
record_usage-Grows i u l = recording-Grows _ l (λ m h e. ground (
  arith,
  usage_measurement_kind i (kind_of_coverage u.coverage) u.input_tokens u.output_tokens u.coverage
      m,
))

record_estimate-Grows :
    (i : String) (a b : Tokens) (l : Ledger) → Grows l (record_estimate i a b l).1
unfolding record_estimate
record_estimate-Grows i a b l =
    recording-Grows _ l (λ m h e. ground (arith, usage_measurement_kind i estimated a b unknown m))

reserve_usage-Grows : (i : String) (a b : Tokens) (l : Ledger) → Grows l (reserve_usage i a b l).1
unfolding reserve_usage
reserve_usage-Grows i a b l =
    recording-Grows _ l (λ m h e. ground (arith, usage_measurement_kind i reserved a b unknown m))

-- No request changes a measurement that stands, and what is released stays the copy of its
-- reservation.
record Steady (l l' : Ledger) : Type 0 where
  keeps :
      (key : MeasurementKey) (m : UsageMeasurement)
      → measured key l ≡ some m
      → measured key l' ≡ some m
  settled : IsSettled l'

Grows→Steady : (l l' : Ledger) → IsSettled l → Grows l l' → Steady l l'
Grows→Steady l l' s g = record {
  keeps = g.keeps;
  settled = λ i m h.
      let (r, e, copy) = s i m (sym (g.same_released i) ∙ h) in
      (r, g.keeps (i, reserved) r e, copy);
}

release_puts :
    (i : String) (l : Ledger) (r : UsageMeasurement)
    → measured (i, reserved) l ≡ some r
    → ((release_reservation i l).1.measurements ≡ l.measurements)
      ⊎ ((release_reservation i l).1.measurements
          ≡ insert (i, released) (release_of i r) l.measurements)
unfolding release_reservation
release_puts i l r e =
    elim (Bool-cases
      (i == "" || is_negative_count r.input_tokens || is_negative_count r.output_tokens)) [
        | inl invalid ↦ inl (ground arith)
        | inr valid ↦ inr (ground arith)
      ]

release_none :
    (i : String) (l : Ledger) → measured (i, reserved) l ≡ none → (release_reservation i l).1 ≡ l
unfolding release_reservation
release_none i l e = ground arith

put_release-Steady :
    (i : String) (l l' : Ledger) (r : UsageMeasurement)
    → IsSettled l
    → measured (i, reserved) l ≡ some r
    → l'.measurements ≡ insert (i, released) (release_of i r) l.measurements
    → Steady l l'
put_release-Steady i l l' r s e put = record {
  keeps = λ key m h. ground (
    arith,
    lookup-insert key (i, released) (release_of i r) l.measurements,
    key_beq_iff (i, released) key,
    s i m,
  );
  settled = λ i' m h.
      let seen = λ (k : UsageMeasurementKind).
        lookup-insert (i', k) (i, released) (release_of i r) l.measurements in
      elim (Bool-cases (i == i')) [
        | inl same ↦ (
          r,
          ground (arith, seen reserved, ==_iff i i'),
          ground (arith, seen released, ==_iff i i'),
        )
        | inr other ↦
            let (r', e', copy) = s i' m (ground (arith, seen released)) in
            (r', ground (arith, seen reserved), copy)
      ];
}

release-Steady : (i : String) (l : Ledger) → IsSettled l → Steady l (release_reservation i l).1
release-Steady i l s = elim (Option-cases (measured (i, reserved) l)) [
  | inl e ↦
      Grows→Steady _ _ s (Grows-refl _ _ (ap (λ (m : Ledger). m.measurements) (release_none i l e)))
  | inr (r, e) ↦ elim (release_puts i l r e) [
    | inl same ↦ Grows→Steady _ _ s (Grows-refl _ _ same)
    | inr put ↦ put_release-Steady i l _ r s e put
  ]
]

perform-Steady : (q : Request) (l : Ledger) → IsSettled l → Steady l (perform q l).1
unfolding perform enter_operation leave_operation admit_provider_attempt admit_child_run
    admit_tool_attempt admit_write admit_investigation admit_planner_call admit_plan_revision
perform-Steady (Request.usage i u) l s = Grows→Steady _ _ s (record_usage-Grows i u l)
perform-Steady (Request.estimate i a b) l s = Grows→Steady _ _ s (record_estimate-Grows i a b l)
perform-Steady (Request.reservation i a b) l s = Grows→Steady _ _ s (reserve_usage-Grows i a b l)
perform-Steady (Request.released i) l s = release-Steady i l s
perform-Steady (Request.enter i d n) l s = Grows→Steady _ _ s (Grows-refl _ _ (ground arith))
perform-Steady _ l s = Grows→Steady _ _ s (Grows-refl _ _ (ground arith))

serve-Steady : (rs : List Request) (l : Ledger) → IsSettled l → Steady l (serve rs l)
unfolding serve
serve-Steady [] l s = record { keeps = λ key m h. h; settled = s }
serve-Steady (q ∷ rs) l s =
    let first = perform-Steady q l s in
    let rest = serve-Steady rs (perform q l).1 first.settled in
    record { keeps = λ key m h. rest.keeps key m (first.keeps key m h); settled = rest.settled }

new_ledger-IsSettled : (r : RunLimits) → IsSettled (new_ledger r)
new_ledger-IsSettled r i m h = cc

-- A measurement that a ledger has recorded under an identifier and a kind stays the same for ever
-- after, though `release_reservation` writes without a look at what stands under its key.
pub serve_keeps_measurements :
    (r : RunLimits) (before after : List Request) (key : MeasurementKey) (m : UsageMeasurement)
    → lookup key (serve before (new_ledger r)).measurements ≡ some m
    → lookup key (serve after (serve before (new_ledger r))).measurements ≡ some m
serve_keeps_measurements r before after key m =
    (serve-Steady after (serve before (new_ledger r))
        (serve-Steady before (new_ledger r) (new_ledger-IsSettled r)).settled).keeps
      key m
