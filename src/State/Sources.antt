-- ===== src/State/Sources.antt =====
-- state.py, `bind_source`: the exact value that a path or a span of characters selects in the
-- retained evidence. The data types are those of definitions.py.
use Prim.Native.String.{count}
use jev_frame.Prelude.{
  ℕ, zero, suc, String, Option, none, some, List, [], ◌∷◌, leb, ◌==◌, string_eq, if◌then◌else◌,
}
use jev_frame.Prelude.Int.{ℤ, pos}
use jev_frame.Errors.{Result, ok, raise, source_binding_error}
use jev_frame.State.Value.{Value, Items, Fields, text, array, object, nil, cons, end, field}
use jev_frame.State.Evidence.{Evidence}

-- A segment of a path: a string or an integer.
pub data Part : Type 0 where
  name : String → Part
  position : ℤ → Part

-- `SourceField` and `SourceSpan`
pub data Locator : Type 0 where
  source_field : List Part → Locator
  source_span : (start end_ : ℕ) → Locator

abbrev pub get_field : String → Fields → Option Value
get_field k end = none
get_field k (field j v fs) = if k == j then some v else get_field k fs

abbrev pub get_item : ℕ → Items → Option Value
get_item n nil = none
get_item zero (cons v xs) = some v
get_item (suc n) (cons v xs) = get_item n xs

-- One step of a path: a field of an object, or an item of an array.
abbrev pub child_value : Part → Value → Option Value
child_value (name k) (object fs) = get_field k fs
child_value (position (pos n)) (array xs) = get_item n xs
child_value _ _ = none

abbrev pub follow : List Part → Value → Option Value
follow [] v = some v
follow (p ∷ ps) v = elim (child_value p v) [ none ↦ none | some c ↦ follow ps c ]

-- `s[start:end]`, by code points
abbrev pub take_chars : ℕ → String → String
take_chars zero s = ""
take_chars (suc n) String.[] = ""
take_chars (suc n) (String.◌∷◌ c s) = String.◌∷◌ c (take_chars n s)

abbrev pub slice_chars : ℕ → ℕ → String → String
slice_chars zero n s = take_chars n s
slice_chars (suc m) zero s = ""
slice_chars (suc m) (suc n) String.[] = ""
slice_chars (suc m) (suc n) (String.◌∷◌ c s) = slice_chars m n s

abbrev pub required : Option Value → Result Value
required none = raise source_binding_error
required (some v) = ok v

unfoldable pub bind_source : Evidence → Locator → Result Value
bind_source r (source_field path) = required (follow path r.value)
bind_source r (source_span start end_) = elim r.value [
  | text s ↦
      if leb end_ (count s)
      then ok (text (slice_chars start end_ s))
      else raise source_binding_error
  | _ ↦ raise source_binding_error
]
