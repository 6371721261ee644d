-- ===== src/Spec/Duration.antt =====
-- internal/spec/duration.go: durations in YAML. `time.ParseDuration`, `Duration.String` of package
-- time and the conversion of a float are parameters.
use seine.Prelude.{ℕ, ◌+◌, ◌-◌, ◌*◌, ◌%◌, ◌^◌, String, Option, none, some, ltb, if◌then◌else◌}
use seine.Prelude.Int.{ℤ, pos, negsuc}
use seine.Prelude.Result.{Result, ok, err}
use seine.Spec.Types.{Duration, second}

-- The value that the decoder hands over. `int` and `int64` have 64 bits.
pub data Raw (Float : Type 0) : Type 0 where
  nil other : Raw Float
  int : ℤ → Raw Float
  float : Float → Raw Float
  text : String → Raw Float

pub data DurationError : Type 0 where
  decode parse_duration unsupported_type : DurationError

-- The `int64` that has a number's lowest 64 bits.
unfoldable pub to_int64 : ℕ → ℤ
to_int64 n = let low = n % 2 ^ 64 in if ltb low (2 ^ 63) then pos low else negsuc (2 ^ 64 - low - 1)

-- `time.Duration(v) * time.Second`, with its wrap-around
unfoldable pub seconds : ℤ → Duration
unfolding to_int64
seconds (pos n) = to_int64 (n * second)
seconds (negsuc n) = to_int64 (2 ^ 64 - (n + 1) * second % 2 ^ 64)

module _ {Float : Type 0} (parse : String → Option Duration) (of_float : Float → Duration) where
  -- `none` is an error of the decoder; `of_float v` is `time.Duration(v * float64(time.Second))`.
  unfoldable pub unmarshal_yaml : Option (Raw Float) → Result DurationError Duration
  unfolding seconds
  unmarshal_yaml none = err decode
  unmarshal_yaml (some nil) = ok (pos 0)
  unmarshal_yaml (some (int v)) = ok (seconds v)
  unmarshal_yaml (some (float v)) = ok (of_float v)
  unmarshal_yaml (some (text v)) = elim (parse v) [ none ↦ err parse_duration | some d ↦ ok d ]
  unmarshal_yaml (some other) = err unsupported_type

-- `MarshalYAML`: the text of the duration
unfoldable pub marshal_yaml : {Float : Type 0} → (Duration → String) → Duration → Raw Float
marshal_yaml show d = text (show d)
