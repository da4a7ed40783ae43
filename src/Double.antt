-- ===== src/Double.antt =====
-- IEEE 754 doubles by their 64 bits: the order, and what is not a finite number.
use project_progress_registe.Base.{ℕ, ◌+◌, ◌-◌, Bool, not, ◌&&◌, ◌||◌, ltb, ◌==◌, if◌then◌else◌}
use project_progress_registe.Schema.{Double}

abbrev sign_bit : ℕ
sign_bit = 0x8000000000000000

abbrev infinity : ℕ
infinity = 0x7ff0000000000000

-- The bits without the sign.
unfoldable pub magnitude : Double → ℕ
magnitude d = if ltb d sign_bit then d else d - sign_bit

-- `math.IsNaN` and `math.IsInf(…, 0)`
unfoldable pub is_nan : Double → Bool
unfolding magnitude
is_nan d = ltb infinity (magnitude d)

unfoldable pub is_infinite : Double → Bool
unfolding magnitude
is_infinite d = magnitude d == infinity

-- The place in the order of the numbers, in which both zeros are one.
unfoldable pub rank : Double → ℕ
unfolding magnitude
rank d = if ltb d sign_bit then sign_bit + d else sign_bit - magnitude d

-- `a < b`
unfoldable pub is_less : Double → Double → Bool
unfolding is_nan rank
is_less a b = not (is_nan a) && not (is_nan b) && ltb (rank a) (rank b)

-- `math.IsNaN(v) || math.IsInf(v, 0) || v < min || v > max`
unfoldable pub is_outside : Double → Double → Double → Bool
unfolding is_nan is_infinite is_less
is_outside low high v = is_nan v || is_infinite v || is_less v low || is_less high v
