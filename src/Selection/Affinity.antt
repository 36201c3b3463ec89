-- ===== src/Selection/Affinity.antt =====
-- pkg/client/rpc.go: the affinity of a claim, a float32, and its comparisons. A float32 is its bit
-- pattern.
use livekit_psrpc.Prelude.{
  ℕ, ◌+◌, ◌-◌, ◌*◌, ◌%◌, ◌^◌, ◌≡◌, Bool, true, false, not, ◌&&◌, arith, ltb, leb, if◌then◌else◌,
}

abbrev pub Float32 : Type 0
Float32 = ℕ

-- An exponent of ones and a fraction that is not zero.
abbrev pub is_nan : Float32 → Bool
is_nan x = ltb (255 * 2 ^ 23) (x % 2 ^ 31)

-- The order of the patterns that are numbers: sign and magnitude, with one zero.
abbrev pub order_key : Float32 → ℕ
order_key x = if ltb x (2 ^ 31) then 2 ^ 31 + x else 2 ^ 32 - x

-- x > y and x >= y: no comparison with a NaN holds.
abbrev pub gt : Float32 → Float32 → Bool
gt x y = not (is_nan x) && not (is_nan y) && ltb (order_key y) (order_key x)

abbrev pub ge : Float32 → Float32 → Bool
ge x y = not (is_nan x) && not (is_nan y) && leb (order_key y) (order_key x)

pub gt_trans : (x y z : Float32) → gt x y ≡ true → gt y z ≡ true → gt x z ≡ true
gt_trans x y z h k = ground arith

-- What exceeds a and does not reach c is exceeded by c, if c exceeds a.
pub gt_above : (c p a : Float32) → gt c a ≡ true → gt p a ≡ true → ge p c ≡ false → gt c p ≡ true
gt_above c p a h k l = ground arith

pub gt→not-ge : (c p : Float32) → gt c p ≡ true → ge p c ≡ false
gt→not-ge c p h = ground arith

pub not-gt→not-ge : (c p a : Float32) → gt c a ≡ true → gt p a ≡ false → ge p c ≡ false
not-gt→not-ge c p a h k = ground arith
