-- ===== src/Double/Sums.antt =====
-- engine/dblsub.c: sums and negation of doubles.
use gforth.Prelude.{◌+◌, ◌-◌, ◌%◌, ◌^◌, ◌≡◌, arith}
use gforth.Double.{Double, value, IsDouble, dnegate, dadd}

-- `dadd` adds two doubles, with the carry from the low cells, modulo 2 ^ 128.
pub value-dadd :
    (x y : Double) → IsDouble x → IsDouble y → value (dadd x y) ≡ (value x + value y) % 2 ^ 128
unfolding dadd
value-dadd x y hx hy = ground arith

-- `dnegate` is the negation modulo 2 ^ 128.
pub value-dnegate : (x : Double) → IsDouble x → value (dnegate x) ≡ (2 ^ 128 - value x) % 2 ^ 128
unfolding dnegate
value-dnegate x h = ground arith

pub dnegate-IsDouble : (x : Double) → IsDouble (dnegate x)
unfolding dnegate
dnegate-IsDouble x = omega arith

pub dadd-IsDouble : (x y : Double) → IsDouble (dadd x y)
unfolding dadd
dadd-IsDouble x y = omega arith
