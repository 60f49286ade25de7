-- ===== src/Math.antt =====
-- The arithmetic helpers of kernel/linux_func.c: roots, sizes, powers of two, divisors.
pub mod Root
pub mod Sizes
pub mod Powers
pub mod Gcd
pub mod Highest
pub mod Lowest
