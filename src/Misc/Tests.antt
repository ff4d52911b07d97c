-- ===== src/Misc/Tests.antt =====
-- The theorem on signed division of api/misc.hpp at values of 8 bits.
use julelang.Prelude.{◌≡◌, refl, none, some}
use julelang.Prelude.Int.{pos, negsuc}
use julelang.Panic
use julelang.Panic.{Result}
use julelang.Misc.Signed.{quotient, remainder, div_int, modulo_int}

-- -7 / 2 is -3, and what is left is -1; the least value divided by -1 has no result.
div_int_toward_zero : div_int 128 (negsuc 6) (pos 2) ≡ some (Panic.ok (negsuc 2))
unfolding div_int quotient
div_int_toward_zero = refl

modulo_int_negative : modulo_int 128 (negsuc 6) (pos 2) ≡ some (Panic.ok (negsuc 0))
unfolding modulo_int quotient remainder
modulo_int_negative = refl

div_int_least : div_int 128 (negsuc 127) (negsuc 0) ≡ none
unfolding div_int quotient
div_int_least = refl
