-- ===== src/Scaled/Tests.antt =====
-- Runs of the fixed-point code at inputs that can be followed in the source.
use trading_worker.Base.{◌≡◌, refl, some, none, arith}
use trading_worker.Base.Int.{pos, negsuc}
use trading_worker.Base.Text.{codes}
use trading_worker.Scaled.{text, decimal_to_scaled, scaled_to_decimal}
use trading_worker.Scaled.RoundTrip.{decimal_to_scaled-scaled_to_decimal}

reads_price : decimal_to_scaled (text (codes " -12.345")) 6 ≡ some (negsuc 12344999)
unfolding decimal_to_scaled
reads_price = refl

refuses_exponent : decimal_to_scaled (text (codes "1e-7")) 8 ≡ none
unfolding decimal_to_scaled
refuses_exponent = refl

prints_price : scaled_to_decimal (negsuc 12344999) 6 ≡ codes "-12.345"
unfolding scaled_to_decimal
prints_price = refl

prints_whole : scaled_to_decimal (pos 1200000) 6 ≡ codes "1.2"
unfolding scaled_to_decimal
prints_whole = refl

decimal_to_scaled-scaled_to_decimal_example :
    decimal_to_scaled (text (scaled_to_decimal (negsuc 12344999) 6)) 6 ≡ some (negsuc 12344999)
decimal_to_scaled-scaled_to_decimal_example =
    decimal_to_scaled-scaled_to_decimal (negsuc 12344999) 6 (omega arith)
