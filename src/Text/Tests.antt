-- ===== src/Text/Tests.antt =====
-- Decimal numbers on concrete words.
use arwill.Prelude.{◌≡◌, uint64_max, some, arith}
use arwill.Text.Decimal.{decimal64, parse_decimal, parse_decimal-decimal64}

parse_decimal-decimal64_example : parse_decimal uint64_max (decimal64 4096) ≡ some 4096
parse_decimal-decimal64_example = parse_decimal-decimal64 4096 (omega arith)
