-- ===== src/Price/Fixed/Examples.antt =====
-- A price of 0.03 tokens per ETH, with more and with fewer digits than the token has decimals.
use tornado_4337_relayer.Base.{◌≡◌, ◌↔◌, refl, none, some, [], ◌∷◌}
use tornado_4337_relayer.Base.Text.{codes, text_eq}
use tornado_4337_relayer.Base.Decimal.{big_int}
use tornado_4337_relayer.Base.Trim.{trim}
use tornado_4337_relayer.Base.Dict
use tornado_4337_relayer.Price.Fixed.{
  parse_decimal, decimal_parts, joined, fixed_prices, fixed_token_per_eth,
}
use tornado_4337_relayer.Price.Fixed.Floor.{Floored, parse_decimal_iff}

reads :
    (parse_decimal (codes " 0.03 ") 8 ≡ some 3_000_000)
    × (parse_decimal (codes "0.039") 2 ≡ some 3)
    × (parse_decimal (codes "3000") 2 ≡ some 300_000)
    × (parse_decimal (codes "1.") 2 ≡ none)
    × (parse_decimal (codes ".5") 2 ≡ none)
    × (parse_decimal (codes "-1") 2 ≡ none)
unfolding parse_decimal decimal_parts joined trim big_int
reads = (refl, refl, refl, refl, refl, refl)

last_price :
    fixed_token_per_eth
      (fixed_prices ((codes "0xAB", codes "1") ∷ (codes "0xab", codes "2.5") ∷ []) [])
      (codes "0xaB")
      1
    ≡ some 25
unfolding fixed_token_per_eth fixed_prices Dict.get Dict.set text_eq parse_decimal decimal_parts
    joined trim big_int
last_price = refl

parse_decimal_iff_example :
    (parse_decimal (codes " 0.03 ") 8 ≡ some 3_000_000) ↔ Floored (codes " 0.03 ") 8 3_000_000
parse_decimal_iff_example = parse_decimal_iff (codes " 0.03 ") 8 3_000_000
