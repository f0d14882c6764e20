-- ===== src/Domain/Assets.antt =====
-- services/ledger-core/internal/domain/domain.go: the registry of asset exponents.
use ledgercore.Base.{ℕ, ◌≡◌, refl, List, [], ◌∷◌, Text, codes, text_eq, if◌then◌else◌}

-- assetExponents.
abbrev pub asset_exponents : List (Text × ℕ)
asset_exponents =
    (codes "USD", 2)
    ∷ (codes "EUR", 2)
    ∷ (codes "MXN", 2)
    ∷ (codes "DOP", 2)
    ∷ (codes "GTQ", 2)
    ∷ (codes "COP", 2)
    ∷ (codes "PEN", 2)
    ∷ (codes "JPY", 0)
    ∷ (codes "CLP", 0)
    ∷ (codes "USDC", 6)
    ∷ (codes "USDT", 6)
    ∷ (codes "BTC", 8)
    ∷ []

abbrev pub default_asset_exponent : ℕ
default_asset_exponent = 2

unfoldable pub exponent_in : List (Text × ℕ) → Text → ℕ
exponent_in [] code = default_asset_exponent
exponent_in ((c, e) ∷ rest) code = if text_eq c code then e else exponent_in rest code

-- AssetExponent.
unfoldable pub asset_exponent : Text → ℕ
asset_exponent code = exponent_in asset_exponents code

btc_exponent : asset_exponent (codes "BTC") ≡ 8
unfolding asset_exponent exponent_in text_eq
btc_exponent = refl
