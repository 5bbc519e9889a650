-- ===== src/Config/Timeouts.antt =====
-- The timeout of the HTTP client (GetHttpTimeout, conjurapi/config.go).
use conjur_api_go.Common.{
  ◌||◌, is_negative, is_zero, exceeds, if◌then◌else◌, Bool-cases, zero, suc, ◌≤◌, ◌<◌, ℤ, pos,
  negsuc, ◌≡◌, ◌⊎◌, inl, inr, refl, arith,
}
use conjur_api_go.Config.{
  Config, get_http_timeout, http_timeout_max_value, http_timeout_default_value,
}

-- A timeout that is used as configured.
abbrev pub InRange : ℤ → Type 0
InRange (pos n) = (0 < n) × (n ≤ http_timeout_max_value)
InRange (negsuc n) = ⊥

-- The timeout in use, from the configured one.
abbrev pub Used : ℤ → ℤ → Type 0
Used configured used =
    InRange used
    × ((InRange configured × (used ≡ configured))
        ⊎ ((¬ InRange configured) × (used ≡ pos http_timeout_default_value)))

Used-by :
    (t : ℤ)
    → Used t (
        if is_negative t || is_zero t
        then pos http_timeout_default_value
        else if exceeds t http_timeout_max_value
        then pos http_timeout_default_value
        else t)
Used-by (pos zero) = (omega arith, inr (omega arith, refl))
Used-by (pos (suc n)) = elim (Bool-cases (exceeds (pos (suc n)) http_timeout_max_value)) [
  | inl above ↦ rw above (omega arith, inr (ground arith, refl))
  | inr below ↦ rw below (ground arith, inl (ground arith, refl))
]
Used-by (negsuc n) = (omega arith, inr (λ h. h, refl))

-- The timeout in use lies between 1 and 600 seconds: it is the configured one if that lies there
-- too, and 60 seconds if not.
pub get_http_timeout_bounds : (c : Config) → Used c.http_timeout (get_http_timeout c)
unfolding get_http_timeout
get_http_timeout_bounds c = Used-by c.http_timeout
