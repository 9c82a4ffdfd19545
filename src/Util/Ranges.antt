-- ===== src/Util/Ranges.antt =====
-- The addresses that are not public.
use mailhook.Common.{ℕ, Bool, not, ◌&&◌, List, [], ◌∷◌, ◌≡◌, leb, any, arith}
use mailhook.Util.{v4, dotted, is_public_ip}

-- The first and the last address of each private range.
abbrev pub in_range : ℕ → ℕ × ℕ → Bool
in_range n (low, high) = leb low n && leb n high

abbrev pub ranges : List (ℕ × ℕ)
ranges =
    (dotted 10 0 0 0, dotted 10 255 255 255)
    ∷ (dotted 172 16 0 0, dotted 172 31 255 255)
    ∷ (dotted 192 168 0 0, dotted 192 168 255 255)
    ∷ (dotted 127 0 0 0, dotted 127 255 255 255)
    ∷ (dotted 169 254 0 0, dotted 169 254 255 255)
    ∷ (dotted 100 64 0 0, dotted 100 127 255 255)
    ∷ (dotted 0 0 0 0, dotted 0 255 255 255)
    ∷ []

-- An IPv4 address is public exactly when it lies in none of the ranges 10.0.0.0 to 10.255.255.255,
-- 172.16.0.0 to 172.31.255.255, 192.168.0.0 to 192.168.255.255, 127.0.0.0 to 127.255.255.255,
-- 169.254.0.0 to 169.254.255.255, 100.64.0.0 to 100.127.255.255 and 0.0.0.0 to 0.255.255.255.
pub is_public_ip-ranges : (n : ℕ) → is_public_ip (v4 n) ≡ not (any (in_range n) ranges)
unfolding is_public_ip
is_public_ip-ranges n = ground arith
