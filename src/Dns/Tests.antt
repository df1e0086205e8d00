-- ===== src/Dns/Tests.antt =====
-- The theorems of src/dns.rs at concrete inputs.
use udp2raw_rust.Prelude.{ℕ, ◌≤◌, ◌≡◌, refl, true, false, List, [], ◌∷◌, arith, length}
use udp2raw_rust.Dns.{
  max_endpoint_candidates, contains, is_safe, check_endpoint_ip, canonicalize_answer,
}
use udp2raw_rust.Dns.Canonical.{Climbs, canonicalize_answer_safe, canonicalize_answer_unordered}

-- 8.8.8.8, 10.0.0.1, 1.1.1.1 and 1.1.1.1 again
abbrev listed : List ℕ
listed = 134744072 ∷ 167772161 ∷ 16843009 ∷ 16843009 ∷ []

abbrev usable : List ℕ
usable = 16843009 ∷ 134744072 ∷ []

canonicalize_answer_safe_example :
    Climbs 0 usable
    × (1 ≤ length usable)
    × (length usable ≤ max_endpoint_candidates)
    × ((z : ℕ) → contains z usable ≡ true → (contains z listed ≡ true) × (is_safe false z ≡ true))
unfolding canonicalize_answer check_endpoint_ip
canonicalize_answer_safe_example = canonicalize_answer_safe false listed usable refl

abbrev shuffled : List ℕ
shuffled = 16843009 ∷ 167772161 ∷ 134744072 ∷ []

canonicalize_answer_unordered_example :
    canonicalize_answer true listed ≡ canonicalize_answer true shuffled
canonicalize_answer_unordered_example =
    canonicalize_answer_unordered true listed shuffled (λ z. ground arith)
