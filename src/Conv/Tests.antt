-- ===== src/Conv/Tests.antt =====
-- The theorems on conversations at concrete managers.
use udp2raw_rust.Prelude.{ℕ, ◌+◌, ◌/◌, ◌≤◌, ◌≡◌, refl, List, [], ◌∷◌, ◌==◌, ==_iff, length}
use udp2raw_rust.Conv.{new, insert, clear_inactive}
use udp2raw_rust.Conv.Agreed.{IsAgreed}
use udp2raw_rust.Conv.Operations.{
  operate, operate_all, ConvOp, insert_call, update_call, expire_call, operate_all-IsAgreed,
}
use udp2raw_rust.Conv.Expiry.{AllOf, IsIdle, clear_inactive-IsIdle}

abbrev two_then_expire : List (ConvOp ℕ)
two_then_expire =
    insert_call 1 10 0 ∷ insert_call 2 20 0 ∷ update_call 1 5000 ∷ expire_call 180500 ∷ []

expires_the_older :
    (clear_inactive
      (◌==◌)
      (operate_all (◌==◌) new (insert_call 1 10 0 ∷ insert_call 2 20 0 ∷ update_call 1 5000 ∷ []))
      180500).0
    ≡ (2, 20) ∷ []
unfolding operate_all clear_inactive new
expires_the_older = refl

operate_all-IsAgreed_example : IsAgreed (◌==◌) ==_iff (operate_all (◌==◌) new two_then_expire)
operate_all-IsAgreed_example =
    unfold operate new in
    operate_all-IsAgreed (◌==◌) ==_iff two_then_expire
      ((refl, refl), ((refl, refl), (tt, (tt, tt))))

clear_inactive-IsIdle_example :
    AllOf
      (IsIdle (◌==◌) ==_iff (insert (◌==◌) new 1 10 0) 200000)
      ((clear_inactive (◌==◌) (insert (◌==◌) new 1 10 0) 200000).0)
    × (length ((clear_inactive (◌==◌) (insert (◌==◌) new 1 10 0) 200000).0)
        ≤ length (insert (◌==◌) new 1 10 0).lru / 30 + 1)
clear_inactive-IsIdle_example =
    clear_inactive-IsIdle (◌==◌) ==_iff (insert (◌==◌) new 1 10 0) 200000 (
      unfold operate_all operate new in
      operate_all-IsAgreed (◌==◌) ==_iff (insert_call 1 10 0 ∷ []) ((refl, refl), tt))
