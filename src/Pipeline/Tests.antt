-- ===== src/Pipeline/Tests.antt =====
-- The theorems on the pipeline at a concrete run of two workers, the second faster than the first.
use udp2raw_rust.Prelude.{ℕ, zero, suc, ◌+◌, ◌≡◌, refl, List, [], ◌∷◌, ◌++◌, map, arith, replicate}
use udp2raw_rust.Pipeline.{new, collect}
use udp2raw_rust.Pipeline.Collect.{joined}
use udp2raw_rust.Pipeline.System.{
  Event, submits, flushes, collects, takes, sends, happen_all, started, IsOrdered,
  happen_all-IsOrdered,
}
use udp2raw_rust.Pipeline.Progress.{AreDone, collect_completes}

abbrev next : ℕ → ℕ
next j = j + 1

abbrev second_first : List (Event ℕ)
second_first =
    submits 10
    ∷ submits 20
    ∷ flushes
    ∷ submits 30
    ∷ flushes
    ∷ takes 1
    ∷ takes 0
    ∷ sends 1
    ∷ collects
    ∷ sends 0
    ∷ []

waits_for_the_first : (happen_all next (started next 2) second_first).delivered ≡ []
unfolding happen_all new replicate
waits_for_the_first = refl

then_in_order :
    (happen_all next (started next 2) (second_first ++ (collects ∷ []))).delivered
    ≡ 11 ∷ 21 ∷ 31 ∷ []
unfolding happen_all new replicate
then_in_order = refl

happen_all-IsOrdered_example : IsOrdered next 2 (happen_all next (started next 2) second_first)
happen_all-IsOrdered_example = happen_all-IsOrdered next 2 second_first (omega arith)

all_sent : AreDone next 2 (happen_all next (started next 2) second_first).pipe
unfolding happen_all new replicate
all_sent zero = refl
all_sent (suc zero) = refl
all_sent (suc (suc i)) = refl

collect_completes_example :
    (happen_all next (started next 2) second_first).delivered
      ++ (collect next (happen_all next (started next 2) second_first).pipe).0
    ≡ map next (joined (happen_all next (started next 2) second_first).handed)
collect_completes_example =
    collect_completes next 2 second_first (omega arith) all_sent
      (unfold happen_all new replicate in refl)
