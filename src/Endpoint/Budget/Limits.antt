-- ===== src/Endpoint/Budget/Limits.antt =====
-- src/endpoint.rs, `precharge_fallback_state`: what the durable limits leave of each grant.
use udp2raw_rust.Prelude.{
  ℕ, suc, ◌+◌, ◌≤◌, ◌<◌, ◌≡◌, refl, ap, ◌∙◌, inl, inr, false, ◌||◌, List, [], ◌∷◌, ◌++◌, arith, ltb,
  leb, ◌==◌, Bool-cases, IfSome, length, length-append, u32_max,
}
use udp2raw_rust.Endpoint.Budget.{
  BudgetEntry, FallbackState, Policy, Charge, missing, denied, charged_in, refill, charge_entry,
  charge_in, in_place, behind, first_charge, insert_recent, sort_recent, settle, spend,
  charge_refilled, precharge_fallback_state, max_budget_entries, is_key,
}

ltb_of_leb-false : (a b : ℕ) → leb a b ≡ false → b < a
ltb_of_leb-false a b h = ground arith

abbrev pub total_charged : List BudgetEntry → ℕ
total_charged [] = 0
total_charged (e ∷ es) = e.charged + total_charged es

abbrev pub AllWithin : ℕ → List BudgetEntry → Type 0
AllWithin top [] = Unit
AllWithin top (e ∷ es) = (e.charged ≤ top) × AllWithin top es

total-insert_recent :
    (e : BudgetEntry) (es : List BudgetEntry)
    → (total_charged (insert_recent e es) ≡ e.charged + total_charged es)
      × (length (insert_recent e es) ≡ suc (length es))
unfolding insert_recent
total-insert_recent e [] = (omega arith, refl)
total-insert_recent e (f ∷ fs) = ground (arith, total-insert_recent e fs)

total-sort_recent :
    (es : List BudgetEntry)
    → (total_charged (sort_recent es) ≡ total_charged es) × (length (sort_recent es) ≡ length es)
unfolding sort_recent
total-sort_recent [] = (refl, refl)
total-sort_recent (e ∷ es) =
    ground (arith, total-sort_recent es, total-insert_recent e (sort_recent es))

AllWithin-insert_recent :
    (top : ℕ) (e : BudgetEntry) (es : List BudgetEntry)
    → e.charged ≤ top
    → AllWithin top es
    → AllWithin top (insert_recent e es)
unfolding insert_recent
AllWithin-insert_recent top e [] h a = (h, tt)
AllWithin-insert_recent top e (f ∷ fs) h a = ground (arith, AllWithin-insert_recent top e fs)

AllWithin-sort_recent :
    (top : ℕ) (es : List BudgetEntry) → AllWithin top es → AllWithin top (sort_recent es)
unfolding sort_recent
AllWithin-sort_recent top [] a = tt
AllWithin-sort_recent top (e ∷ es) a =
    AllWithin-insert_recent top e (sort_recent es) a.0 (AllWithin-sort_recent top es a.1)

-- What a charge of an existing entry does to the table.
abbrev ChargedAs : ℕ → List BudgetEntry → Charge → Type 0
ChargedAs top es missing = Unit
ChargedAs top es denied = Unit
ChargedAs top es (charged_in fs) =
    (total_charged fs ≡ total_charged es + 1) × (length fs ≡ length es) × AllWithin top fs

behind-ChargedAs :
    (top : ℕ) (x : BudgetEntry) (es : List BudgetEntry) (c : Charge)
    → x.charged ≤ top
    → ChargedAs top es c
    → ChargedAs top (x ∷ es) (behind x c)
behind-ChargedAs top x es missing h k = tt
behind-ChargedAs top x es denied h k = tt
behind-ChargedAs top x es (charged_in fs) h k = (omega arith, omega arith, (h, k.2))

-- The two limits of the policy fit their words.
pub record IsSane (policy : Policy) : Type 0 where
  pub attempts_fit : policy.max_attempts ≤ u32_max
  pub some_attempt : 1 ≤ policy.max_attempts

module _ (policy : Policy) (sane : IsSane policy) (wall : ℕ) where
  entry-ChargedAs :
      (x : BudgetEntry) (es : List BudgetEntry)
      → AllWithin policy.max_attempts (x ∷ es)
      → ChargedAs policy.max_attempts (x ∷ es) (in_place (charge_entry policy wall x) es)
  unfolding charge_entry
  entry-ChargedAs x es a =
      elim (Bool-cases (leb policy.max_attempts x.charged || ltb wall x.not_before_unix_secs)) [
        | inl full ↦ rw full tt
        | inr open_entry ↦ rw open_entry (ground arith, refl, (ground arith, a.1))
      ]

  charge_in-ChargedAs :
      (candidate : ℕ) (dns_set : List ℕ) (es : List BudgetEntry)
      → AllWithin policy.max_attempts es
      → ChargedAs policy.max_attempts es (charge_in policy wall candidate dns_set es)
  unfolding charge_in
  charge_in-ChargedAs candidate dns_set [] a = tt
  charge_in-ChargedAs candidate dns_set (x ∷ es) a =
      elim (Bool-cases (is_key candidate dns_set x)) [
        | inl same ↦ rw same (entry-ChargedAs x es a)
        | inr other ↦ rw other (
            behind-ChargedAs policy.max_attempts x es (charge_in policy wall candidate dns_set es)
              a.0 (charge_in-ChargedAs candidate dns_set es a.1))
      ]

-- The table after any number of grants.
pub record IsBudget (policy : Policy) (grants : ℕ) (s : FallbackState) : Type 0 where
  pub total : total_charged s.entries ≡ grants
  pub few : length s.entries ≤ max_budget_entries
  pub within : AllWithin policy.max_attempts s.entries

total-append_one :
    (es : List BudgetEntry) (e : BudgetEntry) (top : ℕ)
    → AllWithin top es
    → e.charged ≤ top
    → (total_charged (es ++ e ∷ []) ≡ total_charged es + e.charged) × AllWithin top (es ++ e ∷ [])
total-append_one [] e top a h = (omega arith, (h, tt))
total-append_one (x ∷ es) e top a h =
    let rest = total-append_one es e top a.1 h in (omega (arith, rest.0), (a.0, rest.1))

spend-IsBudget :
    (policy : Policy) (s : FallbackState) (fs : List BudgetEntry) (grants : ℕ)
    → total_charged fs ≡ grants + 1
    → length fs ≤ max_budget_entries
    → AllWithin policy.max_attempts fs
    → IsBudget policy (grants + 1) (spend s fs)
spend-IsBudget policy s fs grants t l a = record {
  total = (total-sort_recent fs).0 ∙ t;
  few = omega (arith, total-sort_recent fs);
  within = AllWithin-sort_recent policy.max_attempts fs a;
}

module _ (policy : Policy) (sane : IsSane policy) (wall candidate : ℕ) (dns_set : List ℕ) where
  settle-IsBudget :
      (s : FallbackState) (grants : ℕ) (c : Charge)
      → IsBudget policy grants s
      → ChargedAs policy.max_attempts s.entries c
      → IfSome (IsBudget policy (grants + 1)) (settle policy wall candidate dns_set s c)
  settle-IsBudget s grants denied b k = tt
  settle-IsBudget s grants (charged_in fs) b k =
      spend-IsBudget policy s fs grants (omega (arith, b.total)) (omega (arith, b.few)) k.2
  settle-IsBudget s grants missing b k =
      elim (Bool-cases (leb max_budget_entries (length s.entries))) [
        | inl full ↦ rw full tt
        | inr room ↦
            let e = first_charge policy wall candidate dns_set in
            let added =
              total-append_one s.entries e policy.max_attempts b.within sane.some_attempt in
            rw room (
              spend-IsBudget policy s _ grants (omega (arith, added.0, b.total))
                (omega (arith, length-append s.entries (e ∷ []), ltb_of_leb-false _ _ room))
                added.1)
      ]

  charge_refilled-IsBudget :
      (s : FallbackState) (grants : ℕ)
      → IsBudget policy grants s
      → IfSome (IsBudget policy (grants + 1)) (charge_refilled policy wall candidate dns_set s)
  unfolding charge_refilled
  charge_refilled-IsBudget s grants b = elim (Bool-cases (s.global_tokens == 0)) [
    | inl empty ↦ rw empty tt
    | inr some_left ↦ rw some_left (
        settle-IsBudget s grants _ b
          (charge_in-ChargedAs policy sane wall candidate dns_set s.entries b.within))
  ]

  refill-entries : (s : FallbackState) → (refill policy wall s).entries ≡ s.entries
  unfolding refill
  refill-entries s = ground arith

  pub precharge-IsBudget :
      (s : FallbackState) (grants : ℕ)
      → IsBudget policy grants s
      → IfSome
          (IsBudget policy (grants + 1))
          (precharge_fallback_state s policy wall candidate dns_set)
  unfolding precharge_fallback_state
  precharge-IsBudget s grants b = charge_refilled-IsBudget (refill policy wall s) grants (record {
    total = ap total_charged (refill-entries s) ∙ b.total;
    few = rw (refill-entries s) b.few;
    within = rw (refill-entries s) b.within;
  })
