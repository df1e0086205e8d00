-- ===== src/Endpoint/Budget.antt =====
-- src/endpoint.rs, `precharge_fallback_state`: the durable limits on probes of an old address, a
-- token bucket over all candidates and a budget with a cooldown for each candidate and DNS set.
pub mod Limits
pub mod Rate
use udp2raw_rust.Prelude.{
  ℕ, zero, suc, ◌+◌, ◌-◌, ◌*◌, ◌/◌, ◌%◌, ◌^◌, ◌≤◌, ◌<◌, min, max, bit_and, bit_or, bit_xor, ◌≡◌,
  refl, sym, ap, ap₂, ◌∙◌, subst, ◌≢◌, ◌↔◌, ◌⊎◌, inl, inr, Bool, true, false, not, ◌&&◌, ◌||◌,
  Option, none, some, List, [], ◌∷◌, ◌++◌, map, append-nil, append_assoc, arith, dec_lt, ℕ_discrete,
  ltb, leb, ◌==◌, if◌then◌else◌, ◌>>=◌, ◌>>◌, guard, ltb→lt, lt→ltb, leb→le, ==_iff, ==-refl, tests,
  Bool-cases, Option-cases, IfSome, IfSome-some, zero-bit_xor, differ_bits, bit_xor_parts,
  bit_xor_cancel, zero-bit_or, le-bit_or, bit_xor-lt, bit_xor-eq-zero, bit_xor_self, length, set,
  get_or, take, drop, replicate, length-append, length-set, get_or-set_self, get_or-set_ne,
  length-replicate, get_or-replicate, length-take, length-drop, take-append, drop-append,
  take-append-drop, take_of_length-le, drop-append_past, get_or-append_past, get_or-append_before,
  drop_of_length-le, u64_max, u32_max, sat_add, sat_mul, sat_add32, clamp, byte_at, ◌<<<◌, ◌>>>◌,
  AreBytes, append-AreBytes, take-AreBytes, drop-AreBytes, replicate-AreBytes,
}

abbrev pub max_budget_entries : ℕ
max_budget_entries = 16

-- An IPv4 address is its number, as `u32::from` gives it.
pub record BudgetEntry : Type 0 where
  pub candidate : ℕ
  pub dns_set : List ℕ
  pub charged : ℕ
  pub not_before_unix_secs : ℕ
  pub last_used_unix_secs : ℕ

pub record FallbackState : Type 0 where
  pub global_tokens : ℕ
  pub global_updated_unix_secs : ℕ
  pub entries : List BudgetEntry

unfoldable pub new : ℕ → ℕ → FallbackState
new capacity wall_now = record {
  global_tokens = capacity;
  global_updated_unix_secs = wall_now;
  entries = [];
}

-- `LastGoodFallbackPolicy`
pub record Policy : Type 0 where
  pub enabled : Bool
  pub after_failures : ℕ
  pub max_attempts : ℕ
  pub cooldown_ms : ℕ
  pub max_age_ms : ℕ
  pub global_capacity : ℕ
  pub global_refill_ms : ℕ
  pub preferred_round_timeout_ms : ℕ
  pub probation_ms : ℕ
  pub rollback_window_ms : ℕ

abbrev pub same_list : List ℕ → List ℕ → Bool
same_list [] [] = true
same_list [] (y ∷ ys) = false
same_list (x ∷ xs) [] = false
same_list (x ∷ xs) (y ∷ ys) = x == y && same_list xs ys

abbrev pub is_key : ℕ → List ℕ → BudgetEntry → Bool
is_key candidate dns_set e = e.candidate == candidate && same_list e.dns_set dns_set

abbrev pub refill_secs : Policy → ℕ
refill_secs policy = sat_add policy.global_refill_ms 999 / 1000

abbrev pub cooldown_secs : Policy → ℕ
cooldown_secs policy = sat_add policy.cooldown_ms 999 / 1000

-- Every interval that has passed is consumed, also when the bucket is full.
unfoldable pub refill : Policy → ℕ → FallbackState → FallbackState
refill policy wall_now s =
    let secs = refill_secs policy in
    if leb s.global_updated_unix_secs wall_now && ltb 0 secs
    then (let intervals = (wall_now - s.global_updated_unix_secs) / secs in
        if ltb 0 intervals
        then record s {
          global_tokens =
              min (sat_add32 s.global_tokens (min intervals u32_max)) policy.global_capacity;
          global_updated_unix_secs = sat_add s.global_updated_unix_secs (sat_mul intervals secs);
        }
        else s)
    else s

-- `position`, then the update of that entry in place.
pub data Charge : Type 0 where
  -- no entry has the key
  missing : Charge
  denied : Charge
  charged_in : List BudgetEntry → Charge

unfoldable pub charge_entry : Policy → ℕ → BudgetEntry → Option BudgetEntry
charge_entry policy wall_now e =
    if leb policy.max_attempts e.charged || ltb wall_now e.not_before_unix_secs
    then none
    else some (record e {
      charged = sat_add32 e.charged 1;
      not_before_unix_secs = sat_add wall_now (cooldown_secs policy);
      last_used_unix_secs = wall_now;
    })

abbrev pub in_place : Option BudgetEntry → List BudgetEntry → Charge
in_place none es = denied
in_place (some e) es = charged_in (e ∷ es)

abbrev pub behind : BudgetEntry → Charge → Charge
behind e missing = missing
behind e denied = denied
behind e (charged_in es) = charged_in (e ∷ es)

unfoldable pub charge_in : Policy → ℕ → ℕ → List ℕ → List BudgetEntry → Charge
charge_in policy wall_now candidate dns_set [] = missing
charge_in policy wall_now candidate dns_set (e ∷ es) =
    if is_key candidate dns_set e
    then in_place (charge_entry policy wall_now e) es
    else behind e (charge_in policy wall_now candidate dns_set es)

abbrev pub first_charge : Policy → ℕ → ℕ → List ℕ → BudgetEntry
first_charge policy wall_now candidate dns_set = record {
  candidate = candidate;
  dns_set = dns_set;
  charged = 1;
  not_before_unix_secs = sat_add wall_now (cooldown_secs policy);
  last_used_unix_secs = wall_now;
}

-- `sort_by_key(Reverse(last_used))`, which is stable.
unfoldable pub insert_recent : BudgetEntry → List BudgetEntry → List BudgetEntry
insert_recent e [] = e ∷ []
insert_recent e (f ∷ fs) =
    if leb f.last_used_unix_secs e.last_used_unix_secs then e ∷ f ∷ fs else f ∷ insert_recent e fs

unfoldable pub sort_recent : List BudgetEntry → List BudgetEntry
unfolding insert_recent
sort_recent [] = []
sort_recent (e ∷ es) = insert_recent e (sort_recent es)

abbrev pub spend : FallbackState → List BudgetEntry → FallbackState
spend s es = record s { global_tokens = s.global_tokens - 1; entries = sort_recent es }

abbrev pub settle : Policy → ℕ → ℕ → List ℕ → FallbackState → Charge → Option FallbackState
settle policy wall_now candidate dns_set s (charged_in es) = some (spend s es)
settle policy wall_now candidate dns_set s denied = none
settle policy wall_now candidate dns_set s missing =
    if leb max_budget_entries (length s.entries)
    then none
    else some (spend s (s.entries ++ first_charge policy wall_now candidate dns_set ∷ []))

unfoldable pub charge_refilled : Policy → ℕ → ℕ → List ℕ → FallbackState → Option FallbackState
charge_refilled policy wall_now candidate dns_set s =
    if s.global_tokens == 0
    then none
    else settle policy wall_now candidate dns_set s
        (charge_in policy wall_now candidate dns_set s.entries)

unfoldable pub precharge_fallback_state :
    FallbackState → Policy → ℕ → ℕ → List ℕ → Option FallbackState
unfolding refill charge_refilled charge_in charge_entry sort_recent
precharge_fallback_state s policy wall_now candidate dns_set =
    charge_refilled policy wall_now candidate dns_set (refill policy wall_now s)
