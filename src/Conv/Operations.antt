-- ===== src/Conv/Operations.antt =====
-- The operations in any order, from an empty manager.
use udp2raw_rust.Prelude.{ℕ, ◌≡◌, refl, Bool, none, List, [], ◌∷◌, ◌==◌}
use udp2raw_rust.Conv.{ConvManager, new, insert, update_active_time, erase, clear, clear_inactive}
use udp2raw_rust.Conv.Assoc.{IsEq, get, mem}
use udp2raw_rust.Conv.Agreed.{IsAgreed, new-IsAgreed, insert-IsAgreed, update_active_time-IsAgreed}
use udp2raw_rust.Conv.Expiry.{erase-IsAgreed, clear_inactive-IsAgreed}

-- A call of one operation.
pub data ConvOp {ℓ} (T : Type ℓ) : Type ℓ where
  insert_call : ℕ → T → ℕ → ConvOp T
  update_call : ℕ → ℕ → ConvOp T
  erase_call : ℕ → ConvOp T
  clear_call : ConvOp T
  expire_call : ℕ → ConvOp T

module _ {ℓ} {T : Type ℓ} (same : T → T → Bool) where
  unfoldable pub operate : ConvManager T → ConvOp T → ConvManager T
  unfolding insert update_active_time erase clear clear_inactive
  operate m (insert_call conv d now) = insert same m conv d now
  operate m (update_call conv now) = update_active_time same m conv now
  operate m (erase_call conv) = (erase same m conv).1
  operate m clear_call = (clear same m).1
  operate m (expire_call now) = (clear_inactive same m now).1

  unfoldable pub operate_all : ConvManager T → List (ConvOp T) → ConvManager T
  unfolding operate
  operate_all m [] = m
  operate_all m (op ∷ ops) = operate_all (operate m op) ops

  -- An insertion takes a conversation and data that are not in use, as the callers test.
  abbrev pub IsFresh : ConvManager T → ConvOp T → Type ℓ
  IsFresh m (insert_call conv d now) =
      (get (◌==◌) m.conv_to_data conv ≡ none) × (get same m.data_to_conv d ≡ none)
  IsFresh m (update_call conv now) = Unit
  IsFresh m (erase_call conv) = Unit
  IsFresh m clear_call = Unit
  IsFresh m (expire_call now) = Unit

  abbrev pub AreFresh : ConvManager T → List (ConvOp T) → Type ℓ
  AreFresh m [] = Unit
  AreFresh m (op ∷ ops) = IsFresh m op × AreFresh (operate m op) ops

  clear-IsAgreed : (law : IsEq same) (m : ConvManager T) → IsAgreed same law ((clear same m).1)
  unfolding clear get mem
  clear-IsAgreed law m = record { paired = λ c x. refl; timed = λ c. refl; ordered = λ ts c. refl }

  operate-IsAgreed :
      (law : IsEq same) (m : ConvManager T) (op : ConvOp T)
      → IsAgreed same law m
      → IsFresh m op
      → IsAgreed same law (operate m op)
  unfolding operate
  operate-IsAgreed law m (insert_call conv d now) i fresh =
      insert-IsAgreed same law m conv d now i (fresh.0) (fresh.1)
  operate-IsAgreed law m (update_call conv now) i fresh =
      update_active_time-IsAgreed same law m conv now i
  operate-IsAgreed law m (erase_call conv) i fresh = erase-IsAgreed same law m conv i
  operate-IsAgreed law m clear_call i fresh = clear-IsAgreed law m
  operate-IsAgreed law m (expire_call now) i fresh = clear_inactive-IsAgreed same law m now i

  operate_all_from-IsAgreed :
      (law : IsEq same) (m : ConvManager T) (ops : List (ConvOp T))
      → IsAgreed same law m
      → AreFresh m ops
      → IsAgreed same law (operate_all m ops)
  unfolding operate_all
  operate_all_from-IsAgreed law m [] i fresh = i
  operate_all_from-IsAgreed law m (op ∷ ops) i fresh =
      operate_all_from-IsAgreed law (operate m op) ops (operate-IsAgreed law m op i (fresh.0))
        (fresh.1)

  -- From an empty manager, every sequence of insertions, updates, erasures and expiry passes leaves
  -- the three maps and the ordered set in agreement, where an insertion takes a conversation and data
  -- that are not in use and `same` decides equality: a conversation leads to data exactly when that
  -- data leads to the conversation, it has a time exactly when it has data, and the set holds exactly
  -- the conversations with their times.
  pub operate_all-IsAgreed :
      (law : IsEq same) (ops : List (ConvOp T))
      → AreFresh new ops
      → IsAgreed same law (operate_all new ops)
  operate_all-IsAgreed law ops fresh =
      operate_all_from-IsAgreed law new ops (new-IsAgreed same law) fresh
