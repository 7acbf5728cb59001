-- ===== src/Bus/Step/Bounds/Kept.antt =====
-- What each operation of src/bond_accounting/event_bus/async_queue_bus.py does to one subscription.
use Prim.Native.String.{String}
use stocktaking.Prelude.{
  ℕ, zero, suc, ◌≤◌, ◌≡◌, refl, ◌⊎◌, inl, Bool, true, false, List, [], ◌∷◌, ◌++◌, arith, length,
  All, All-modify, modify,
}
use stocktaking.Prelude.Int.{ℤ, pos, negsuc}
use stocktaking.Bus.Message.{Message}
use stocktaking.Bus.Subscription.{
  Subscription, Task, warn_threshold, is_full, is_below, maybe_warn, accept, serve,
  ensure_dispatcher, clear,
}
use stocktaking.Bus.State.{Bus, ensure_listed, ensure_all, clear_all, new_subscription}

-- A size that is not positive bounds nothing.
abbrev pub Room : ℤ → ℕ → Type 0
Room (negsuc n) used = Unit
Room (pos zero) used = Unit
Room (pos (suc n)) used = used ≤ suc n

-- The queue is within its size, and the warning flag is set while it is at or above the threshold.
abbrev pub IsKept : {P : Type 0} → ℤ → Subscription P → Type 0
IsKept size s =
    Room size (length s.queue)
    × ((is_below (warn_threshold size) (length s.queue) ≡ true) ⊎ (s.warned_high_watermark ≡ true))

length-snoc : {A : Type 0} (xs : List A) (x : A) → length (xs ++ x ∷ []) ≡ suc (length xs)
length-snoc [] x = refl
length-snoc (y ∷ xs) x = ground (arith, length-snoc xs x)

Room-put : (size : ℤ) (used : ℕ) → is_full size used ≡ false → Room size used → Room size (suc used)
Room-put (negsuc n) used h r = tt
Room-put (pos zero) used h r = tt
Room-put (pos (suc n)) used h r = ground arith

Room-take : (size : ℤ) (used : ℕ) → Room size (suc used) → Room size used
Room-take (negsuc n) used r = tt
Room-take (pos zero) used r = tt
Room-take (pos (suc n)) used r = omega arith

Room-empty : (size : ℤ) → Room size 0
Room-empty (negsuc n) = tt
Room-empty (pos zero) = tt
Room-empty (pos (suc n)) = omega arith

below_empty : (size : ℤ) → is_below (warn_threshold size) 0 ≡ true
below_empty (negsuc n) = refl
below_empty (pos zero) = refl
below_empty (pos (suc n)) = ground arith

module _ {P : Type 0} (size : ℤ) where
  ensure_listed-IsKept :
      (i : ℕ) (s : Subscription P) (tasks : List (Task P))
      → IsKept size s
      → IsKept size (ensure_listed i s tasks).0
  unfolding ensure_listed ensure_dispatcher
  ensure_listed-IsKept i s tasks k = ground (arith, k)

  pub ensure_all-AllKept :
      (i : ℕ) (ss : List (Subscription P)) (tasks : List (Task P))
      → All (IsKept size) ss
      → All (IsKept size) (ensure_all i ss tasks).0
  unfolding ensure_all
  ensure_all-AllKept i [] tasks k = tt
  ensure_all-AllKept i (s ∷ ss) tasks (h, k) =
      (ensure_listed-IsKept i s tasks h, ensure_all-AllKept (suc i) ss _ k)

  pub accept-IsKept :
      (m : Message P) (s : Subscription P)
      → is_full size (length s.queue) ≡ false
      → IsKept size s
      → IsKept size (accept (warn_threshold size) m s)
  unfolding accept maybe_warn
  accept-IsKept m s h k =
      ground (arith, h, k, Room-put size (length s.queue) h, length-snoc s.queue m)

  pub serve-IsKept :
      (m : Message P) (rest : List (Message P)) (s : Subscription P)
      → s.queue ≡ m ∷ rest
      → IsKept size s
      → IsKept size (serve (warn_threshold size) rest s)
  unfolding serve
  serve-IsKept m rest s h k = ground (arith, h, k, Room-take size (length rest))

  pub clear-IsKept : (s : Subscription P) → IsKept size s → IsKept size (clear s)
  clear-IsKept s k = (Room-empty size, inl (below_empty size))

  pub clear_all-AllKept :
      (ks : List ℕ) (ss : List (Subscription P))
      → All (IsKept size) ss
      → All (IsKept size) (clear_all ks ss)
  unfolding clear_all
  clear_all-AllKept [] ss k = k
  clear_all-AllKept (i ∷ ks) ss k =
      clear_all-AllKept ks (modify ss i clear)
        (All-modify (IsKept size) ss i clear k (λ s _ h. clear-IsKept s h))

pub new_subscription-IsKept :
    {P E : Type 0} (size : ℤ) (topic : String) (h : Bool) (sender : String) (bus : Bus P E)
    → IsKept size (new_subscription topic h sender bus).0
unfolding new_subscription ensure_dispatcher
new_subscription-IsKept size topic h sender bus = ground (arith, Room-empty size, below_empty size)
