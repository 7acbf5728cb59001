-- ===== src/Bus/State/Calls.antt =====
-- When a call is accepted, and whom its message is for.
use Prim.Native.String.{String}
use text.Mathlib.Text.{◌==◌ as same_text}
use mathlib.Core.Path.{subst}
use stocktaking.Prelude.{
  ℕ, zero, suc, ◌+◌, ◌<◌, ◌≡◌, ◌↔◌, refl, Bool, true, false, ◌&&◌, ◌||◌, none, some, Option, List,
  [], ◌∷◌, ◌++◌, any, arith, get_elem?, ◌==◌,
}
use stocktaking.Prelude.Outcome.{ok}
use stocktaking.Bus.Message.{known, is_blank}
use stocktaking.Bus.Subscription.{Subscription}
use stocktaking.Bus.State.{
  Bus, Route, pending, snapshot_from, publish, request, with_route, has_request_handler,
}

-- The positions have this one among them.
abbrev pub names : ℕ → List ℕ → Bool
names i ks = any (λ (k : ℕ). k == i) ks

module _ {P : Type 0} (topic : String) where
  -- Registered, and on this topic.
  abbrev pub is_on : Option (Subscription P) → Bool
  is_on none = false
  is_on (some s) = s.listed && same_text s.topic topic

  snapshot_before :
      (ss : List (Subscription P)) (n i : ℕ) → i < n → names i (snapshot_from n topic ss) ≡ false
  unfolding snapshot_from
  snapshot_before [] n i h = refl
  snapshot_before (s ∷ ss) n i h =
      ground (arith, snapshot_before ss (suc n) i (omega (arith, h)), h)

  snapshot-names :
      (ss : List (Subscription P)) (n i : ℕ)
      → names (n + i) (snapshot_from n topic ss) ≡ is_on (get_elem? ss i)
  unfolding snapshot_from
  snapshot-names [] n i = refl
  snapshot-names (s ∷ ss) n zero = ground (arith, snapshot_before ss (suc n) n (omega arith))
  snapshot-names (s ∷ ss) n (suc i) = ground (arith, snapshot-names ss (suc n) i)

module _ {P E : Type 0} (topic : String) (p : P) (sender : String) (bus : Bus P E) where
  -- `publish` accepts a message exactly on a known topic, from a named sender, while the bus runs.
  pub publish-ok_iff :
      ((next : Bus P E) × (publish topic p sender bus ≡ ok next))
      ↔ ((known topic ≡ true) × (bus.running ≡ true) × (is_blank sender ≡ false))
  unfolding publish
  publish-ok_iff =
      (λ h. ground (arith, h.1), λ h. (with_route topic p sender bus, ground (arith, h)))

  -- An accepted message is on its way to exactly the subscriptions that are registered on its topic.
  pub publish-route :
      (next : Bus P E) (i : ℕ)
      → publish topic p sender bus ≡ ok next
      → (r : Route P) × (next.routes ≡ bus.routes ++ r ∷ [])
        × (r.message.payload ≡ p)
        × (names i r.rest ≡ is_on topic (get_elem? bus.subscriptions i))
  unfolding publish
  publish-route next i e = (
    record {
      message = record {
        topic = topic;
        payload = p;
        sender = sender;
        message_id = bus.next_id;
        reply_to = none;
      };
      rest = snapshot_from 0 topic bus.subscriptions;
    },
    ground (arith, e),
    refl,
    subst
        (λ (n : ℕ).
          names n (snapshot_from 0 topic bus.subscriptions)
          ≡ is_on topic (get_elem? bus.subscriptions i))
        (omega arith) (snapshot-names topic bus.subscriptions 0 i),
  )

  -- `request` accepts a message exactly on a known topic, from a named sender, while the bus runs, and
  -- with a timeout or a handler of requests that is registered on the topic.
  pub request-ok_iff :
      (timed : Bool)
      → ((next : Bus P E) × (request topic p sender timed bus ≡ ok next)) ↔ (
          (known topic ≡ true)
          × (bus.running ≡ true)
          × (is_blank sender ≡ false)
          × ((timed || has_request_handler topic bus) ≡ true))
  unfolding request
  request-ok_iff timed = (
    λ h. ground (arith, h.1),
    λ h. (
      record (with_route topic p sender bus) {
        requests =
            bus.requests
            ++ record { message_id = bus.next_id; future = pending; timed = timed; listed = true }
              ∷ [];
      },
      ground (arith, h),
    ),
  )
