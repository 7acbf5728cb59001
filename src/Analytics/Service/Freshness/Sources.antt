-- ===== src/Analytics/Service/Freshness/Sources.antt =====
-- Where the summaries in the cache come from.
use stocktaking.Prelude.{
  ℕ, zero, suc, ◌≤◌, ◌≡◌, refl, inl, inr, not, Bool-cases, some, Option-cases, List, [], ◌∷◌,
  get_elem?, modify, All, All-kept, ◌==◌, ==→eq, arith,
}
use mathlib.Core.Option.{some-injective}
use mathlib.Core.Path.{subst}
use stocktaking.Prelude.Outcome.{ok, err}
use stocktaking.Floats.{FloatOps}
use stocktaking.Yield.Dates.{Result}
use stocktaking.Registry.Table.Laws.{All-keep_if}
use stocktaking.Analytics.Dto.{PortfolioSummary}
use stocktaking.Analytics.Summary.{Inputs, summary_from}
use stocktaking.Analytics.Service.{Cache, Moment, cached, store}
use stocktaking.Analytics.Service.Freshness.{
  Loaded, nothing, txns_read, bonds_read, all_read, Reader, Process, Happening, passes, begins,
  reads, computes, stores, without, advance, store_held, hold, conclude, compute_at, happen,
  Reachable, opened, happened,
}
use stocktaking.Analytics.Service.Freshness.Reads.{
  AllRead, Feeds, IsFed, all_older, Feeds-older, Feeds-next,
}

All-without : {A : Type 0} (P : A → Type 0) (i : ℕ) (c : List A) → All P c → All P (without i c)
All-without P i [] h = h
All-without P zero (x ∷ c) h = h.1
All-without P (suc i) (x ∷ c) h = (h.0, All-without P i c h.1)

All-elem :
    {A : Type 0} (P : A → Type 0) (i : ℕ) (c : List A) {e : A}
    → All P c
    → get_elem? c i ≡ some e
    → P e
All-elem P i [] h q = cc
All-elem P zero (x ∷ c) h q = subst P (some-injective _ _ q) h.0
All-elem P (suc i) (x ∷ c) h q = All-elem P i c h.1 q

module _ {W : Type 0} ⦃fl : FloatOps W⦄ where
  -- The summary was computed for its user, for the day and from the transactions, bonds and coupons
  -- that the day and the queries gave at moments that have been, each no earlier than the one before
  -- it, and with the clock of a moment no earlier than these.
  abbrev pub IsSourced : List (Moment W) → ℕ × PortfolioSummary W → Type 0
  IsSourced seen e =
      (day : ℕ) × (inputs : Inputs W) × (k : AllRead seen e.0 day inputs) × (at : ℕ) × (at
        ≤ k.coupons_at)
      × (m : Moment W) × (get_elem? seen at ≡ some m)
      × (summary_from inputs m.now e.0 day ≡ ok e.1)

  AllSourced : List (Moment W) → Process W → Type 0
  AllSourced seen p =
      (get_elem? seen 0 ≡ some p.moment)
      × All (IsSourced seen) p.cache
      × All (IsSourced seen) p.held
      × All (IsFed seen) p.readers

  older :
      (m : Moment W) (seen : List (Moment W)) (c : Cache W)
      → All (IsSourced seen) c
      → All (IsSourced (m ∷ seen)) c
  unfolding all_older
  older new seen c h =
      All-kept _ _
        (λ e (day, inputs, k, at, g, m, f, q).
          (day, inputs, all_older new seen e.0 day inputs k, suc at, omega (arith, g), m, f, q))
        c h

  older-IsFed :
      (m : Moment W) (seen : List (Moment W)) (rs : List (Reader W))
      → All (IsFed seen) rs
      → All (IsFed (m ∷ seen)) rs
  older-IsFed m seen rs h = All-kept _ _ (λ r k. Feeds-older m seen r.user r.day r.loaded k) rs h

  modify-IsFed :
      (m : Moment W) (seen : List (Moment W)) (i : ℕ) (rs : List (Reader W))
      → All (IsFed seen) rs
      → All (IsFed (m ∷ seen)) (modify rs i (advance m))
  modify-IsFed m seen i [] h = tt
  modify-IsFed m seen zero (r ∷ rs) (k, h) =
      (Feeds-next m seen r.user r.day r.loaded k, older-IsFed m seen rs h)
  modify-IsFed m seen (suc i) (r ∷ rs) (k, h) =
      (Feeds-older m seen r.user r.day r.loaded k, modify-IsFed m seen i rs h)

  unchanged :
      (seen : List (Moment W)) (p : Process W) → AllSourced seen p → AllSourced (p.moment ∷ seen) p
  unfolding AllSourced
  unchanged seen p (s0, s1, s2, s3) = (
    refl,
    older p.moment seen p.cache s1,
    older p.moment seen p.held s2,
    older-IsFed p.moment seen p.readers s3,
  )

  held_AllSourced :
      (i user day : ℕ) (inputs : Inputs W) (seen : List (Moment W)) (p : Process W)
      → AllSourced seen p
      → AllRead seen user day inputs
      → (o : Result (PortfolioSummary W)) → summary_from inputs p.moment.now user day ≡ o
      → AllSourced ((hold i user o p).moment ∷ seen) (hold i user o p)
  unfolding AllSourced hold
  held_AllSourced i user day inputs seen p (s0, s1, s2, s3) k (err x) q = (
    refl,
    older p.moment seen p.cache s1,
    older p.moment seen p.held s2,
    All-without _ i p.readers (older-IsFed p.moment seen p.readers s3),
  )
  held_AllSourced i user day inputs seen p (s0, s1, s2, s3) k (ok s) q = (
    refl,
    older p.moment seen p.cache s1,
    (
      (day, inputs, all_older p.moment seen user day inputs k, 0, omega arith, p.moment, refl, q),
      older p.moment seen p.held s2,
    ),
    All-without _ i p.readers (older-IsFed p.moment seen p.readers s3),
  )

  conclude-AllSourced :
      (i user day : ℕ) (l : Loaded W) (seen : List (Moment W)) (p : Process W)
      → AllSourced seen p
      → Feeds seen user day l
      → AllSourced ((conclude i user day l p).moment ∷ seen) (conclude i user day l p)
  unfolding conclude Feeds
  conclude-AllSourced i user day nothing seen p s k = unchanged seen p s
  conclude-AllSourced i user day (txns_read ts) seen p s k = unchanged seen p s
  conclude-AllSourced i user day (bonds_read ts bs) seen p s k = unchanged seen p s
  conclude-AllSourced i user day (all_read inputs) seen p s k =
      held_AllSourced i user day inputs seen p s k (summary_from inputs p.moment.now user day) refl

  happen-AllSourced :
      (h : Happening W) (seen : List (Moment W)) (p : Process W)
      → AllSourced seen p
      → AllSourced ((happen h p).moment ∷ seen) (happen h p)
  unfolding happen compute_at store_held store AllSourced Feeds
  happen-AllSourced (passes t day now) seen p (s0, s1, s2, s3) =
      (refl, older _ seen p.cache s1, older _ seen p.held s2, older-IsFed _ seen p.readers s3)
  happen-AllSourced (begins user) seen p (s0, s1, s2, s3) = (
    refl,
    older p.moment seen p.cache s1,
    older p.moment seen p.held s2,
    ((0, (p.moment, refl, refl)), older-IsFed p.moment seen p.readers s3),
  )
  happen-AllSourced (reads i) seen p (s0, s1, s2, s3) = (
    refl,
    older p.moment seen p.cache s1,
    older p.moment seen p.held s2,
    modify-IsFed p.moment seen i p.readers s3,
  )
  happen-AllSourced (computes i) seen p s = elim (Option-cases (get_elem? p.readers i)) [
    | inl gone ↦ rw (gone, happen, compute_at) (unchanged seen p s)
    | inr (r, q) ↦
        rw (q, happen, compute_at)
          (conclude-AllSourced i r.user r.day r.loaded seen p s (All-elem _ i p.readers s.3 q))
  ]
  happen-AllSourced (stores i) seen p s = elim (Option-cases (get_elem? p.held i)) [
    | inl gone ↦ rw (gone, happen, store_held) (unchanged seen p s)
    | inr (e, q) ↦
        let held = older p.moment seen p.held s.2 in
        rw (q, happen, store_held)
          (
            refl,
            (
              All-elem _ i p.held held q,
              All-keep_if _ (λ (x : ℕ × PortfolioSummary W). not (x.0 == e.0)) p.cache
                  (older p.moment seen p.cache s.1),
            ),
            All-without _ i p.held held,
            older-IsFed p.moment seen p.readers s.3,
          )
  ]

  Reachable-AllSourced :
      (start : Moment W) (seen : List (Moment W)) (p : Process W)
      → Reachable start seen p
      → AllSourced seen p
  unfolding AllSourced
  Reachable-AllSourced start _ _ opened = (refl, tt, tt, tt)
  Reachable-AllSourced start _ _ (happened h {seen = seen} {p = p} r) =
      happen-AllSourced h seen p (Reachable-AllSourced start seen p r)

  cached-IsSourced :
      (seen : List (Moment W)) (user : ℕ) (c : Cache W) {s : PortfolioSummary W}
      → All (IsSourced seen) c
      → cached user c ≡ some s
      → IsSourced seen (user, s)
  unfolding cached
  cached-IsSourced seen user [] h q = cc
  cached-IsSourced seen user ((i, v) ∷ c) {s} h q = elim (Bool-cases (i == user)) [
    | inl e ↦
        subst (λ u. IsSourced seen (u, s)) (==→eq i user e)
          (subst (λ x. IsSourced seen (i, x)) (some-injective _ _ (rw (e, cached) at q)) h.0)
    | inr e ↦ cached-IsSourced seen user c h.1 (rw (e, cached) at q)
  ]

  -- However computations by readers and handlers, each with its three queries, and the stores of their
  -- results interleave with changes of the tables and of the day, what the cache holds for a user is
  -- a summary of that user that was computed for the day on which its computation began, from the
  -- transactions, the bonds and the coupons of the tables of three moments from then on, in this
  -- order, which may differ.
  pub Reachable-cached :
      (start : Moment W) (seen : List (Moment W)) (p : Process W) (user : ℕ)
      (s : PortfolioSummary W)
      → Reachable start seen p
      → cached user p.cache ≡ some s
      → IsSourced seen (user, s)
  unfolding AllSourced
  Reachable-cached start seen p user s r q =
      cached-IsSourced seen user p.cache (Reachable-AllSourced start seen p r).1 q
