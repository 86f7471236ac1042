-- ===== src/Observer/Alerts/Cooldown.antt =====
-- The cooldown of `_maybe_send`: what SNS receives over any run of checks.
use driftless.Prelude.{
  ℕ, ◌+◌, ◌≤◌, ◌<◌, String, Bool, List, [], ◌∷◌, ◌≡◌, refl, inl, inr, arith, string_eq, ltb, lt→ltb,
  get_or, All, Bool-cases,
}
use driftless.Prelude.Dict.{Dict, lookup, insert, lookup-insert, lookup-insert_self}
use driftless.Observer.Cluster.{ClusterSnapshot}
use driftless.Observer.Alerts.Keeps.{Keeps, check_all-Keeps}
use driftless.Observer.Alerts.{AlertManager, Publish, cooldown, init, maybe_send, check_all}

-- Two messages of the list with the same key lie a cooldown apart.
abbrev pub IsSpaced : List Publish → Type 0
IsSpaced [] = Unit
IsSpaced (p ∷ ps) = All (λ q. q.key ≡ p.key → q.at + cooldown ≤ p.at) ps × IsSpaced ps

-- Every message so far is at most as late as what is noted under its key.
abbrev IsNoted : Dict String ℕ → List Publish → Type 0
IsNoted d ps = All (λ q. q.at ≤ get_or (lookup q.key d) 0) ps

abbrev IsSound : AlertManager → Type 0
IsSound s = IsSpaced s.published × IsNoted s.last_sent s.published

IsNoted-insert :
    (key : String) (now : ℕ) (d : Dict String ℕ) (ps : List Publish)
    → get_or (lookup key d) 0 ≤ now
    → IsNoted d ps
    → IsNoted (insert key now d) ps
IsNoted-insert key now d [] late h = tt
IsNoted-insert key now d (q ∷ ps) late h = (
  ground (arith, lookup-insert key q.key now d, string_eq.same_iff q.key key),
  IsNoted-insert key now d ps late h.1,
)

apart_of_noted :
    (key : String) (now : ℕ) (d : Dict String ℕ) (ps : List Publish)
    → get_or (lookup key d) 0 + cooldown ≤ now
    → IsNoted d ps
    → All (λ q. q.key ≡ key → q.at + cooldown ≤ now) ps
apart_of_noted key now d [] late h = tt
apart_of_noted key now d (q ∷ ps) late h =
    (λ e. ground (arith, h.0), apart_of_noted key now d ps late h.1)

module _ (clock : ℕ → ℕ) (accepts : Publish → Bool) where
  maybe_send-IsSound :
      (key subject body : String) → Keeps IsSound (maybe_send clock accepts key subject body)
  unfolding maybe_send
  maybe_send-IsSound key subject body s h = elim (Bool-cases (ltb now (last + cooldown))) [
    | inl recent ↦ rw recent h
    | inr due ↦
        let late : last + cooldown ≤ now = ground arith in
        let kept = IsNoted-insert key now s.last_sent s.published (omega arith) h.1 in
        elim (Bool-cases s.disable_sns) [
          | inl disabled ↦ rw (due, disabled) (h.0, kept)
          | inr enabled ↦
              rw (due, enabled)
                (
                  (apart_of_noted key now s.last_sent s.published late h.1, h.0),
                  (ground (arith, lookup-insert_self key now s.last_sent), kept),
                )
        ]
  ]
    where
      now : ℕ
      now = clock s.reads

      last : ℕ
      last = get_or (lookup key s.last_sent) 0

  -- Over any sequence of snapshots, and whatever the clock and SNS answer, two messages handed to
  -- SNS under the same key lie at least the cooldown of 120 s apart.
  pub check_all-IsSpaced :
      (topic_arn : String) (disable_sns : Bool) (snaps : List ClusterSnapshot)
      → IsSpaced (check_all clock accepts snaps (init topic_arn disable_sns)).published
  unfolding init
  check_all-IsSpaced topic_arn disable_sns snaps =
      (check_all-Keeps clock accepts IsSound maybe_send-IsSound (λ s since reads h. h) snaps _
        (tt, tt)).0

-- Nothing was noted and nothing was sent.
abbrev IsSilent : AlertManager → Type 0
IsSilent s = (s.last_sent ≡ []) × (s.published ≡ [])

module _ (clock : ℕ → ℕ) (accepts : Publish → Bool) (early : (i : ℕ) → clock i < cooldown) where
  maybe_send-IsSilent :
      (key subject body : String) → Keeps IsSilent (maybe_send clock accepts key subject body)
  unfolding maybe_send lookup
  maybe_send-IsSilent key subject body s (noted, sent) =
      let base = lt→ltb (clock s.reads) cooldown (early s.reads) in rw noted (rw base (refl, sent))

  -- While the monotonic clock reads less than 120 s, as it does on a host that has just started,
  -- no check hands SNS any message, and no key is noted, whatever the snapshots show: a key that
  -- was never sent counts as sent at 0.
  pub check_all-IsSilent :
      (topic_arn : String) (disable_sns : Bool) (snaps : List ClusterSnapshot)
      → ((check_all clock accepts snaps (init topic_arn disable_sns)).last_sent ≡ [])
        × ((check_all clock accepts snaps (init topic_arn disable_sns)).published ≡ [])
  unfolding init
  check_all-IsSilent topic_arn disable_sns snaps =
      check_all-Keeps clock accepts IsSilent maybe_send-IsSilent (λ s since reads h. h) snaps _
        (refl, refl)
