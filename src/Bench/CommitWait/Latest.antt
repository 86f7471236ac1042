-- ===== src/Bench/CommitWait/Latest.antt =====
-- The commit index that is read from the leader's logs.
use driftless.Prelude.{
  ℕ, ◌≤◌, ltb, String, true, Option, none, some, List, [], ◌∷◌, ◌++◌, nat_eq, ◌≡◌, refl, sym, ◌∙◌,
  arith, inl, inr, Bool-cases, Option-cases, All, All-append, flatten, contains, contains-append,
}
use mathlib.Core.List.{append_assoc, append-nil}
use driftless.Bench.FollowerRecovery.{LogEvent}
use driftless.Bench.CommitWait.{newer, see_events, see_pages}

-- The greatest of the numbers, if there is one.
abbrev pub IsGreatest : List ℕ → Option ℕ → Type 0
IsGreatest ns none = ns ≡ []
IsGreatest ns (some top) = (contains ns top ≡ true) × All (λ n. n ≤ top) ns

All-le : (a b : ℕ) (ns : List ℕ) → a ≤ b → All (λ n. n ≤ a) ns → All (λ n. n ≤ b) ns
All-le a b [] h all = tt
All-le a b (n ∷ ns) h all = (omega (arith, all.0), All-le a b ns h all.1)

module _ (commit_of : String → Option ℕ) where
  -- The indices that the events tell, in their order.
  abbrev pub readings : List LogEvent → List ℕ
  readings [] = []
  readings (ev ∷ events) = elim (commit_of ev.message) [
    | none ↦ readings events
    | some ci ↦ ci ∷ readings events
  ]

  newer-IsGreatest :
      (ci : ℕ) (ns : List ℕ) (latest : Option ℕ)
      → IsGreatest ns latest
      → IsGreatest (ns ++ ci ∷ []) (newer commit_of (some ci) latest)
  unfolding newer
  newer-IsGreatest ci ns none h = rw h (ground arith, (ground arith, tt))
  newer-IsGreatest ci ns (some l) h = elim (Bool-cases (ltb l ci)) [
    | inl above ↦ rw above (
      ground (arith, contains-append ns (ci ∷ []) ci),
      All-append (λ n. n ≤ ci) ns (ci ∷ []) (All-le l ci ns (ground arith) h.1) (ground arith, tt),
    )
    | inr below ↦ rw below (
      ground (arith, contains-append ns (ci ∷ []) l, h.0),
      All-append (λ n. n ≤ l) ns (ci ∷ []) h.1 (ground arith, tt),
    )
  ]

  see_events-IsGreatest :
      (events : List LogEvent) (ns : List ℕ) (latest : Option ℕ)
      → IsGreatest ns latest
      → IsGreatest (ns ++ readings events) (see_events commit_of events latest)
  unfolding see_events
  see_events-IsGreatest [] ns latest h = rw (append-nil ns) h
  see_events-IsGreatest (ev ∷ events) ns latest h = elim (Option-cases (commit_of ev.message)) [
    | inl unread ↦ rw (unread, readings, newer) (see_events-IsGreatest events ns latest h)
    | inr (ci, read) ↦
        rw (read, readings, ← append_assoc ns (ci ∷ []) (readings events))
          (see_events-IsGreatest events (ns ++ ci ∷ []) _ (newer-IsGreatest ci ns latest h))
  ]

  see_events-append :
      (xs ys : List LogEvent) (latest : Option ℕ)
      → see_events commit_of (xs ++ ys) latest
        ≡ see_events commit_of ys (see_events commit_of xs latest)
  unfolding see_events
  see_events-append [] ys latest = refl
  see_events-append (x ∷ xs) ys latest =
      see_events-append xs ys (newer commit_of (commit_of x.message) latest)

  see_pages-flatten :
      (pages : List (List LogEvent)) (latest : Option ℕ)
      → see_pages commit_of pages latest ≡ see_events commit_of (flatten pages) latest
  unfolding see_pages see_events
  see_pages-flatten [] latest = refl
  see_pages-flatten (page ∷ pages) latest =
      see_pages-flatten pages (see_events commit_of page latest)
      ∙ sym (see_events-append page (flatten pages) latest)

  -- The commit index that is found over all pages is the greatest that an event tells; none is found
  -- exactly if no event tells one.
  pub see_pages-IsGreatest :
      (pages : List (List LogEvent))
      → IsGreatest (readings (flatten pages)) (see_pages commit_of pages none)
  see_pages-IsGreatest pages =
      rw (see_pages-flatten pages none) (see_events-IsGreatest (flatten pages) [] none refl)
