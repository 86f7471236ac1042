-- ===== src/Observer/Dashboard/Rates.antt =====
-- What the commit rate says.
use driftless.Prelude.{
  ℕ, ◌+◌, ◌≤◌, ◌<◌, ltb, leb, Option, none, some, List, [], ◌∷◌, ◌++◌, ◌≡◌, refl, sym, ap, arith,
  All, All-filter_by, Bool, length, filter_by, Bool-cases, inl, inr,
}
use driftless.Observer.Dashboard.{
  Sample, Rate, throughput_window, last_of, window_of, rate_over, commit_rate,
}

-- The samples are in the order of their times, and their commit indices do not fall.
abbrev pub IsSteady : List Sample → Type 0
IsSteady [] = Unit
IsSteady (x ∷ xs) = All (λ y. (x.at ≤ y.at) × (x.commit ≤ y.commit)) xs × IsSteady xs

-- What the rate says of the samples of the last 10 s: there is none if they are fewer than two or
-- all at one time, and else it is the entries and the time from the first to the last of them.
abbrev pub IsRate : List Sample → Option Rate → Type 0
IsRate [] o = o ≡ none
IsRate (x ∷ []) o = o ≡ none
IsRate (x ∷ y ∷ ys) none = (last_of y ys).at ≡ x.at
IsRate (x ∷ y ∷ ys) (some r) =
    (x.commit + r.entries ≡ (last_of y ys).commit)
    × (x.at + r.ns ≡ (last_of y ys).at)
    × (0 < r.ns)
    × (r.ns ≤ 10000000000)

filter_by-IsSteady :
    (keep : Sample → Bool) (xs : List Sample) → IsSteady xs → IsSteady (filter_by keep xs)
filter_by-IsSteady keep [] h = tt
filter_by-IsSteady keep (x ∷ xs) h = elim (Bool-cases (keep x)) [
  | inl kept ↦ rw kept (All-filter_by _ keep xs h.0, filter_by-IsSteady keep xs h.1)
  | inr gone ↦ rw gone (filter_by-IsSteady keep xs h.1)
]

last_of-All :
    (P : Sample → Type 0) (x : Sample) (xs : List Sample) → P x → All P xs → P (last_of x xs)
last_of-All P x [] h all = h
last_of-All P x (y ∷ ys) h all = last_of-All P y ys all.0 all.1

in_window :
    (now : ℕ) (history : List Sample)
    → All (λ s. now ≤ s.at + throughput_window) (window_of now history)
unfolding window_of
in_window now [] = tt
in_window now (x ∷ xs) = elim (Bool-cases (leb now (x.at + throughput_window))) [
  | inl kept ↦ rw kept (ground arith, in_window now xs)
  | inr gone ↦ rw gone (in_window now xs)
]

rate_over-IsRate :
    (now : ℕ) (xs : List Sample)
    → IsSteady xs
    → All (λ s. s.at ≤ now) xs
    → All (λ s. now ≤ s.at + throughput_window) xs
    → IsRate xs (rate_over xs)
unfolding rate_over
rate_over-IsRate now [] steady past recent = refl
rate_over-IsRate now (x ∷ []) steady past recent = refl
rate_over-IsRate now (x ∷ y ∷ ys) steady past recent =
    let later =
      last_of-All (λ z. (x.at ≤ z.at) × (x.commit ≤ z.commit)) y ys steady.0.0 steady.0.1 in
    let ended : (last_of y ys).at ≤ now = last_of-All (λ z. z.at ≤ now) y ys past.1.0 past.1.1 in
    elim (Bool-cases (leb (last_of y ys).at x.at)) [
      | inl at_once ↦ rw at_once (ground (arith, later.0))
      | inr apart ↦ rw apart (
        omega (arith, later.1),
        omega (arith, later.0),
        ground (arith, later.0),
        omega (arith, recent.0, ended),
      )
    ]

-- The samples of the last 10 s are the end of the samples.
kept-all :
    (now at : ℕ) (xs : List Sample)
    → now ≤ at + throughput_window
    → All (λ y. at ≤ y.at) xs
    → window_of now xs ≡ xs
unfolding window_of
kept-all now at [] h later = refl
kept-all now at (x ∷ xs) h later = elim (Bool-cases (leb now (x.at + throughput_window))) [
  | inl kept ↦ rw kept (ap (◌∷◌ x) (kept-all now at xs h later.1))
  | inr gone ↦ absurd (ground (arith, later.0))
]

later-times :
    (at commit : ℕ) (xs : List Sample)
    → All (λ y. (at ≤ y.at) × (commit ≤ y.commit)) xs
    → All (λ y. at ≤ y.at) xs
later-times at commit [] h = tt
later-times at commit (x ∷ xs) h = (h.0.0, later-times at commit xs h.1)

-- The samples, as those that are older than 10 s and then those that are not.
abbrev pub IsSplit : ℕ → List Sample → List Sample → List Sample → Type 0
IsSplit now history old recent =
    (history ≡ old ++ recent)
    × All (λ s. s.at + 10000000000 < now) old
    × All (λ s. now ≤ s.at + 10000000000) recent

window-IsSplit :
    (now : ℕ) (xs : List Sample)
    → IsSteady xs
    → (old : List Sample) × IsSplit now xs old (window_of now xs)
unfolding window_of
window-IsSplit now [] steady = ([], (refl, tt, tt))
window-IsSplit now (x ∷ xs) steady = elim (Bool-cases (leb now (x.at + throughput_window))) [
  | inl kept ↦
      let all : window_of now xs ≡ xs =
        kept-all now x.at xs (ground (arith, kept)) (later-times x.at x.commit xs steady.0) in
      rw kept ([], (ap (◌∷◌ x) (sym all), tt, (ground (arith, kept), in_window now xs)))
  | inr gone ↦
      let (old, (same, before, recent)) = window-IsSplit now xs steady.1 in
      rw gone (x ∷ old, (ap (◌∷◌ x) same, (ground (arith, gone), before), recent))
]

commit_rate-window_of :
    (now : ℕ) (history : List Sample)
    → IsSteady history
    → All (λ s. s.at ≤ now) history
    → IsRate (window_of now history) (commit_rate now history)
unfolding commit_rate window_of
commit_rate-window_of now history steady past = elim (Bool-cases (ltb (length history) 2)) [
  | inl few ↦ rw few (of_few history (ground arith))
  | inr enough ↦ rw enough (
      rate_over-IsRate now (window_of now history) (filter_by-IsSteady _ history steady)
        (All-filter_by _ _ history past) (in_window now history))
]
  where
    of_few : (xs : List Sample) → length xs < 2 → IsRate (window_of now xs) none
    of_few [] h = refl
    of_few (x ∷ []) h = elim (Bool-cases (leb now (x.at + throughput_window))) [
      | inl kept ↦ rw kept refl
      | inr gone ↦ rw gone refl
    ]
    of_few (x ∷ y ∷ ys) h = absurd (omega arith)

-- For samples in the order of their times, with commit indices that do not fall, the commit rate is
-- that of the samples of the last 10 s, which are the last of the samples, and none if they are fewer
-- than two or all at one time.
pub commit_rate-IsRate :
    (now : ℕ) (history : List Sample)
    → IsSteady history
    → All (λ s. s.at ≤ now) history
    → (old : List Sample) × (recent : List Sample) × IsSplit now history old recent
      × IsRate recent (commit_rate now history)
commit_rate-IsRate now history steady past =
    let (old, split) = window-IsSplit now history steady in
    (old, window_of now history, split, commit_rate-window_of now history steady past)
