-- ===== src/Bench/Reset/Returns.antt =====
-- A reset on a cluster that comes up again.
use driftless.Prelude.{
  ℕ, ◌+◌, ◌<◌, suc, ltb, String, Bool, true, false, Option, none, some, List, [], ◌∷◌, ◌++◌, ◌≡◌,
  refl, sym, ap, ◌∙◌, arith, length, flatten, filter_by,
}
use mathlib.Core.List.{map, append-nil, map-append}
use driftless.Bench.Result.{Result, ok, raise, Error, runtime_error}
use driftless.Bench.Deadline.{IsPaced, IsEnded, loop-IsEnded, IsEnded-found}
use driftless.Bench.Reset.{
  Call, delete_objects, stop_task, Site, delete_pages, stop_tasks, stop_services, ready, await_from,
  await_quorum, reset_cluster,
}

abbrev is_listed : List String → Bool
is_listed [] = false
is_listed (k ∷ keys) = true

-- The calls of a reset that goes through: a deletion for each page of the listing that is not empty,
-- and a stop of each task that runs.
abbrev pub deletions : List (List String) → List Call
deletions pages = map delete_objects (filter_by is_listed pages)

abbrev pub all_stops : (String → List String) → List String → List Call
all_stops running services = map stop_task (flatten (map running services))

some-injective : {A : Type 0} {a b : A} → some a ≡ some b → a ≡ b
some-injective h = cc

module _ (site : Site) where
  -- What turn `k` finds: an exception, or the quorum.
  abbrev pub verdict : Result Bool → Option (Result (Unit {0}))
  verdict (raise e) = some (raise e)
  verdict (ok true) = some (ok tt)
  verdict (ok false) = none

  verdict_ok :
      (o : Result Bool) {r : Result (Unit {0})}
      → ((e : Error) → o ≡ raise e → ⊥)
      → verdict o ≡ some r
      → r ≡ ok tt
  verdict_ok (raise e) works h = absurd (works e refl)
  verdict_ok (ok true) works h = sym (some-injective h)
  verdict_ok (ok false) works h = absurd (cc)

  await_from-found :
      (want deadline f j : ℕ) {r : Result (Unit {0})}
      → ltb (site.checked j) deadline ≡ true
      → verdict (ready site want j) ≡ some r
      → await_from site want deadline (suc f) j ≡ r
  unfolding await_from
  await_from-found want deadline f j {r} soon h = of _ refl h
    where
      of :
          (o : Result Bool)
          → ready site want j ≡ o
          → verdict o ≡ some r
          → await_from site want deadline (suc f) j ≡ r
      of (raise e) same g = rw (soon, await_from) (rw (same, await_from) (some-injective g))
      of (ok true) same g = rw (soon, await_from) (rw (same, await_from) (some-injective g))
      of (ok false) same g = absurd (cc)

  await_from-none :
      (want deadline f j : ℕ)
      → ltb (site.checked j) deadline ≡ true
      → verdict (ready site want j) ≡ none
      → await_from site want deadline (suc f) j ≡ await_from site want deadline f (j + 1)
  unfolding await_from
  await_from-none want deadline f j soon h = of _ refl h
    where
      of :
          (o : Result Bool)
          → ready site want j ≡ o
          → verdict o ≡ none
          → await_from site want deadline (suc f) j ≡ await_from site want deadline f (j + 1)
      of (raise e) same g = absurd (cc)
      of (ok true) same g = absurd (cc)
      of (ok false) same g = rw (soon, await_from) (rw (same, await_from) refl)

  -- The wait of a reset, where each sleep lets the clock go on, ends: with the first scan in time
  -- that fails or shows the quorum, or else with a RuntimeError at the first test after the deadline.
  pub await_quorum-IsEnded :
      (want timeout_ns : ℕ)
      → IsPaced site.started site.checked
      → IsEnded site.checked
          (λ k. verdict (ready site want k))
          (site.started + timeout_ns)
          (raise runtime_error)
          0
          (await_quorum site want timeout_ns)
  unfolding await_quorum await_from
  await_quorum-IsEnded want timeout_ns paced =
      loop-IsEnded site.checked (λ k. verdict (ready site want k)) (site.started + timeout_ns)
        (raise runtime_error) (λ f j r. r ≡ await_from site want (site.started + timeout_ns) f j)
        (λ f j r late e.
          let past : ltb (site.checked j) (site.started + timeout_ns) ≡ false = ground arith in
          e ∙ rw (past, await_from) refl)
        (λ f j r r' early here e.
          e ∙ await_from-found want (site.started + timeout_ns) f j (ground arith) here)
        (λ f j r early still e.
          e ∙ await_from-none want (site.started + timeout_ns) f j (ground arith) still)
        paced timeout_ns 0 (omega (arith, paced.first)) _ refl

  module _ (deletes : (keys : List String) → site.deletes keys ≡ ok tt)
      (stops : (arn : String) → site.stops arn ≡ ok tt) where
    delete_pages-ok :
        (pages : List (List String)) → delete_pages site pages ≡ (ok tt, deletions pages)
    unfolding delete_pages
    delete_pages-ok [] = refl
    delete_pages-ok ([] ∷ pages) = delete_pages-ok pages
    delete_pages-ok ((k ∷ keys) ∷ pages) =
        rw (deletes (k ∷ keys), delete_pages, delete_pages-ok pages) refl

    stop_tasks-ok : (arns : List String) → stop_tasks site arns ≡ (ok tt, map stop_task arns)
    unfolding stop_tasks
    stop_tasks-ok [] = refl
    stop_tasks-ok (a ∷ arns) = rw (stops a, stop_tasks, stop_tasks-ok arns) refl

    stop_services-ok :
        (running : String → List String)
        → ((svc : String) → site.list_tasks svc ≡ ok (running svc))
        → (services : List String)
        → stop_services site services ≡ (ok tt, all_stops running services)
    unfolding stop_services
    stop_services-ok running lists [] = refl
    stop_services-ok running lists (svc ∷ services) =
        rw
          (
            lists svc,
            stop_services,
            stop_tasks-ok (running svc),
            stop_services-ok running lists services,
          )
          (ap (λ l. (ok tt, l))
            (sym (map-append stop_task (running svc) (flatten (map running services)))))

    -- If no call fails, each sleep lets the clock go on, and the scan of some turn before the deadline
    -- shows the quorum, then a reset returns, and it has deleted every listed snapshot and stopped
    -- every running task of the services.
    pub reset_cluster-returns :
        (running : String → List String) (services : List String) (timeout_ns k : ℕ)
        → ((svc : String) → site.list_tasks svc ≡ ok (running svc))
        → ((i : ℕ) (e : Error) → ready site (length services) i ≡ raise e → ⊥)
        → IsPaced site.started site.checked
        → site.checked k < site.started + timeout_ns
        → ready site (length services) k ≡ ok true
        → reset_cluster site services timeout_ns
          ≡ (ok tt, deletions site.pages ++ all_stops running services)
    unfolding reset_cluster
    reset_cluster-returns running services timeout_ns k lists works paced soon up =
        let (i, seen) =
          IsEnded-found site.checked _ _ _ paced k soon (ap verdict up)
            (await_quorum-IsEnded (length services) timeout_ns paced) in
        let back : await_quorum site (length services) timeout_ns ≡ ok tt =
          verdict_ok (ready site (length services) i) (works i) seen in
        rw (delete_pages-ok site.pages, stop_services-ok running lists services, back)
          (ap (λ l. (ok tt, deletions site.pages ++ l)) (append-nil _))
