-- ===== src/Bench/Submitter/Backed.antt =====
-- What a submission leaves in the stores, where a write may fail.
use driftless.Prelude.{
  ℕ, String, true, Option, none, some, List, [], ◌∷◌, ◌==◌, string_eq, ◌≡◌, refl, ap, inl, inr,
  is_some, All, All-append, Option-cases, Bool-cases,
}
use driftless.Prelude.Dict.{Dict, lookup, insert, lookup-insert, lookup-insert_self}
use driftless.Bench.Result.{ok, raise-ne-ok}
use driftless.Bench.Table.{Item, get_s}
use driftless.Bench.Submitter.{
  Message, Stores, Writes, SubmitResult, key_of, row_of, submit, poll_status,
}

-- A queued task has its row and its payload.
abbrev HasParts : Dict String String → Dict String Item → Message → Type 0
HasParts payloads tasks m =
    (is_some (lookup (key_of m.task_id) payloads) ≡ true)
    × (is_some (lookup m.task_id tasks) ≡ true)

abbrev pub IsBacked : Stores → Type 0
IsBacked w = All (HasParts w.payloads w.tasks) w.queue

kept {ℓ} :
    {V : Type ℓ} (k j : String) (v : V) (d : Dict String V)
    → is_some (lookup j d) ≡ true
    → is_some (lookup j (insert k v d)) ≡ true
kept k j v d h = elim (Bool-cases (j == k)) [
  | inl same ↦ rw (lookup-insert k j v d) (rw same refl)
  | inr other ↦ rw (lookup-insert k j v d) (rw other h)
]

HasParts-all :
    (payloads payloads' : Dict String String) (tasks tasks' : Dict String Item)
    (queue : List Message)
    → ((m : Message) → HasParts payloads tasks m → HasParts payloads' tasks' m)
    → All (HasParts payloads tasks) queue
    → All (HasParts payloads' tasks') queue
HasParts-all payloads payloads' tasks tasks' [] f h = tt
HasParts-all payloads payloads' tasks tasks' (m ∷ queue) f h =
    (f m h.0, HasParts-all payloads payloads' tasks tasks' queue f h.1)

module _ (writes : Writes) (task_id now : String) (submitted_ns : ℕ) (payload : String)
    (priority : ℕ) where
  -- Whichever of its writes fails, a submission never leaves a task in the queue whose row or
  -- payload is missing.
  pub submit-IsBacked :
      (w : Stores)
      → IsBacked w
      → IsBacked (submit writes task_id now submitted_ns payload priority w).1
  unfolding submit
  submit-IsBacked w h = elim (Option-cases writes.put_object) [
    | inr (e, failed) ↦ rw (failed, submit) h
    | inl stored ↦ elim (Option-cases writes.put_item) [
      | inr (e, failed) ↦ rw (stored, submit) (rw (failed, submit) with_payload)
      | inl written ↦ elim (Option-cases writes.send_message) [
        | inr (e, failed) ↦
            rw (stored, submit) (rw (written, submit) (rw (failed, submit) with_row))
        | inl sent ↦
            rw (stored, submit)
              (rw (written, submit)
                (rw (sent, submit)
                  (All-append (HasParts payloads' tasks') w.queue _ with_row (
                    (
                      ap is_some (lookup-insert_self (key_of task_id) payload w.payloads),
                      ap is_some (lookup-insert_self task_id (row_of task_id priority now) w.tasks),
                    ),
                    tt,
                  ))))
      ]
    ]
  ]
    where
      payloads' : Dict String String
      payloads' = insert (key_of task_id) payload w.payloads

      tasks' : Dict String Item
      tasks' = insert task_id (row_of task_id priority now) w.tasks

      with_payload : All (HasParts payloads' w.tasks) w.queue
      with_payload =
          HasParts-all w.payloads payloads' w.tasks w.tasks w.queue
            (λ m p. (kept (key_of task_id) (key_of m.task_id) payload w.payloads p.0, p.1)) h

      with_row : All (HasParts payloads' tasks') w.queue
      with_row =
          HasParts-all payloads' payloads' w.tasks tasks' w.queue
            (λ m p. (p.0, kept task_id m.task_id (row_of task_id priority now) w.tasks p.1))
            with_payload

  -- A task that was submitted is read as PENDING.
  pub poll_status-submit :
      (w : Stores) {r : SubmitResult}
      → (submit writes task_id now submitted_ns payload priority w).0 ≡ ok r
      → poll_status task_id (submit writes task_id now submitted_ns payload priority w).1
        ≡ some "PENDING"
  unfolding submit poll_status get_s lookup row_of
  poll_status-submit w h = elim (Option-cases writes.put_object) [
    | inr (e, failed) ↦ absurd (raise-ne-ok (rw (failed, submit) at h))
    | inl stored ↦ elim (Option-cases writes.put_item) [
      | inr (e, failed) ↦ absurd (raise-ne-ok (rw (failed, submit) at (rw (stored, submit) at h)))
      | inl written ↦ elim (Option-cases writes.send_message) [
        | inr (e, failed) ↦ absurd (
            raise-ne-ok
              (rw (failed, submit) at (rw (written, submit) at (rw (stored, submit) at h))))
        | inl sent ↦
            rw (stored, submit)
              (rw (written, submit)
                (rw (sent, submit)
                  (read (lookup-insert_self task_id (row_of task_id priority now) w.tasks))))
      ]
    ]
  ]
    where
      read :
          {o : Option Item}
          → o ≡ some (row_of task_id priority now)
          → (elim o [ none ↦ none | some item ↦ get_s "status" item ]) ≡ some "PENDING"
      read h = rw h refl
