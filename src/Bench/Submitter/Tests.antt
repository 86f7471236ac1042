-- ===== src/Bench/Submitter/Tests.antt =====
-- Submissions with and without a failure.
use driftless.Prelude.{none, some, [], ◌≡◌, refl}
use driftless.Bench.Result.{ok, Error}
use driftless.Bench.Submitter.{Stores, Writes, submit}
use driftless.Bench.Submitter.Backed.{IsBacked, submit-IsBacked}

abbrev empty : Stores
empty = record { payloads = []; tasks = []; queue = [] }

abbrev all_good : Writes
all_good = record { put_object = none; put_item = none; send_message = none }

abbrev no_queue : Writes
no_queue = record { put_object = none; put_item = none; send_message = some Error.client_error }

abbrev one_queued : Stores
one_queued = (submit all_good "t1" "now" 5 "x" 3 empty).1

submit-IsBacked_example : IsBacked (submit no_queue "t2" "now" 6 "x" 3 one_queued).1
submit-IsBacked_example =
    submit-IsBacked no_queue "t2" "now" 6 "x" 3 one_queued
      (submit-IsBacked all_good "t1" "now" 5 "x" 3 empty tt)

submitted :
    (submit all_good "t1" "now" 5 "x" 3 empty).0 ≡ ok (record { task_id = "t1"; submitted_ns = 5 })
unfolding submit
submitted = refl
