-- ===== src/Tests/Locks.antt =====
-- Runs of the sentence locks.
use collaborative_doc.Prelude.{◌≡◌, [], arith}
use collaborative_doc.Locks.Exclusion.{held}
use collaborative_doc.Locks.Race.{test, take, enter, two_writers}
use collaborative_doc.Tests.Sample.{doc}

two_writers_example :
    (held doc 1 5
        (enter doc 1 (take 6) (
          enter doc 1 (take 5) (
            enter doc 1
              (test 6)
              (enter doc 1 (test 5) (record { locks = []; passed = [] }))))).locks
      ≡ 1)
    × (held doc 1 6
          (enter doc 1 (take 6) (
            enter doc 1 (take 5) (
              enter doc 1
                (test 6)
                (enter doc 1 (test 5) (record { locks = []; passed = [] }))))).locks
        ≡ 1)
two_writers_example = two_writers doc 1 5 6 (omega arith)
