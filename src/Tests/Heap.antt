-- ===== src/Tests/Heap.antt =====
-- The witness of the jobs in one heap (storage/memory.go).
use xwork.Prelude.{some, String, List, [], ◌∷◌, ◌≡◌, refl, arith, nat_eq, string_eq}
use xwork.GoMap.{Map, lookup, set, delete, rebuild}
use xwork.Payload.{Any}
use xwork.Memory.Heap.{insert_to_failed, get_failed, claim_failed, clone_failed_job, clone_payload}
use xwork.Memory.Heap.Traffic.{Deed, view, do_deed, do_deeds, value_deeds, AreDeeds, nothing_shared}
use xwork.Memory.Heap.Apart.{IsApart, AreGiven}
use xwork.Memory.Heap.Laws.{do_deeds-value_deeds, nothing_shared-IsApart}
use xwork.Tests.{report}

abbrev first_content : Map String Any
first_content = ("a", "1") ∷ []

abbrev second_content : Map String Any
second_content = ("a", "2") ∷ []

-- a caller inserts a job and writes to its payload, reads the job back and empties what it got, and
-- claims the job
abbrev deeds : List Deed
deeds =
    Deed.makes_payload first_content
    ∷ Deed.makes_job (record { fields = report; payload = some 0 })
    ∷ Deed.inserts 0
    ∷ Deed.writes_payload 0 second_content
    ∷ Deed.gets 3
    ∷ Deed.writes_payload 2 []
    ∷ Deed.claims 3
    ∷ []

deeds-AreDeeds : AreDeeds deeds (nothing_shared report)
unfolding do_deed insert_to_failed get_failed claim_failed clone_failed_job clone_payload lookup set
    delete rebuild
deeds-AreDeeds = (
  tt,
  (
    (omega arith, refl),
    ((omega arith, refl), ((omega arith, refl), (tt, ((omega arith, refl), (tt, tt))))),
  ),
)

do_deeds-value_deeds_example :
    let c = nothing_shared report in
    ((do_deeds deeds c).0 ≡ (value_deeds deeds c (view c)).0)
    × (view (do_deeds deeds c).1 ≡ (value_deeds deeds c (view c)).1)
    × IsApart (do_deeds deeds c).1
    × AreGiven deeds c
do_deeds-value_deeds_example =
    do_deeds-value_deeds deeds (nothing_shared report) (nothing_shared-IsApart report)
      deeds-AreDeeds
