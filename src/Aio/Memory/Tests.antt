-- ===== src/Aio/Memory/Tests.antt =====
-- The asynchronous memory store on a row of calls.
use gufo_blob.Base.{List, [], ◌∷◌, ◌++◌, none, suc, map, codes, ◌≡◌}
use gufo_blob.Base.Dict.{keys}
use gufo_blob.Blob.Simulation.{Call, put_call, get_call, delete_call, scan_call, AllAlike, answers}
use gufo_blob.Memory as Sync
use gufo_blob.Memory.Contents.{memory_blob}
use gufo_blob.Aio.Memory.{matching, scan}
use gufo_blob.Aio.Memory.Same.{to_async, async_memory_blob, answers-memory}
use gufo_blob.Aio.Memory.Snapshot.{
  Step, call, pull, run, after_calls, pulls, first_pulls, run-first,
}

abbrev store : Sync.MemoryBlob
store = Sync.init none none

abbrev calls : List Call
calls = put_call (codes "a") (1 ∷ []) ∷ get_call (codes "a") ∷ scan_call [] ∷ []

answers-memory_example :
    AllAlike (answers memory_blob calls store) (answers async_memory_blob calls (to_async store))
answers-memory_example = answers-memory calls store

abbrev later_steps : List Step
later_steps = call (delete_call (codes "a")) ∷ pull ∷ []

run-first_example :
    run (map call calls ++ pull ∷ later_steps) (to_async store) (scan [])
    ≡ first_pulls
        (suc (pulls later_steps))
        (matching [] (keys (after_calls calls (to_async store)).items))
run-first_example = run-first calls later_steps (to_async store) []
