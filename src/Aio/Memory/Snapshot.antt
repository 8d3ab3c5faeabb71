-- ===== src/Aio/Memory/Snapshot.antt =====
-- An iteration whose pulls are interleaved with other calls of the store: `AsyncIterWrapper` takes its
-- keys at the first pull.
use gufo_blob.Base.{ℕ, zero, suc, List, [], ◌∷◌, ◌++◌, Option, none, some, Text, map, ◌≡◌, refl, ap}
use gufo_blob.Base.Dict.{keys}
use gufo_blob.Blob.Simulation.{Call, respond}
use gufo_blob.Aio.Memory.{MemoryBlob, AsyncIterWrapper, matching, anext, scan}
use gufo_blob.Aio.Memory.Same.{async_memory_blob}

pub data Step : Type 0 where
  call : Call → Step
  pull : Step

-- What the pulls give, `none` for the end; the calls may come from any task.
unfoldable pub run : List Step → MemoryBlob → AsyncIterWrapper → List (Option Text)
unfolding anext
run [] b it = []
run (call c ∷ steps) b it = run steps (respond async_memory_blob c b).1 it
run (pull ∷ steps) b it = let (o, rest) = anext it b in o ∷ run steps b rest

unfoldable pub after_calls : List Call → MemoryBlob → MemoryBlob
after_calls [] b = b
after_calls (c ∷ calls) b = after_calls calls (respond async_memory_blob c b).1

unfoldable pub pulls : List Step → ℕ
pulls [] = 0
pulls (call c ∷ steps) = pulls steps
pulls (pull ∷ steps) = suc (pulls steps)

-- What so many pulls of an iterator over a list give
unfoldable pub first_pulls : ℕ → List Text → List (Option Text)
first_pulls zero ks = []
first_pulls (suc n) [] = none ∷ first_pulls n []
first_pulls (suc n) (k ∷ ks) = some k ∷ first_pulls n ks

run-taken :
    (steps : List Step) (b : MemoryBlob) (prefix : Text) (ks : List Text)
    → run steps b (record { prefix = prefix; snapshot = some ks }) ≡ first_pulls (pulls steps) ks
unfolding run anext pulls first_pulls
run-taken [] b prefix ks = refl
run-taken (call c ∷ steps) b prefix ks = run-taken steps (respond async_memory_blob c b).1 prefix ks
run-taken (pull ∷ steps) b prefix [] = ap (λ l. none ∷ l) (run-taken steps b prefix [])
run-taken (pull ∷ steps) b prefix (k ∷ ks) = ap (λ l. some k ∷ l) (run-taken steps b prefix ks)

-- An iteration gives the keys with the prefix that the store holds at the first pull, those that were
-- put after the call of `scan` included, and then the end; whatever calls come between the later
-- pulls changes nothing of it.
pub run-first :
    (before : List Call) (steps : List Step) (b : MemoryBlob) (prefix : Text)
    → run (map call before ++ pull ∷ steps) b (scan prefix)
      ≡ first_pulls (suc (pulls steps)) (matching prefix (keys (after_calls before b).items))
unfolding run after_calls anext pulls
run-first (c ∷ before) steps b prefix =
    run-first before steps (respond async_memory_blob c b).1 prefix
run-first [] steps b prefix = run-taken (pull ∷ steps) b prefix (matching prefix (keys b.items))
