-- ===== src/Aio/Memory/Same.antt =====
-- The two memory stores answer every row of calls alike.
use gufo_blob.Base.{
  ℕ, zero, suc, ◌+◌, ◌≤◌, ◌<◌, List, [], ◌∷◌, Option, none, some, Text, Bytes, length, ◌≡◌, refl,
  sym, ap, ◌∙◌, arith, Option-cases, inl, inr,
}
use gufo_blob.Base.Dict.{Dict, lookup, keys}
use gufo_blob.Base.Result.{key_error, Result-cases}
use gufo_blob.Blob.{Blob}
use gufo_blob.Blob.Simulation.{
  Matches, Simulates, same_error, Call, AllAlike, answers, answers-AllAlike,
}
use gufo_blob.Memory as Sync
use gufo_blob.Memory.Contents.{memory_blob}
use gufo_blob.Aio.Memory as Async
use gufo_blob.Aio.Memory.{MemoryBlob, AsyncIterWrapper, matching, drain, anext, scan_all}

abbrev pub to_async : Sync.MemoryBlob → MemoryBlob
to_async b = record {
  items = b.items;
  max_objects = b.max_objects;
  max_size = b.max_size;
  size = b.size;
}

abbrev pub SameState : Sync.MemoryBlob → MemoryBlob → Type 0
SameState b c = to_async b ≡ c

-- The methods of an asynchronous memory store, with `scan` iterated to its end
abbrev pub async_memory_blob : Blob
async_memory_blob = record {
  State = MemoryBlob;
  put = Async.put;
  get = Async.get;
  delete = Async.delete;
  exists = Async.exists;
  scan = scan_all;
}

length-matching : (prefix : Text) (d : List Text) → length (matching prefix d) ≤ length d
unfolding matching
length-matching prefix [] = omega arith
length-matching prefix (k ∷ ks) = ground (arith, length-matching prefix ks)

length-keys : {V : Type 0} (d : Dict V) → length (keys d) ≡ length d
unfolding keys
length-keys [] = refl
length-keys (x ∷ d) = ground (arith, length-keys d)

-- Draining a list that is taken, and one that is still to be taken
drain-taken :
    (fuel : ℕ) (b : MemoryBlob) (prefix : Text) (l : List Text)
    → length l < fuel
    → drain fuel b (record { prefix = prefix; snapshot = some l }) ≡ l
unfolding drain anext
drain-taken zero b prefix l h = absurd (omega (arith, h))
drain-taken (suc fuel) b prefix [] h = refl
drain-taken (suc fuel) b prefix (k ∷ l) h =
    ap (λ r. k ∷ r) (drain-taken fuel b prefix l (omega (arith, h)))

same_matching : (prefix : Text) (ks : List Text) → matching prefix ks ≡ Sync.matching prefix ks
unfolding matching Sync.matching
same_matching prefix [] = refl
same_matching prefix (k ∷ ks) = ground (arith, same_matching prefix ks)

pub drain-first :
    (fuel : ℕ) (b : MemoryBlob) (prefix : Text)
    → length b.items < fuel
    → drain fuel b (Async.scan prefix) ≡ matching prefix (keys b.items)
unfolding drain anext
drain-first zero b prefix h = absurd (omega (arith, h))
drain-first (suc fuel) b prefix h =
    let ks = matching prefix (keys b.items) in
    let m = length-matching prefix (keys b.items) in
    let n = length-keys b.items in drain-taken (suc fuel) b prefix ks (omega (arith, h))

same_old_size :
    (b : Sync.MemoryBlob) (o : Option Text) → Async.old_size (to_async b) o ≡ Sync.old_size b o
unfolding Async.old_size Sync.old_size Async.stored_length Sync.stored_length
same_old_size b none = refl
same_old_size b (some []) = refl
same_old_size b (some (c ∷ k)) = ground arith

same_limits :
    (b : Sync.MemoryBlob) (k : Text) (n : ℕ)
    → Async.check_limits (to_async b) (some k) n ≡ Sync.check_limits b (some k) n
unfolding Async.check_limits Sync.check_limits Async.has_key Sync.has_key
same_limits b k n = ground (arith, same_old_size b (some k))

same_size :
    (b : Sync.MemoryBlob) (o : Option Bytes) (n : ℕ)
    → Async.size_after (to_async b) o n ≡ Sync.size_after b o n
unfolding Async.size_after Sync.size_after
same_size b none n = refl
same_size b (some old) n = refl

put-Matches :
    (k : Text) (v : Bytes) (b : Sync.MemoryBlob)
    → Matches SameState (Sync.put k v b) (Async.put k v (to_async b))
unfolding Sync.put Async.put
put-Matches k v b = elim (Result-cases (Sync.check_limits b (some k) (length v))) [
  | inl (u, e) ↦
      let same = same_limits b k (length v) in
      let size = same_size b (lookup k b.items) (length v) in
      rw (Sync.put, Async.put, same, e, size) (refl, refl)
  | inr (x, e) ↦
      let same = same_limits b k (length v) in
      rw (Sync.put, Async.put, same, e) (same_error x, refl)
]

get-Matches :
    (k : Text) (b : Sync.MemoryBlob) → Matches SameState (Sync.get k b) (Async.get k (to_async b))
unfolding Sync.get Async.get
get-Matches k b = elim (Option-cases (lookup k b.items)) [
  | inl e ↦ rw (Sync.get, Async.get, e) (same_error (key_error k), refl)
  | inr (v, e) ↦ rw (Sync.get, Async.get, e) (refl, refl)
]

delete-Matches :
    (k : Text) (b : Sync.MemoryBlob)
    → Matches SameState (Sync.delete k b) (Async.delete k (to_async b))
unfolding Sync.delete Async.delete
delete-Matches k b = elim (Option-cases (lookup k b.items)) [
  | inl e ↦ rw (Sync.delete, Async.delete, e) (same_error (key_error k), refl)
  | inr (v, e) ↦ rw (Sync.delete, Async.delete, e) (refl, refl)
]

scan-Matches :
    (k : Text) (b : Sync.MemoryBlob) → Matches SameState (Sync.scan k b) (scan_all k (to_async b))
unfolding Sync.scan scan_all
scan-Matches k b = (
  sym (same_matching k (keys b.items))
      ∙ sym (drain-first (length b.items + 1) (to_async b) k (omega arith)),
  refl,
)

memory_blob-Simulates : Simulates memory_blob async_memory_blob SameState
unfolding Sync.exists Async.exists Sync.has_key Async.has_key
memory_blob-Simulates = record {
  put_sim = λ k v s t e. rw (← e) (put-Matches k v s);
  get_sim = λ k s t e. rw (← e) (get-Matches k s);
  delete_sim = λ k s t e. rw (← e) (delete-Matches k s);
  exists_sim = λ k s t e. rw (← e) (refl, refl);
  scan_sim = λ k s t e. rw (← e) (scan-Matches k s);
}

-- The asynchronous memory store answers any row of calls as the synchronous one with the same contents
-- and limits does, where each iteration is run to its end before the next call.
pub answers-memory :
    (calls : List Call) (b : Sync.MemoryBlob)
    → AllAlike (answers memory_blob calls b) (answers async_memory_blob calls (to_async b))
answers-memory calls b =
    answers-AllAlike memory_blob async_memory_blob SameState memory_blob-Simulates calls b
      (to_async b) refl
