-- ===== src/Aio/Wrapper.antt =====
-- src/gufo/blob/aio/_wrapper.py: `AsyncWrapper`, over any synchronous store; the asynchronous file and
-- SQLite stores are this class over theirs. `to_thread` runs a function in a thread and is awaited, so
-- that a call is one step of the store.
pub mod Url
use gufo_blob.Base.{Bool, List, [], ◌∷◌, Text, Bytes, ◌≡◌, refl, ap}
use gufo_blob.Base.Result.{Result, ok, err, Exec}
use gufo_blob.Blob.{Blob}
use gufo_blob.Blob.Simulation.{
  Call, put_call, get_call, delete_call, exists_call, scan_call, Answer, done, bytes_of, truth,
  keys_of, with_answer, respond, answers,
}

pub record AsyncWrapper (S : Type 0) : Type 0 where
  pub sync : S

-- `await to_thread(inner)`, where `inner` is a call of the store that is wrapped
unfoldable pub to_thread : {S A : Type 0} → Exec S A → Exec (AsyncWrapper S) A
to_thread inner w = let (r, s) = inner w.sync in (r, record { sync = s })

module _ (B : Blob) where
  unfoldable pub put : Text → Bytes → Exec (AsyncWrapper B.State) (Unit {0})
  unfolding to_thread
  put key bytes = to_thread (B.put key bytes)

  unfoldable pub get : Text → Exec (AsyncWrapper B.State) Bytes
  unfolding to_thread
  get key = to_thread (B.get key)

  unfoldable pub delete : Text → Exec (AsyncWrapper B.State) (Unit {0})
  unfolding to_thread
  delete key = to_thread (B.delete key)

  unfoldable pub exists : Text → Exec (AsyncWrapper B.State) Bool
  unfolding to_thread
  exists key = to_thread (B.exists key)

  -- The keys are listed in the thread, and then yielded.
  unfoldable pub scan : Text → Exec (AsyncWrapper B.State) (List Text)
  unfolding to_thread
  scan prefix = to_thread (B.scan prefix)

  abbrev pub wrapped : Blob
  wrapped = record {
    State = AsyncWrapper B.State;
    put = put;
    get = get;
    delete = delete;
    exists = exists;
    scan = scan;
  }

  with_answer-result :
      {A : Type 0} (f : A → Answer) (x : Result A × B.State)
      → with_answer {S = AsyncWrapper B.State} f (x.0, record { sync = x.1 })
        ≡ ((with_answer f x).0, record { sync = (with_answer f x).1 })
  with_answer-result f (ok a, t) = refl
  with_answer-result f (err e, t) = refl

  with_answer-to_thread :
      {A : Type 0} (f : A → Answer) (m : Exec B.State A) (s : B.State)
      → with_answer f (to_thread m (record { sync = s }))
        ≡ to_thread (λ t. with_answer f (m t)) (record { sync = s })
  unfolding to_thread
  with_answer-to_thread f m s = with_answer-result f (m s)

  respond-wrapped :
      (c : Call) (s : B.State)
      → respond wrapped c (record { sync = s }) ≡ to_thread (respond B c) (record { sync = s })
  unfolding put get delete exists scan
  respond-wrapped (put_call k v) s = with_answer-to_thread (λ _. done) (B.put k v) s
  respond-wrapped (get_call k) s = with_answer-to_thread bytes_of (B.get k) s
  respond-wrapped (delete_call k) s = with_answer-to_thread (λ _. done) (B.delete k) s
  respond-wrapped (exists_call k) s = with_answer-to_thread truth (B.exists k) s
  respond-wrapped (scan_call k) s = with_answer-to_thread keys_of (B.scan k) s

  -- A store that is wrapped gives just the answers of that store to any row of calls, each awaited
  -- before the next one.
  pub answers-wrapped :
      (calls : List Call) (s : B.State)
      → answers wrapped calls (record { sync = s }) ≡ answers B calls s
  unfolding answers to_thread
  answers-wrapped [] s = refl
  answers-wrapped (c ∷ calls) s =
      rw (respond-wrapped c s)
        (ap (λ l. (respond B c s).0 ∷ l) (answers-wrapped calls (respond B c s).1))
