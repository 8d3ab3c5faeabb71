-- ===== src/Blob/Simulation.antt =====
-- Two stores that cannot be told apart by the calls of their methods: what ties the backends of
-- src/gufo/blob/aio to those of src/gufo/blob/sync.
use gufo_blob.Base.{Bool, List, [], ◌∷◌, ◌≡◌, refl, Text, Bytes}
use gufo_blob.Base.Result.{Result, ok, err, Error, blob_error, Reason, Exec}
use gufo_blob.Blob.{Blob}

-- Two exceptions of one class; the messages of two `BlobError` may differ.
pub data AlikeError : Error → Error → Type 0 where
  blob_errors : (x y : Reason) → AlikeError (blob_error x) (blob_error y)
  same_error : (e : Error) → AlikeError e e

abbrev pub Alike : {A : Type 0} → Result A → Result A → Type 0
Alike (ok a) (ok b) = a ≡ b
Alike (err e) (err f) = AlikeError e f
Alike _ _ = ⊥

-- The results are alike, and the states related.
abbrev pub Matches : {S T A : Type 0} → (S → T → Type 0) → Result A × S → Result A × T → Type 0
Matches R (r, s) (q, t) = Alike r q × R s t

pub data Call : Type 0 where
  put_call : Text → Bytes → Call
  get_call delete_call exists_call scan_call : Text → Call

pub data Answer : Type 0 where
  done : Answer
  bytes_of : Bytes → Answer
  truth : Bool → Answer
  keys_of : List Text → Answer

abbrev pub with_answer : {S A : Type 0} → (A → Answer) → Result A × S → Result Answer × S
with_answer f (ok a, s) = (ok (f a), s)
with_answer f (err e, s) = (err e, s)

module _ (B : Blob) where
  abbrev pub respond : Call → Exec B.State Answer
  respond (put_call key bytes) s = with_answer (λ _. done) (B.put key bytes s)
  respond (get_call key) s = with_answer bytes_of (B.get key s)
  respond (delete_call key) s = with_answer (λ _. done) (B.delete key s)
  respond (exists_call key) s = with_answer truth (B.exists key s)
  respond (scan_call prefix) s = with_answer keys_of (B.scan prefix s)

  -- The results of a row of calls; a call that raises does not end the row.
  unfoldable pub answers : List Call → B.State → List (Result Answer)
  answers [] s = []
  answers (c ∷ cs) s = let (r, t) = respond c s in r ∷ answers cs t

abbrev pub AllAlike : List (Result Answer) → List (Result Answer) → Type 0
AllAlike [] [] = Unit
AllAlike (r ∷ rs) (q ∷ qs) = Alike r q × AllAlike rs qs
AllAlike _ _ = ⊥

-- Related states answer every call alike and stay related.
pub record Simulates (B C : Blob) (R : B.State → C.State → Type 0) : Type 0 where
  pub put_sim :
      (k : Text) (v : Bytes) (s : B.State) (t : C.State)
      → R s t
      → Matches R (B.put k v s) (C.put k v t)
  pub get_sim : (k : Text) (s : B.State) (t : C.State) → R s t → Matches R (B.get k s) (C.get k t)
  pub delete_sim :
      (k : Text) (s : B.State) (t : C.State) → R s t → Matches R (B.delete k s) (C.delete k t)
  pub exists_sim :
      (k : Text) (s : B.State) (t : C.State) → R s t → Matches R (B.exists k s) (C.exists k t)
  pub scan_sim :
      (k : Text) (s : B.State) (t : C.State) → R s t → Matches R (B.scan k s) (C.scan k t)

with_answer-Matches :
    {S T A : Type 0} (R : S → T → Type 0) (f : A → Answer) (x : Result A × S) (y : Result A × T)
    → Matches R x y
    → Matches R (with_answer f x) (with_answer f y)
with_answer-Matches R f (ok a, s) (ok b, t) (e, h) = (rw e refl, h)
with_answer-Matches R f (ok a, s) (err d, t) (e, h) = absurd e
with_answer-Matches R f (err d, s) (ok b, t) (e, h) = absurd e
with_answer-Matches R f (err d, s) (err c, t) (e, h) = (e, h)

module _ (B C : Blob) (R : B.State → C.State → Type 0) (M : Simulates B C R) where
  respond-Matches :
      (c : Call) (s : B.State) (t : C.State) → R s t → Matches R (respond B c s) (respond C c t)
  respond-Matches (put_call k v) s t h =
      with_answer-Matches R (λ _. done) (B.put k v s) (C.put k v t) (M.put_sim k v s t h)
  respond-Matches (get_call k) s t h =
      with_answer-Matches R bytes_of (B.get k s) (C.get k t) (M.get_sim k s t h)
  respond-Matches (delete_call k) s t h =
      with_answer-Matches R (λ _. done) (B.delete k s) (C.delete k t) (M.delete_sim k s t h)
  respond-Matches (exists_call k) s t h =
      with_answer-Matches R truth (B.exists k s) (C.exists k t) (M.exists_sim k s t h)
  respond-Matches (scan_call k) s t h =
      with_answer-Matches R keys_of (B.scan k s) (C.scan k t) (M.scan_sim k s t h)

  -- Two stores of which one simulates the other answer any row of calls alike, from related states.
  pub answers-AllAlike :
      (calls : List Call) (s : B.State) (t : C.State)
      → R s t
      → AllAlike (answers B calls s) (answers C calls t)
  unfolding answers
  answers-AllAlike [] s t h = tt
  answers-AllAlike (c ∷ cs) s t h =
      let (a, k) = respond-Matches c s t h in
      (a, answers-AllAlike cs (respond B c s).1 (respond C c t).1 k)
