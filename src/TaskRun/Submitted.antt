-- ===== src/TaskRun/Submitted.antt =====
-- internal/taskrun/taskrun.go: the parts of `Submit`, and a disk that grows, keep a runner in order.
use villa_straylight.Base.{
  ℕ, zero, suc, if_both, ◌≡◌, refl, sym, ◌∙◌, subst, ap, inl, inr, String, true, false, Option,
  none, some, List, [], ◌∷◌, ◌++◌, All, str_eq, eq_iff, occurs, arith, Bool-cases,
}
use villa_straylight.TaskStore.{terminal, Task}
use villa_straylight.TaskStore.Records.{valid_id, read_file, Error, Disk, load, find_file}
use villa_straylight.TaskRun.Queue.{
  loaded_id, Active, Submission, Runner, flying_ids, mark, land, may_create, finish_create, enqueue,
}
use villa_straylight.TaskRun.Held.{
  HasRecord, Grows, may_create-absent, IsDistinct, held, IsDistinct-snoc,
}
use villa_straylight.TaskRun.Calls.{IsAt, IsHeld, IsFlying, IsOrderly}

pub All-mono :
    {A : Type 0} {P Q : A → Type 0} → ((x : A) → P x → Q x) → (xs : List A) → All P xs → All Q xs
All-mono f [] h = tt
All-mono f (x ∷ xs) h = (f x h.0, All-mono f xs h.1)

at-All :
    (P : Submission → Type 0) (n : ℕ) (x : Submission) (xs : List Submission)
    → IsAt n x xs
    → All P xs
    → P x
at-All P n x [] m h = absurd m
at-All P zero x (y ∷ xs) m h = subst P (sym m) h.0
at-All P (suc n) x (y ∷ xs) m h = at-All P n x xs m h.1

All-snoc :
    (P : String → Type 0) (x : String) (xs : List String) → All P xs → P x → All P (xs ++ x ∷ [])
All-snoc P x [] h k = (k, tt)
All-snoc P x (y ∷ xs) h k = (h.0, All-snoc P x xs h.1 k)

held-snoc :
    (c : Option Active) (q : List String) (x : String) → held c (q ++ x ∷ []) ≡ held c q ++ x ∷ []
held-snoc none q x = refl
held-snoc (some a) q x = refl

-- A disk with more records.
pub grown-IsOrderly :
    (r : Runner) (e : Disk) → Grows r.disk e → IsOrderly r → IsOrderly (record r { disk = e })
grown-IsOrderly r e g o = record {
  distinct = o.distinct;
  filed = All-mono (λ i h. (g i h.0, h.1)) _ o.filed;
  apart = o.apart;
  flying = All-mono (λ x h. (h.0, λ c. g x.task.id (h.1 c))) _ o.flying;
  fits = o.fits;
}

-- An id without a record is none of those that have one.
differs :
    (x id : String) (d : Disk) → find_file x d.records ≡ none → HasRecord id d → str_eq x id ≡ false
differs x id d absent (u, found, named) = elim (Bool-cases (str_eq x id)) [
  | inl e ↦
      let clash = sym absent ∙ (ap (λ i. find_file i d.records) ((eq_iff x id).0 e) ∙ found) in
      absurd (ground (arith, clash))
  | inr e ↦ e
]

-- `Create` has seen that there is no record.
pub looked-IsOrderly :
    (t : Task) (r : Runner)
    → valid_id t.id ≡ true
    → occurs t.id (flying_ids r.flying) ≡ false
    → may_create t r.disk ≡ none
    → IsOrderly r
    → IsOrderly (record r { flying = record { task = t; is_created = false } ∷ r.flying })
looked-IsOrderly t r v fresh may o =
    let absent = may_create-absent t r.disk may in
    record {
      distinct = o.distinct;
      filed = All-mono (λ i h. (h.0, rw (differs t.id i r.disk absent h.0) h.1)) _ o.filed;
      apart = (fresh, o.apart);
      flying = ((v, λ c. absurd (ground (arith, c))), o.flying);
      fits = o.fits;
    }

flying_ids-mark : (n : ℕ) (xs : List Submission) → flying_ids (mark n xs) ≡ flying_ids xs
unfolding mark
flying_ids-mark n [] = refl
flying_ids-mark zero (x ∷ xs) = refl
flying_ids-mark (suc n) (x ∷ xs) = ap (λ l. x.task.id ∷ l) (flying_ids-mark n xs)

marked-IsFlying :
    (n : ℕ) (x : Submission) (d : Disk) (xs : List Submission)
    → IsAt n x xs
    → HasRecord x.task.id d
    → All (IsFlying d) xs
    → All (IsFlying d) (mark n xs)
unfolding mark
marked-IsFlying n x d [] m k h = tt
marked-IsFlying zero x d (y ∷ xs) m k h =
    ((h.0.0, λ c. subst (λ s. HasRecord s.task.id d) m k), h.1)
marked-IsFlying (suc n) x d (y ∷ xs) m k h = (h.0, marked-IsFlying n x d xs m k h.1)

landed-All : (P : Submission → Type 0) (n : ℕ) (xs : List Submission) → All P xs → All P (land n xs)
unfolding land
landed-All P n [] h = tt
landed-All P zero (x ∷ xs) h = h.1
landed-All P (suc n) (x ∷ xs) h = (h.0, landed-All P n xs h.1)

occurs-land :
    (i : String) (n : ℕ) (xs : List Submission)
    → occurs i (flying_ids xs) ≡ false
    → occurs i (flying_ids (land n xs)) ≡ false
unfolding land
occurs-land i n [] h = h
occurs-land i zero (x ∷ xs) h = ground (arith, h)
occurs-land i (suc n) (x ∷ xs) h =
    let rest = occurs-land i n xs (ground (arith, h)) in ground (arith, h, rest)

IsDistinct-land :
    (n : ℕ) (xs : List Submission)
    → IsDistinct (flying_ids xs)
    → IsDistinct (flying_ids (land n xs))
unfolding land
IsDistinct-land n [] d = d
IsDistinct-land zero (x ∷ xs) d = d.1
IsDistinct-land (suc n) (x ∷ xs) d = (occurs-land x.task.id n xs d.0, IsDistinct-land n xs d.1)

-- A submission that is over, queued or not.
landed-IsOrderly :
    (n : ℕ) (r : Runner) → IsOrderly r → IsOrderly (record r { flying = land n r.flying })
landed-IsOrderly n r o = record {
  distinct = o.distinct;
  filed = All-mono (λ i h. (h.0, occurs-land i n r.flying h.1)) _ o.filed;
  apart = IsDistinct-land n r.flying o.apart;
  flying = landed-All (IsFlying r.disk) n r.flying o.flying;
  fits = o.fits;
}

-- `Create` has written the record, or has failed to.
pub finish_create-IsOrderly :
    (n : ℕ) (x : Submission) (w : Option Error × Disk) (r : Runner)
    → IsAt n x r.flying
    → Grows r.disk w.1
    → (w.0 ≡ none → HasRecord x.task.id w.1)
    → IsOrderly r
    → IsOrderly (finish_create n w r)
unfolding finish_create
finish_create-IsOrderly n x (some e, d) r m g k o =
    landed-IsOrderly n (record r { disk = d }) (grown-IsOrderly r d g o)
finish_create-IsOrderly n x (none, d) r m g k o =
    let o' = grown-IsOrderly r d g o in
    let ids = sym (flying_ids-mark n r.flying) in
    record {
      distinct = o'.distinct;
      filed = All-mono (λ i h. (h.0, subst (λ l. occurs i l ≡ false) ids h.1)) _ o'.filed;
      apart = subst IsDistinct ids o'.apart;
      flying = marked-IsFlying n x d r.flying m (k refl) o'.flying;
      fits = o'.fits;
    }

flies :
    (n : ℕ) (x : Submission) (xs : List Submission)
    → IsAt n x xs
    → occurs x.task.id (flying_ids xs) ≡ true
flies n x [] m = absurd m
flies zero x (y ∷ xs) m =
    let same = (eq_iff y.task.id x.task.id).1 (ap (λ s. s.task.id) (sym m)) in ground (arith, same)
flies (suc n) x (y ∷ xs) m = let rest = flies n x xs m in ground (arith, rest)

-- Whoever flies is not held.
unheld :
    (id : String) (xs : List Submission) (d : Disk) (l : List String)
    → occurs id (flying_ids xs) ≡ true
    → All (IsHeld xs d) l
    → occurs id l ≡ false
unheld id xs d [] f h = refl
unheld id xs d (y ∷ l) f h = elim (Bool-cases (str_eq y id)) [
  | inl e ↦
      let clash = subst (λ i. occurs i (flying_ids xs) ≡ false) ((eq_iff y id).0 e) h.0.1 in
      absurd (ground (arith, f, clash))
  | inr e ↦ rw (e) (unheld id xs d l f h.1)
]

-- No other submission has the id of the one that is over.
occurs-landed :
    (n : ℕ) (x : Submission) (xs : List Submission)
    → IsAt n x xs
    → IsDistinct (flying_ids xs)
    → occurs x.task.id (flying_ids (land n xs)) ≡ false
unfolding land
occurs-landed n x [] m d = absurd m
occurs-landed zero x (y ∷ xs) m d =
    subst (λ s. occurs s.task.id (flying_ids xs) ≡ false) (sym m) d.0
occurs-landed (suc n) x (y ∷ xs) m d = elim (Bool-cases (str_eq y.task.id x.task.id)) [
  | inl e ↦
      let alone =
        subst (λ i. occurs i (flying_ids xs) ≡ false) ((eq_iff y.task.id x.task.id).0 e) d.0 in
      absurd (ground (arith, flies n x xs m, alone))
  | inr e ↦ rw (e) (occurs-landed n x xs m d.1)
]

read_back :
    (id : String) (d : Disk) → valid_id id ≡ true → HasRecord id d → loaded_id (load id d) ≡ id
unfolding load read_file loaded_id
read_back id d v (u, found, named) = rw (v, found) named

pub enqueue-IsOrderly :
    (n : ℕ) (x : Submission) (r : Runner)
    → IsAt n x r.flying
    → x.is_created ≡ true
    → IsOrderly r
    → IsOrderly (enqueue n x.task r)
unfolding enqueue
enqueue-IsOrderly n x r m made o =
    let id = x.task.id in
    let ours = at-All (IsFlying r.disk) n x r.flying m o.flying in
    let stands = ours.1 made in
    let landed = landed-IsOrderly n r o in
    let alone = occurs-landed n x r.flying m o.apart in
    let whole = sym (held-snoc r.current r.queue id) in
    let queued : IsOrderly (record r { queue = r.queue ++ id ∷ []; flying = land n r.flying }) =
      record {
        distinct = subst IsDistinct whole (
            IsDistinct-snoc id _ o.distinct
              (unheld id r.flying r.disk _ (flies n x r.flying m) o.filed));
        filed =
            subst (All (IsHeld (land n r.flying) r.disk)) whole
              (All-snoc _ id _ landed.filed (stands, alone));
        apart = landed.apart;
        flying = landed.flying;
        fits = o.fits;
      } in
    if_both (λ q. IsOrderly (record r { queue = q; flying = land n r.flying }))
      (terminal x.task.state) landed
      (subst (λ i. IsOrderly (record r { queue = r.queue ++ i ∷ []; flying = land n r.flying }))
        (sym (read_back id r.disk ours.0 stands)) queued)
