-- ===== src/ImagePrune/Removes.antt =====
-- internal/prune/prune.go: an image is removed just where nothing in the store refers to it.
use villa_straylight.Base.{
  ◌≡◌, ◌≢◌, refl, sym, ◌∙◌, ap, subst, String, Bool, true, false, not, ◌&&◌, ◌||◌, Option, none,
  some, List, [], ◌∷◌, ◌++◌, arith, Bool-cases, inl, inr, str_eq, eq_iff, occurs, occurs-append,
  occurs-sort, is_empty-sort, sort_texts, is_empty,
}
use villa_straylight.Subsystem.{Kind}
use villa_straylight.PinState.{
  Dict, values, Previous, Effective, State, non_empty, effective_refs, previous_refs, state_refs,
}
use villa_straylight.ImagePrune.{
  Decision, Input, removable_refs, removable, pin_holders, ref_holders, previous_holders,
  reference_set, judge, judge_all, distinct_refs, missing_refs, missing_of, missing_checked,
  missing_previous_decisions, decide,
}

removable_refs-append :
    (r : String) (xs ys : List Decision)
    → occurs r (removable_refs (xs ++ ys))
      ≡ (occurs r (removable_refs xs) || occurs r (removable_refs ys))
unfolding removable_refs
removable_refs-append r [] ys = refl
removable_refs-append r (x ∷ xs) ys = ground (arith, removable_refs-append r xs ys)

missing_refs-removes :
    (k : Kind) (present : String → Bool) (refs : List String)
    → removable_refs (missing_refs k present refs) ≡ []
unfolding removable_refs missing_refs
missing_refs-removes k present [] = refl
missing_refs-removes k present (ref ∷ refs) = ground (arith, missing_refs-removes k present refs)

missing_of-removes :
    (k : Kind) (present : String → Bool) (o : Option Previous)
    → removable_refs (missing_of k present o) ≡ []
unfolding missing_of removable_refs
missing_of-removes k present none = refl
missing_of-removes k present (some prev) = missing_refs-removes k present _

missing_checked-removes :
    (i : Input) (o : Option (String → Bool)) → removable_refs (missing_checked i o) ≡ []
unfolding missing_checked removable_refs
missing_checked-removes i none = refl
missing_checked-removes i (some present) = missing_of-removes i.subsystem present _

not_empty : (r ref : String) → r ≢ "" → str_eq ref "" ≡ true → str_eq ref r ≡ false
not_empty r ref h e = elim (Bool-cases (str_eq ref r)) [
  | inl k ↦ absurd (h (sym ((eq_iff ref r).0 k) ∙ (eq_iff ref "").0 e))
  | inr k ↦ k
]

occurs_same :
    (r ref : String) (refs : List String) → str_eq ref r ≡ true → occurs ref refs ≡ occurs r refs
occurs_same r ref refs h = ap (λ t. occurs t refs) ((eq_iff ref r).0 h)

-- The empty text is no reference; the others are kept, once.
occurs-distinct :
    (r : String) (seen refs : List String)
    → r ≢ ""
    → (occurs r seen || occurs r (distinct_refs seen refs)) ≡ (occurs r seen || occurs r refs)
unfolding distinct_refs
occurs-distinct r seen [] h = refl
occurs-distinct r seen (ref ∷ refs) h = ground (
  arith,
  occurs-distinct r seen refs h,
  occurs-distinct r (ref ∷ seen) refs h,
  not_empty r ref h,
  occurs_same r ref seen,
)

occurs-non_empty :
    (r : String) (refs : List String) → r ≢ "" → occurs r (non_empty refs) ≡ occurs r refs
unfolding non_empty
occurs-non_empty r [] h = refl
occurs-non_empty r (ref ∷ refs) h = ground (arith, occurs-non_empty r refs h, not_empty r ref h)

-- The references that the two walks over the store count.
is_empty-append : (xs ys : List String) → is_empty (xs ++ ys) ≡ (is_empty xs && is_empty ys)
is_empty-append [] ys = refl
is_empty-append (x ∷ xs) ys = refl

pin_holders-none :
    (ref : String) (m : Dict Effective)
    → is_empty (pin_holders ref m) ≡ not (occurs ref (effective_refs m))
unfolding pin_holders effective_refs
pin_holders-none ref [] = refl
pin_holders-none ref ((id, e) ∷ m) = ground (arith, pin_holders-none ref m)

ref_holders-none :
    (ref sub : String) (m : Dict String)
    → is_empty (ref_holders ref sub m) ≡ not (occurs ref (values m))
unfolding ref_holders values
ref_holders-none ref sub [] = refl
ref_holders-none ref sub ((id, r) ∷ m) = ground (arith, ref_holders-none ref sub m)

previous_holders-none :
    (ref : String) (m : Dict Previous)
    → is_empty (previous_holders ref m) ≡ not (occurs ref (previous_refs m))
unfolding previous_holders previous_refs
previous_holders-none ref [] = refl
previous_holders-none ref ((sub, p) ∷ m) = ground (
  arith,
  is_empty-append (ref_holders ref sub p.refs) (previous_holders ref m),
  occurs-append ref (values p.refs) (previous_refs m),
  ref_holders-none ref sub p.refs,
  previous_holders-none ref m,
)

reference_set-none :
    (s : State) (ref : String)
    → ref ≢ ""
    → is_empty (reference_set s ref) ≡ not (occurs ref (state_refs s))
unfolding reference_set state_refs
reference_set-none s ref h =
    let pins = pin_holders ref s.pins in
    let kept = previous_holders ref s.previous in
    ground (
      arith,
      h,
      eq_iff ref "",
      is_empty-sort (pins ++ kept),
      is_empty-append pins kept,
      pin_holders-none ref s.pins,
      previous_holders-none ref s.previous,
      occurs-non_empty ref (effective_refs s.pins ++ previous_refs s.previous) h,
      occurs-append ref (effective_refs s.pins) (previous_refs s.previous),
    )

judge-removes :
    (r ref : String) (holders : List String) (rest : List Decision)
    → occurs r (removable_refs (judge ref holders ∷ rest))
      ≡ (str_eq ref r && is_empty holders || occurs r (removable_refs rest))
unfolding judge removable_refs
judge-removes r ref [] rest = ground arith
judge-removes r ref (h ∷ others) rest = ground arith

same_holders :
    (r ref : String) (holders : String → List String)
    → str_eq ref r ≡ true
    → is_empty (holders ref) ≡ is_empty (holders r)
same_holders r ref holders h = ap (λ t. is_empty (holders t)) ((eq_iff ref r).0 h)

judge_all-removes :
    (r : String) (holders : String → List String) (refs : List String)
    → occurs r (removable_refs (judge_all holders refs)) ≡ (occurs r refs && is_empty (holders r))
unfolding judge_all
judge_all-removes r holders [] = unfold removable_refs in refl
judge_all-removes r holders (ref ∷ refs) =
    let ih = judge_all-removes r holders refs in
    let same = same_holders r ref holders in
    judge-removes r ref (holders ref) (judge_all holders refs) ∙ ground (arith, ih, same)

occurs-distinct-empty : (seen refs : List String) → occurs "" (distinct_refs seen refs) ≡ false
unfolding distinct_refs
occurs-distinct-empty seen [] = refl
occurs-distinct-empty seen (ref ∷ refs) =
    ground (arith, occurs-distinct-empty seen refs, occurs-distinct-empty (ref ∷ seen) refs)

removed_ref :
    (s : State) (refs : List String) (r : String)
    → (occurs r (sort_texts (distinct_refs [] refs)) && is_empty (reference_set s r))
      ≡ (occurs r refs && not (str_eq r "") && not (occurs r (state_refs s)))
removed_ref s refs r = elim (Bool-cases (str_eq r "")) [
  | inl e ↦
      let at_empty : occurs r (distinct_refs [] refs) ≡ false =
        subst (λ t. occurs t (distinct_refs [] refs) ≡ false) (sym ((eq_iff r "").0 e))
          (occurs-distinct-empty [] refs) in
      ground (arith, e, at_empty, occurs-sort r (distinct_refs [] refs))
  | inr e ↦
      let named : r ≢ "" = λ h. ground (arith, e, (eq_iff r "").1 h) in
      ground (
        arith,
        e,
        occurs-sort r (distinct_refs [] refs),
        occurs-distinct r [] refs named,
        reference_set-none s r named,
      )
]

removes_known :
    (i : Input) (r : String)
    → occurs r (
        removable_refs (
          judge_all (reference_set i.state) (sort_texts (distinct_refs [] (values i.superseded)))
          ++ missing_checked i i.present))
      ≡ (occurs r (values i.superseded) && not (str_eq r "") && not (occurs r (state_refs i.state)))
removes_known i r =
    let refs = sort_texts (distinct_refs [] (values i.superseded)) in
    let judged = judge_all (reference_set i.state) refs in
    removable_refs-append r judged (missing_checked i i.present)
    ∙ ground (
      arith,
      judge_all-removes r (reference_set i.state) refs,
      ap (occurs r) (missing_checked-removes i i.present),
      removed_ref i.state (values i.superseded) r,
    )

-- The references that a plan removes are, where the store could be read, the non-empty superseded
-- ones that no current pin and no retained previous of the whole store names; where it could not be
-- read there are none.
pub decide-removes :
    (i : Input) (r : String)
    → occurs r (removable (decide i)) ≡ (
        i.state_known
        && (occurs r (values i.superseded)
            && not (str_eq r "")
            && not (occurs r (state_refs i.state))))
unfolding decide removable missing_previous_decisions missing_checked
decide-removes i r = elim (Bool-cases i.state_known) [
  | inr e ↦ rw (e) (unfold removable_refs in refl)
  | inl e ↦ rw (e) (removes_known i r)
]
