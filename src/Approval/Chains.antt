-- ===== src/Approval/Chains.antt =====
-- internal/approval/approval.go: how the decision reads a chain of commands.
use villa_straylight.Base.{
  ◌≡◌, ◌≢◌, refl, ◌∙◌, ap, ℕ, Bool, true, false, ◌||◌, Option, none, some, List, [], ◌∷◌, ◌++◌,
  arith, Bool-cases, inl, inr, ◌⊎◌, any, or-true, ◌==◌,
}
use villa_straylight.Approval.{
  Action, read, write, execute, list, fetch, download, other_action, Mode, ask_mode, auto_mode,
  other_mode, Decision, unset, allow, ask, deny, Request,
}
use villa_straylight.Approval.Commands.{
  cons_first, is_separator, is_doubled, next_segments, segments_from, chain_segments,
  segment_deletes, is_deletion, is_safe_command,
}
use villa_straylight.Approval.Paths.{auto_allowed}
use villa_straylight.Approval.Answers.{
  row, table, or_ask, is_auto, exception_of, answer, decide_as, decide,
}

cons_first-append :
    (c : ℕ) (xs ys : List (List ℕ)) → xs ≢ [] → cons_first c (xs ++ ys) ≡ cons_first c xs ++ ys
unfolding cons_first
cons_first-append c [] ys h = absurd (h refl)
cons_first-append c (x ∷ xs) ys h = refl

next_segments-append :
    (c : ℕ) (opened opened' next next' ys : List (List ℕ))
    → next ≢ []
    → (is_doubled c ≡ true → opened' ≡ opened ++ ys)
    → next' ≡ next ++ ys
    → next_segments c opened' next' ≡ next_segments c opened next ++ ys
unfolding next_segments
next_segments-append c opened opened' next next' ys full o n = elim (Bool-cases (is_doubled c)) [
  | inl e ↦ rw (e) (ap (λ l. [] ∷ l) (o e))
  | inr e ↦ elim (Bool-cases (is_separator c)) [
    | inl k ↦ rw (e, k) (ap (λ l. [] ∷ l) n)
    | inr k ↦ rw (e, k) (ap (cons_first c) n ∙ cons_first-append c next ys full)
  ]
]

next_segments-full : (c : ℕ) (opened next : List (List ℕ)) → next_segments c opened next ≢ []
unfolding next_segments cons_first
next_segments-full c opened [] h = ground (arith, h)
next_segments-full c opened (s ∷ ss) h = ground (arith, h)

segments-full : (half : Option ℕ) (a : List ℕ) → segments_from half a ≢ []
unfolding segments_from
segments-full half [] = λ h. absurd (ground (arith, h))
segments-full none (c ∷ a) = next_segments-full c _ _
segments-full (some d) (c ∷ a) = elim (Bool-cases (c == d)) [
  | inl e ↦ rw (e) (segments-full none a)
  | inr e ↦ rw (e) (next_segments-full c _ _)
]

-- The first half of an operator is `&` or `|`.
abbrev IsHalf : Option ℕ → Type 0
IsHalf none = Unit
IsHalf (some d) = is_doubled d ≡ true

-- A `;` ends a segment whatever stands before it.
segments-append :
    (half : Option ℕ) (a b : List ℕ)
    → IsHalf half
    → segments_from half (a ++ 59 ∷ b) ≡ segments_from half a ++ segments_from none b
unfolding segments_from
segments-append none [] b h =
    unfold next_segments in unfold is_doubled in unfold is_separator in refl
segments-append (some d) [] b h =
    unfold next_segments in unfold is_doubled in unfold is_separator in ground (arith, h)
segments-append none (c ∷ a) b h =
    next_segments-append c (segments_from (some c) a) _ (segments_from none a) _
      (segments_from none b) (segments-full none a) (segments-append (some c) a b)
      (segments-append none a b tt)
segments-append (some d) (c ∷ a) b h = elim (Bool-cases (c == d)) [
  | inl e ↦ rw (e) (segments-append none a b tt)
  | inr e ↦ rw (e) (
      next_segments-append c (segments_from (some c) a) _ (segments_from none a) _
        (segments_from none b) (segments-full none a) (segments-append (some c) a b)
        (segments-append none a b tt))
]

any-append : (p : List ℕ → Bool) (xs ys : List (List ℕ)) → any p (xs ++ ys) ≡ (any p xs || any p ys)
any-append p [] ys = refl
any-append p (x ∷ xs) ys = ground (arith, any-append p xs ys)

-- A command line is a deletion just where what stands before a `;` or what stands after it is one.
pub is_deletion-chain :
    (a b : List ℕ) → is_deletion (a ++ 59 ∷ b) ≡ (is_deletion a || is_deletion b)
unfolding is_deletion chain_segments
is_deletion-chain a b =
    ap (any segment_deletes) (segments-append none a b tt)
    ∙ any-append segment_deletes (segments_from none a) (segments_from none b)

-- How a request comes to be allowed.
pub data IsAllowed (mode : Mode) (req : Request) : Type 0 where
  reads : req.action ≡ read → IsAllowed mode req
  lists : req.action ≡ list → IsAllowed mode req
  writes : req.action ≡ write → mode ≡ auto_mode → IsAllowed mode req
  executes :
      req.action ≡ execute
      → mode ≡ auto_mode
      → is_deletion req.command ≡ false
      → (auto_allowed req.command req.workspace ≡ true) ⊎ (is_safe_command req.command ≡ true)
      → IsAllowed mode req

table-write : (mode : Mode) → answer none write mode ≡ allow → mode ≡ auto_mode
unfolding answer or_ask table row
table-write ask_mode h = absurd (ground (arith, h))
table-write auto_mode h = refl
table-write (other_mode m) h = absurd (ground (arith, h))

table-execute : (mode : Mode) → answer none execute mode ≢ allow
unfolding answer or_ask table row
table-execute ask_mode h = ground (arith, h)
table-execute auto_mode h = ground (arith, h)
table-execute (other_mode m) h = ground (arith, h)

table-deny : (mode : Mode) (d : Decision) → or_ask (row deny deny mode) ≢ allow
unfolding or_ask row
table-deny ask_mode d h = ground (arith, h)
table-deny auto_mode d h = ground (arith, h)
table-deny (other_mode m) d h = ground (arith, h)

answer-ask : (mode : Mode) → answer (some ask) execute mode ≡ ask
unfolding answer
answer-ask mode = refl

is_auto-eq : (mode : Mode) → is_auto mode ≡ true → mode ≡ auto_mode
unfolding is_auto
is_auto-eq ask_mode h = absurd (ground (arith, h))
is_auto-eq auto_mode h = refl
is_auto-eq (other_mode m) h = absurd (ground (arith, h))

exception_of-allow :
    (mode : Mode) (req : Request)
    → answer (exception_of mode req) execute mode ≡ allow
    → (is_deletion req.command ≡ false)
      × (is_auto mode ≡ true)
      × ((auto_allowed req.command req.workspace || is_safe_command req.command) ≡ true)
unfolding exception_of
exception_of-allow mode req h = ground (arith, h, table-execute mode, answer-ask mode)

decide_as-IsAllowed :
    (a : Action) (mode : Mode) (req : Request)
    → req.action ≡ a
    → decide_as a mode req ≡ allow
    → IsAllowed mode req
unfolding decide_as
decide_as-IsAllowed read mode req e h = reads e
decide_as-IsAllowed list mode req e h = lists e
decide_as-IsAllowed write mode req e h = writes e (table-write mode h)
decide_as-IsAllowed fetch mode req e h =
    absurd (table-deny mode unset (unfold answer in unfold table in h))
decide_as-IsAllowed download mode req e h =
    absurd (table-deny mode unset (unfold answer in unfold table in h))
decide_as-IsAllowed (other_action a) mode req e h =
    absurd (unfold answer in unfold table in unfold or_ask in ground (arith, h))
decide_as-IsAllowed execute mode req e h =
    let (kept, auto, admitted) = exception_of-allow mode req h in
    executes e (is_auto-eq mode auto) kept (or-true _ _ admitted)

execute-asks :
    (mode : Mode) (req : Request)
    → is_deletion req.command ≡ true
    → decide_as execute mode req ≡ ask
unfolding decide_as exception_of
execute-asks mode req h = ground (arith, h, answer-ask mode)

-- A request is allowed only as a read, as a listing, as a write in auto mode, or as a command in auto
-- mode that is no deletion and that the allowlist or the list of safe commands admits; the ask mode
-- never allows a write or a command, and no mode allows a fetch, a download or an action that the
-- table does not name.
pub decide-IsAllowed : (mode : Mode) (req : Request) → decide mode req ≡ allow → IsAllowed mode req
unfolding decide
decide-IsAllowed mode req h = decide_as-IsAllowed req.action mode req refl h

-- In every mode a command that deletes on either side of a `;` is asked about.
pub decide-chain :
    (mode : Mode) (req : Request) (a b : List ℕ)
    → req.action ≡ execute
    → req.command ≡ a ++ 59 ∷ b
    → (is_deletion a || is_deletion b) ≡ true
    → decide mode req ≡ ask
unfolding decide
decide-chain mode req a b is_execute is_chain deletes =
    let is_asked : is_deletion req.command ≡ true =
      ap is_deletion is_chain ∙ is_deletion-chain a b ∙ deletes in
    ap (λ x. decide_as x mode req) is_execute ∙ execute-asks mode req is_asked
