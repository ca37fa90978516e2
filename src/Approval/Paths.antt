-- ===== src/Approval/Paths.antt =====
-- internal/approval/approval.go: `AutoAllowed`, and the parts of `filepath` that it uses.
use villa_straylight.Base.{
  ℕ, Bool, true, false, ◌&&◌, ◌||◌, List, [], ◌∷◌, ◌++◌, ◌==◌, is_empty, codes, same_codes,
  has_prefix, is_among, if◌then◌else◌,
}
use villa_straylight.Approval.Commands.{fields, base}

-- The parts of a path between its slashes.
unfoldable pub parts_from : List ℕ → List ℕ → List (List ℕ)
parts_from part [] = part ∷ []
parts_from part (c ∷ rest) =
    let ended = parts_from [] rest in
    let longer = parts_from (part ++ c ∷ []) rest in if c == 47 then part ∷ ended else longer

unfoldable pub is_rooted : List ℕ → Bool
is_rooted p = has_prefix p (47 ∷ [])

-- A `..` takes the last part away, stays where there is none, and is dropped at the root. `out` holds
-- the parts in reverse.
unfoldable pub go_up : Bool → List (List ℕ) → List (List ℕ)
go_up rooted [] = if rooted then [] else (46 ∷ 46 ∷ []) ∷ []
go_up rooted (p ∷ out) = if same_codes p (46 ∷ 46 ∷ []) then (46 ∷ 46 ∷ []) ∷ p ∷ out else out

unfoldable pub clean_parts : Bool → List (List ℕ) → List (List ℕ) → List (List ℕ)
clean_parts rooted out [] = out
clean_parts rooted out (p ∷ ps) =
    let skipped = clean_parts rooted out ps in
    let up = clean_parts rooted (go_up rooted out) ps in
    let pushed = clean_parts rooted (p ∷ out) ps in
    if is_empty p || same_codes p (46 ∷ [])
    then skipped
    else if same_codes p (46 ∷ 46 ∷ [])
    then up
    else pushed

-- Reversed parts joined by slashes.
unfoldable pub join_parts : List ℕ → List (List ℕ) → List ℕ
join_parts tail [] = tail
join_parts tail (p ∷ out) = join_parts (if is_empty tail then p else p ++ 47 ∷ tail) out

-- `filepath.Clean`
unfoldable pub clean : List ℕ → List ℕ
clean p =
    let rooted = is_rooted p in
    let joined = join_parts [] (clean_parts rooted [] (parts_from [] p)) in
    if rooted then 47 ∷ joined else if is_empty joined then 46 ∷ [] else joined

-- `filepath.Join` of two elements, of which the empty ones are left out.
unfoldable pub join : List ℕ → List ℕ → List ℕ
join a b =
    if is_empty a
    then (if is_empty b then [] else clean b)
    else if is_empty b
    then clean a
    else clean (a ++ 47 ∷ b)

unfoldable pub allowlist_commands : List (List ℕ)
allowlist_commands = codes "python3" ∷ codes "soffice" ∷ codes "mv" ∷ codes "cp" ∷ []

-- Whether a path argument stays in the workspace.
unfoldable pub stays_inside : List ℕ → List ℕ → Bool
stays_inside workspace tok =
    let root = clean workspace in
    let path = if is_rooted tok then tok else join workspace tok in
    let cleaned = clean path in same_codes cleaned root || has_prefix cleaned (root ++ 47 ∷ [])

-- The loop over the arguments; `after_code_flag` is `prevWasCodeFlag`.
unfoldable pub arguments_allowed : List ℕ → Bool → List (List ℕ) → Bool
arguments_allowed workspace after_code_flag [] = true
arguments_allowed workspace true (tok ∷ toks) = false
arguments_allowed workspace false (tok ∷ toks) =
    let flagged = arguments_allowed workspace true toks in
    let rest = arguments_allowed workspace false toks in
    if same_codes tok (codes "-c")
    then flagged
    else if has_prefix tok (45 ∷ [])
    then rest
    else stays_inside workspace tok && rest

unfoldable pub tokens_allowed : List ℕ → List (List ℕ) → Bool
tokens_allowed workspace [] = false
tokens_allowed workspace (t ∷ toks) =
    is_among (base t) allowlist_commands && arguments_allowed workspace false toks

-- `AutoAllowed`
unfoldable pub auto_allowed : List ℕ → List ℕ → Bool
auto_allowed command workspace = tokens_allowed workspace (fields command)
