-- ===== src/Approval/Commands.antt =====
-- internal/approval/approval.go: chains, tokens, the command that a segment runs, `IsDeletion` and
-- `isSafeCommand`.
use villa_straylight.Base.{
  ℕ, ◌+◌, Bool, true, false, not, ◌&&◌, ◌||◌, Option, none, some, List, [], ◌∷◌, ◌++◌, any, leb,
  ◌==◌, is_space, is_empty, codes, same_codes, has_prefix, is_among, if◌then◌else◌, map,
}

-- Puts a character at the head of the first segment.
unfoldable pub cons_first : ℕ → List (List ℕ) → List (List ℕ)
cons_first c [] = (c ∷ []) ∷ []
cons_first c (s ∷ ss) = (c ∷ s) ∷ ss

-- `;`, `|`, the newline, `&`, and the NUL that they are replaced by.
unfoldable pub is_separator : ℕ → Bool
is_separator c = c == 59 || c == 124 || c == 10 || c == 38 || c == 0

-- `&` and `|`, of which two make one operator.
unfoldable pub is_doubled : ℕ → Bool
is_doubled c = c == 38 || c == 124

-- The segments from a character on: those after the first half of a doubled operator, or those
-- after any other character.
unfoldable pub next_segments : ℕ → List (List ℕ) → List (List ℕ) → List (List ℕ)
next_segments c opened next =
    if is_doubled c then [] ∷ opened else if is_separator c then [] ∷ next else cons_first c next

-- `chainSegments`; `half` is the last character, where it was the first half of `&&` or `||`.
unfoldable pub segments_from : Option ℕ → List ℕ → List (List ℕ)
segments_from half [] = [] ∷ []
segments_from none (c ∷ rest) =
    next_segments c (segments_from (some c) rest) (segments_from none rest)
segments_from (some d) (c ∷ rest) =
    let opened = segments_from (some c) rest in
    let next = segments_from none rest in if c == d then next else next_segments c opened next

unfoldable pub chain_segments : List ℕ → List (List ℕ)
chain_segments command = segments_from none command

-- `strings.Fields`; the first token is under way or empty.
unfoldable pub tokens_from : List ℕ → List ℕ → List (List ℕ)
tokens_from token [] = if is_empty token then [] else token ∷ []
tokens_from token (c ∷ rest) =
    let ended = tokens_from [] rest in
    let longer = tokens_from (token ++ c ∷ []) rest in
    if is_space c then (if is_empty token then ended else token ∷ ended) else longer

unfoldable pub fields : List ℕ → List (List ℕ)
fields s = tokens_from [] s

unfoldable pub drop_slashes : List ℕ → List ℕ
drop_slashes [] = []
drop_slashes (c ∷ rest) =
    let shorter = drop_slashes rest in if is_empty shorter && c == 47 then [] else c ∷ shorter

unfoldable pub after_last_slash : List ℕ → List ℕ → List ℕ
after_last_slash last [] = last
after_last_slash last (c ∷ rest) =
    let restarted = after_last_slash [] rest in
    let longer = after_last_slash (last ++ c ∷ []) rest in if c == 47 then restarted else longer

-- `filepath.Base`
unfoldable pub base : List ℕ → List ℕ
base [] = 46 ∷ []
base (c ∷ rest) =
    let name = after_last_slash [] (drop_slashes (c ∷ rest)) in
    if is_empty name then 47 ∷ [] else name

unfoldable pub launchers : List (List ℕ)
launchers =
    codes "sudo"
    ∷ codes "env"
    ∷ codes "xargs"
    ∷ codes "nice"
    ∷ codes "nohup"
    ∷ codes "time"
    ∷ codes "command"
    ∷ codes "exec"
    ∷ []

-- `effectiveCommand`; `timed` says that the flags and the duration of `timeout` are being skipped.
unfoldable pub effective_from : Bool → List (List ℕ) → List ℕ
effective_from timed [] = []
effective_from false (t ∷ ts) =
    let inside = effective_from true ts in
    let launched = effective_from false ts in
    if same_codes t (codes "timeout")
    then inside
    else if is_among t launchers
    then launched
    else base t
effective_from true (t ∷ ts) =
    let inside = effective_from true ts in
    let launched = effective_from false ts in if has_prefix t (45 ∷ []) then inside else launched

unfoldable pub effective_command : List (List ℕ) → List ℕ
effective_command tokens = effective_from false tokens

unfoldable pub deletion_commands : List (List ℕ)
deletion_commands = codes "rm" ∷ codes "rmdir" ∷ codes "unlink" ∷ codes "shred" ∷ codes "trash" ∷ []

-- The body of the loop of `IsDeletion`. `containsToken` is `is_among`.
unfoldable pub runs_deletion : List ℕ → List (List ℕ) → Bool
runs_deletion cmd tokens =
    if is_empty cmd
    then false
    else if same_codes cmd (codes "git")
    then is_among (codes "clean") tokens
    else if same_codes cmd (codes "find")
    then is_among (codes "-delete") tokens
    else is_among cmd deletion_commands

unfoldable pub segment_deletes : List ℕ → Bool
segment_deletes segment =
    let tokens = fields segment in runs_deletion (effective_command tokens) tokens

unfoldable pub is_deletion : List ℕ → Bool
is_deletion command = any segment_deletes (chain_segments command)

unfoldable pub safe_commands : List (List ℕ)
safe_commands =
    codes "cal"
    ∷ codes "date"
    ∷ codes "df"
    ∷ codes "du"
    ∷ codes "echo"
    ∷ codes "env"
    ∷ codes "free"
    ∷ codes "groups"
    ∷ codes "hostname"
    ∷ codes "id"
    ∷ codes "kill"
    ∷ codes "killall"
    ∷ codes "ls"
    ∷ codes "nice"
    ∷ codes "nohup"
    ∷ codes "printenv"
    ∷ codes "ps"
    ∷ codes "pwd"
    ∷ codes "set"
    ∷ codes "time"
    ∷ codes "timeout"
    ∷ codes "top"
    ∷ codes "type"
    ∷ codes "uname"
    ∷ codes "unset"
    ∷ codes "uptime"
    ∷ codes "whatis"
    ∷ codes "whereis"
    ∷ codes "which"
    ∷ codes "whoami"
    ∷ codes "git blame"
    ∷ codes "git branch"
    ∷ codes "git config --get"
    ∷ codes "git config --list"
    ∷ codes "git describe"
    ∷ codes "git diff"
    ∷ codes "git grep"
    ∷ codes "git log"
    ∷ codes "git ls-files"
    ∷ codes "git ls-remote"
    ∷ codes "git remote"
    ∷ codes "git rev-parse"
    ∷ codes "git shortlog"
    ∷ codes "git show"
    ∷ codes "git status"
    ∷ codes "git tag"
    ∷ []

-- Whether a text holds `;`, `|`, `&`, a backquote, the newline, or `$(`.
unfoldable pub has_metacharacter : List ℕ → Bool
has_metacharacter [] = false
has_metacharacter (c ∷ rest) =
    (c == 59 || c == 124 || c == 38 || c == 96 || c == 10 || has_prefix (c ∷ rest) (36 ∷ 40 ∷ []))
    || has_metacharacter rest

-- `unicode.ToLower` as far as its answer is an ASCII character, which is all that the safe commands
-- are matched by.
unfoldable pub to_lower : ℕ → ℕ
to_lower c =
    if leb 65 c && leb c 90 then c + 32 else if c == 304 then 105 else if c == 8490 then 107 else c

-- What stands after a prefix, where it is one.
unfoldable pub rest_after : List ℕ → List ℕ → Option (List ℕ)
rest_after s [] = some s
rest_after [] (d ∷ t) = none
rest_after (c ∷ s) (d ∷ t) = let rest = rest_after s t in if c == d then rest else none

unfoldable pub ends_word : Option (List ℕ) → Bool
ends_word none = false
ends_word (some []) = true
ends_word (some (c ∷ rest)) = c == 32 || c == 45

unfoldable pub is_safe_command : List ℕ → Bool
is_safe_command command =
    not (has_metacharacter command)
    && any (λ safe. ends_word (rest_after (map to_lower command) safe)) safe_commands
