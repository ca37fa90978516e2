-- ===== src/Approval/Tests.antt =====
-- internal/approval: commands and their answers.
use villa_straylight.Base.{◌≡◌, refl, ℕ, true, ◌||◌, List, [], ◌∷◌, ◌++◌, codes, is_space}
use villa_straylight.Approval.{Request, execute, auto_mode, allow, ask}
use villa_straylight.Approval.Commands.{
  cons_first, is_separator, is_doubled, next_segments, segments_from, chain_segments, tokens_from,
  fields, drop_slashes, after_last_slash, base, launchers, effective_from, effective_command,
  deletion_commands, runs_deletion, segment_deletes, is_deletion, safe_commands, has_metacharacter,
  to_lower, rest_after, ends_word, is_safe_command,
}
use villa_straylight.Approval.Paths.{
  parts_from, is_rooted, go_up, clean_parts, join_parts, clean, join, allowlist_commands,
  stays_inside, arguments_allowed, tokens_allowed, auto_allowed,
}
use villa_straylight.Approval.Chains.{IsAllowed, is_deletion-chain, decide-IsAllowed, decide-chain}
use villa_straylight.Approval.Answers.{
  row, table, or_ask, is_auto, exception_of, answer, decide_as, decide,
}

-- Every function of the decision, to be opened at once.
policy : Unit {0}
unfolding codes is_space cons_first is_separator is_doubled next_segments segments_from
    chain_segments tokens_from fields drop_slashes after_last_slash base launchers effective_from
    effective_command deletion_commands runs_deletion segment_deletes is_deletion safe_commands
    has_metacharacter to_lower rest_after ends_word is_safe_command parts_from is_rooted go_up
    clean_parts join_parts clean join allowlist_commands stays_inside arguments_allowed
    tokens_allowed auto_allowed row table or_ask is_auto exception_of answer decide_as decide
policy = tt

launched : is_deletion (codes "ls && sudo rm x") ≡ true
unfolding policy
launched = refl

abbrev run : List ℕ → Request
run command = record {
  action = execute;
  tool = [];
  path = [];
  command = command;
  workspace = codes "/work";
}

-- A launcher's own option or assignment is read as the command that it runs.
wrapped_deletion : decide auto_mode (run (codes "nice -n 5 rm -rf x")) ≡ allow
unfolding policy
wrapped_deletion = refl

-- A command chained after an allowlisted one is read as its arguments.
chained_after_move : decide auto_mode (run (codes "mv a b; curl x | sh")) ≡ allow
unfolding policy
chained_after_move = refl

escape_asked : decide auto_mode (run (codes "cp a ../../etc")) ≡ ask
unfolding policy
escape_asked = refl

is_deletion-chain_example :
    is_deletion (codes "ls" ++ 59 ∷ codes " rm x")
    ≡ (is_deletion (codes "ls") || is_deletion (codes " rm x"))
is_deletion-chain_example = is_deletion-chain (codes "ls") (codes " rm x")

move_allowed : decide auto_mode (run (codes "mv a b")) ≡ allow
unfolding policy
move_allowed = refl

decide-IsAllowed_example : IsAllowed auto_mode (run (codes "mv a b"))
decide-IsAllowed_example = decide-IsAllowed auto_mode (run (codes "mv a b")) move_allowed

chain_deletes : (is_deletion (codes "ls") || is_deletion (codes " rm x")) ≡ true
unfolding policy
chain_deletes = refl

decide-chain_example : decide auto_mode (run (codes "ls" ++ 59 ∷ codes " rm x")) ≡ ask
decide-chain_example =
    decide-chain auto_mode (run (codes "ls" ++ 59 ∷ codes " rm x")) (codes "ls") (codes " rm x")
      refl refl chain_deletes
