-- ===== src/Cli/Prompt.antt =====
-- internal/cli/fsutil.go: `askProceed`.
pub mod Answer
use fabric_network_builder.Prelude.{
  ℕ, List, [], ◌∷◌, ◌++◌, Bool, true, false, ◌||◌, ◌==◌, if◌then◌else◌, Bytes, codes, bytes_eq,
  is_nil, Result, ok, err,
}
use fabric_network_builder.Prelude.Spaces.{trim_space}

pub data PromptError : Type 0 where
  no_input : PromptError
  exiting : PromptError

-- What is printed.
pub data PromptLine : Type 0 where
  continue_prompt : PromptLine
  proceeding : PromptLine
  invalid_response : PromptLine

abbrev pub Asked : Type 0
Asked = Result PromptError (Unit {0}) × List PromptLine

abbrev pub printing : PromptLine → Asked → Asked
printing l (r, out) = (r, l ∷ out)

-- The switch on an answer; the last argument is the next round of the loop.
unfoldable pub answered : Bytes → Asked → Asked
answered ans again =
    if bytes_eq ans (codes "y") || bytes_eq ans (codes "Y")
    then (ok tt, proceeding ∷ [])
    else if bytes_eq ans (codes "n") || bytes_eq ans (codes "N")
    then (err exiting, [])
    else printing invalid_response (printing continue_prompt again)

-- A line that the end of the input ends; the round behind it reads nothing.
unfoldable pub at_end : Bytes → Asked
at_end ans = if is_nil ans then (err no_input, []) else answered ans (err no_input, [])

-- The rest of the input, behind the bytes of the line that is being read.
unfoldable pub ask_rest : Bytes → Bytes → Asked
ask_rest line [] = at_end (trim_space line)
ask_rest line (c ∷ input) =
    let next = ask_rest [] input in
    let more = ask_rest (line ++ (c ∷ [])) input in
    if c == 10 then answered (trim_space line) next else more

unfoldable pub ask_proceed : Bool → Bytes → Asked
ask_proceed force input =
    if force then (ok tt, []) else printing continue_prompt (ask_rest [] input)
