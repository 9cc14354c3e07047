-- ===== src/Cli/Prompt/Answer.antt =====
-- The first answer that is one decides.
use fabric_network_builder.Prelude.{
  List, [], ◌∷◌, ◌++◌, append_assoc, append-nil, Bool, true, false, ◌||◌, ◌==◌, if◌then◌else◌, ◌≡◌,
  refl, sym, ap, ◌∙◌, Bytes, codes, bytes_eq, is_nil, Option, none, some, Result, ok, err, arith,
  Lacks, All-append, ==_iff, ◌≢◌,
}
use fabric_network_builder.Prelude.Spaces.{trim_space, trim_left, trim_right}
use fabric_network_builder.Vars.Read.{raw_lines}
use fabric_network_builder.Cli.Prompt.{
  PromptError, no_input, exiting, Asked, answered, at_end, ask_rest, ask_proceed,
}

-- Whether an answer goes on or stops, or is neither.
abbrev pub decision : Bytes → Option Bool
decision ans =
    if bytes_eq ans (codes "y") || bytes_eq ans (codes "Y")
    then some true
    else if bytes_eq ans (codes "n") || bytes_eq ans (codes "N")
    then some false
    else none

-- The first decision of the trimmed lines.
unfoldable pub first_decision : List Bytes → Option Bool
first_decision [] = none
first_decision (l ∷ lines) =
    let rest = first_decision lines in
    elim (decision (trim_space l)) [ some b ↦ some b | none ↦ rest ]

abbrev pub decided : Option Bool → Result PromptError (Unit {0})
decided none = err no_input
decided (some true) = ok tt
decided (some false) = err exiting

-- The lines of a text without a newline, and of one with a first newline.
lone_line : (l : Bytes) → Lacks 10 l → raw_lines l ≡ (if is_nil l then [] else (l ∷ []))
unfolding raw_lines
lone_line [] h = refl
lone_line (c ∷ []) (hc, h) = ground arith
lone_line (c ∷ d ∷ l) (hc, h) = ground (arith, lone_line (d ∷ l) h)

raw_lines-newline : (l s : Bytes) → Lacks 10 l → raw_lines (l ++ (10 ∷ s)) ≡ l ∷ raw_lines s
unfolding raw_lines
raw_lines-newline [] s h = refl
raw_lines-newline (c ∷ l) s (hc, h) = ground (arith, raw_lines-newline l s h)

answered-decision :
    (ans : Bytes) (again : Asked)
    → (answered ans again).0 ≡ elim (decision ans) [ some b ↦ decided (some b) | none ↦ again.0 ]
unfolding answered
answered-decision ans again = ground arith

-- A decision, or what follows.
abbrev or_later : Option Bool → Option Bool → Option Bool
or_later o rest = elim o [ some b ↦ some b | none ↦ rest ]

decided-or_later :
    (o rest : Option Bool)
    → elim o [ some b ↦ decided (some b) | none ↦ decided rest ] ≡ decided (or_later o rest)
decided-or_later none rest = refl
decided-or_later (some b) rest = refl

or_later-none : (o : Option Bool) → or_later o none ≡ o
or_later-none none = refl
or_later-none (some b) = refl

at_end-decision : (ans : Bytes) → (at_end ans).0 ≡ decided (decision ans)
unfolding at_end answered codes bytes_eq
at_end-decision [] = refl
at_end-decision (c ∷ ans) =
    answered-decision (c ∷ ans) (err no_input, [])
    ∙ decided-or_later (decision (c ∷ ans)) none
    ∙ ap decided (or_later-none (decision (c ∷ ans)))

-- The lines' decision, as the loop's result.
abbrev outcome : Bytes → Result PromptError (Unit {0})
outcome input = decided (first_decision (raw_lines input))

last_line : (line : Bytes) → Lacks 10 line → (at_end (trim_space line)).0 ≡ outcome line
unfolding first_decision trim_space trim_left trim_right at_end raw_lines
last_line [] h = refl
last_line (c ∷ line) h =
    at_end-decision (trim_space (c ∷ line))
    ∙ ap decided (sym (or_later-none (decision (trim_space (c ∷ line)))))
    ∙ ap (λ ls. decided (first_decision ls)) (sym (lone_line (c ∷ line) h))

first_line :
    (line input : Bytes) (next : Asked)
    → Lacks 10 line
    → next.0 ≡ outcome input
    → (answered (trim_space line) next).0 ≡ outcome (line ++ (10 ∷ input))
unfolding first_decision
first_line line input next h again =
    answered-decision (trim_space line) next
    ∙ ap (λ x. elim (decision (trim_space line)) [ some b ↦ decided (some b) | none ↦ x ]) again
    ∙ decided-or_later (decision (trim_space line)) (first_decision (raw_lines input))
    ∙ ap (λ ls. decided (first_decision ls)) (sym (raw_lines-newline line input h))

either :
    (b : Bool) (yes? no? : Asked) (r : Result PromptError (Unit {0}))
    → (b ≡ true → yes?.0 ≡ r)
    → (b ≡ false → no?.0 ≡ r)
    → (if b then yes? else no?).0 ≡ r
either true yes? no? r f g = f refl
either false yes? no? r f g = g refl

ask_rest-decision :
    (line input : Bytes) → Lacks 10 line → (ask_rest line input).0 ≡ outcome (line ++ input)
unfolding ask_rest
ask_rest-decision line [] h = last_line line h ∙ ap outcome (sym (append-nil line))
ask_rest-decision line (c ∷ input) h =
    either (c == 10) (answered (trim_space line) (ask_rest [] input))
      (ask_rest (line ++ (c ∷ [])) input) (outcome (line ++ (c ∷ input)))
      (λ e.
        first_line line input (ask_rest [] input) h (ask_rest-decision [] input tt)
        ∙ ap (λ d. outcome (line ++ (d ∷ input))) (sym ((==_iff c 10).0 e)))
      (λ e.
        ask_rest-decision (line ++ (c ∷ [])) input
          (All-append (λ d. d ≢ 10) line (c ∷ []) h ((λ d. cc (e, (==_iff c 10).1 d)), tt))
        ∙ ap outcome (append_assoc line (c ∷ []) input))

-- Without force, askProceed goes on when the first line of the input that is y, Y, n or N, spaces
-- apart, is y or Y; it stops when that line is n or N, and fails for lack of input when there is no
-- such line.
pub ask_proceed-decision :
    (input : Bytes) → (ask_proceed false input).0 ≡ decided (first_decision (raw_lines input))
unfolding ask_proceed
ask_proceed-decision input = ask_rest-decision [] input tt
