-- ===== src/Vars/Read.antt =====
-- internal/network/vars.go: `ReadVars` on the text of scripts/variables.sh.
pub mod Complete
use fabric_network_builder.Prelude.{
  ℕ, suc, List, [], ◌∷◌, ◌++◌, Bool, true, false, not, ◌&&◌, ◌||◌, ◌==◌, leb, ltb, length,
  if◌then◌else◌, Option, none, some, Bytes, codes, bytes_eq, cut_prefix, ℤ, pos, Result, ok, err,
  ◌>>=◌, is_nil,
}
use fabric_network_builder.Prelude.Spaces.{trim_space, fields}
use fabric_network_builder.Prelude.Decimal.{atoi}
use fabric_network_builder.Vars.{Vars}

-- The errors of the file; `bad_index` names the variable and the word.
pub data VarsError : Type 0 where
  bad_index : Bytes → Bytes → VarsError
  line_too_long : VarsError
  no_domain_name : VarsError
  no_indices : VarsError
  no_endorsement_policy : VarsError

-- `bufio.ScanLines`: the lines, each without its newline and one carriage return before that.
unfoldable pub drop_cr : Bytes → Bytes
drop_cr [] = []
drop_cr (c ∷ []) = if c == 13 then [] else (c ∷ [])
drop_cr (c ∷ d ∷ s) = c ∷ drop_cr (d ∷ s)

abbrev pub onto_first : ℕ → List Bytes → List Bytes
onto_first c [] = (c ∷ []) ∷ []
onto_first c (l ∷ ls) = (c ∷ l) ∷ ls

unfoldable pub raw_lines : Bytes → List Bytes
raw_lines [] = []
raw_lines (c ∷ s) = let rest = raw_lines s in if c == 10 then [] ∷ rest else onto_first c rest

-- A name of capitals and underscores, and what is behind it.
abbrev is_name_byte : ℕ → Bool
is_name_byte c = (leb b'A' c && leb c b'Z') || c == b'_'

unfoldable pub span_name : Bytes → Bytes × Bytes
span_name [] = ([], [])
span_name (c ∷ s) =
    let rest = span_name s in if is_name_byte c then (c ∷ rest.0, rest.1) else ([], c ∷ s)

-- The text before a last byte, if it is the given one.
unfoldable pub before_last : ℕ → Bytes → Option Bytes
before_last q [] = none
before_last q (c ∷ []) = if c == q then some [] else none
before_last q (c ∷ d ∷ s) = elim (before_last q (d ∷ s)) [ some t ↦ some (c ∷ t) | none ↦ none ]

-- A name, an opening text and a closing byte: the submatches of `scalarRe` and `arrayRe`.
abbrev pub body_of : Bytes → ℕ → Option Bytes → Option (Bytes × Bytes)
body_of name close none = none
body_of name close (some rest) = elim (before_last close rest) [
  | some body ↦ some (name, body)
  | none ↦ none
]

unfoldable pub assignment : Bytes → ℕ → Bytes → Option (Bytes × Bytes)
assignment opening close line =
    let parts = span_name line in
    if is_nil parts.0 then none else body_of parts.0 close (cut_prefix parts.1 opening)

unfoldable pub parse_ints : Bytes → List Bytes → Result VarsError (List ℤ)
parse_ints name [] = ok []
parse_ints name (w ∷ ws) = elim (atoi w) [
  | some n ↦ parse_ints name ws >>= λ ns. ok (n ∷ ns)
  | none ↦ err (bad_index name w)
]

unfoldable pub set_scalar : Bytes → Bytes → Vars → Vars
set_scalar name value v =
    if bytes_eq name (codes "DOMAIN_NAME")
    then record v { domain_name = value }
    else if bytes_eq name (codes "ENDORSEMENT_POLICY")
    then record v { endorsement_policy = value }
    else v

unfoldable pub set_array : Bytes → List ℤ → Vars → Vars
set_array name ints v =
    if bytes_eq name (codes "ORG_INDICES")
    then record v { org_indices = ints }
    else if bytes_eq name (codes "PEER_INDICES")
    then record v { peer_indices = ints }
    else if bytes_eq name (codes "ORDERER_INDICES")
    then record v { orderer_indices = ints }
    else v

-- The array case of a line, and any other line.
unfoldable pub read_array : Vars → Option (Bytes × Bytes) → Result VarsError Vars
read_array v none = ok v
read_array v (some (name, body)) =
    parse_ints name (fields body) >>= λ ints. ok (set_array name ints v)

unfoldable pub read_assignment :
    Vars → Option (Bytes × Bytes) → Option (Bytes × Bytes) → Result VarsError Vars
read_assignment v (some (name, value)) array = ok (set_scalar name value v)
read_assignment v none array = read_array v array

unfoldable pub read_line : Vars → Bytes → Result VarsError Vars
read_line v line =
    read_assignment v (assignment (codes "=\"") b'"' line) (assignment (codes "=(") b')' line)

-- The loop over the scanner's lines, which ends with an error at a line that its buffer of 64 KiB
-- does not hold.
unfoldable pub read_lines : Vars → List Bytes → Result VarsError Vars
read_lines v [] = ok v
read_lines v (l ∷ ls) =
    if leb 65536 (length l)
    then err line_too_long
    else (read_line v (trim_space (drop_cr l)) >>= λ u. read_lines u ls)

unfoldable pub with_orderer : Vars → Vars
with_orderer v = if is_nil v.orderer_indices then record v { orderer_indices = pos 0 ∷ [] } else v

unfoldable pub check_vars : Vars → Result VarsError Vars
check_vars v =
    if is_nil v.domain_name
    then err no_domain_name
    else if is_nil v.org_indices || is_nil v.peer_indices
    then err no_indices
    else if is_nil v.endorsement_policy
    then err no_endorsement_policy
    else ok v

abbrev pub no_vars : Vars
no_vars = record {
  domain_name = [];
  endorsement_policy = [];
  org_indices = [];
  peer_indices = [];
  orderer_indices = [];
}

unfoldable pub read_vars : Bytes → Result VarsError Vars
read_vars b = read_lines no_vars (raw_lines b) >>= λ v. check_vars (with_orderer v)
