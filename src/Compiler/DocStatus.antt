-- ===== src/Compiler/DocStatus.antt =====
-- compiler/src/main.cc: clear_doctext, reset_program_doctext_info, declare_valid_program_doctext;
-- compiler/src/parse/t_doc.h: set_doc; compiler/src/globals.h: the status of the program's doctext.
-- The lexer and the grammar call them: what they do is an event here, with the lexer's action on a
-- doc and the grammar's on the end of the file.
use sparsam.Base.{ℕ, ◌==◌, Text, List, [], ◌∷◌, Option, none, some, Bool, true}
use sparsam.Compiler.Doctext.{clean_up_doctext}

pub data DoctextStatus : Type 0 where
  invalid still_candidate already_processed absolutely_sure no_program_doctext : DoctextStatus

-- g_doctext, g_doctext_lineno, g_program_doctext_candidate, g_program_doctext_lineno and
-- g_program_doctext_status; a null pointer is `none`.
pub record DocState : Type 0 where
  pub doctext : Option Text
  pub lineno : ℕ
  pub candidate : Option Text
  pub program_lineno : ℕ
  pub status : DoctextStatus

unfoldable pub clear_doctext : DocState → DocState
clear_doctext s = record s { doctext = none }

unfoldable pub reset_program_doctext_info : DocState → DocState
reset_program_doctext_info s = record s { candidate = none; program_lineno = 0; status = invalid }

-- The status that the test of declare_valid_program_doctext leaves.
unfoldable pub declared : Option Text → DoctextStatus → DoctextStatus
declared (some d) still_candidate = absolutely_sure
declared _ _ = no_program_doctext

unfoldable pub declare_valid_program_doctext : DocState → DocState
declare_valid_program_doctext s = record s { status = declared s.candidate s.status }

-- What set_doc of a node makes of the status.
unfoldable pub status_after_doc : Bool → DoctextStatus → DoctextStatus
status_after_doc true still_candidate = already_processed
status_after_doc _ status = status

unfoldable pub set_doc : DocState → DocState
set_doc s = record s { status = status_after_doc (s.program_lineno == s.lineno) s.status }

-- What the lexer does behind clean_up_doctext, whose result is the first argument; `none` is the
-- strdup of a null pointer.
unfoldable pub candidate_after :
    Option Text → ℕ → Option Text → DoctextStatus → DocState → Option DocState
candidate_after doctext lineno none invalid s = elim doctext [
  | none ↦ none
  | some d ↦ some (record s {
    doctext = some d;
    lineno = lineno;
    candidate = some d;
    program_lineno = lineno;
    status = still_candidate;
  })
]
candidate_after doctext lineno candidate status s =
    some (record s { doctext = doctext; lineno = lineno })

pub data Event : Type 0 where
  doctext_read : Text → ℕ → Event
  header : Event
  node_documented : Event
  doctext_dropped : Event

unfoldable pub step : Event → DocState → Option DocState
step (doctext_read raw lineno) s =
    candidate_after (clean_up_doctext raw) lineno s.candidate s.status s
step header s = some (declare_valid_program_doctext s)
step node_documented s = some (set_doc s)
step doctext_dropped s = some (clear_doctext s)

unfoldable pub run : List Event → DocState → Option DocState
run [] s = some s
run (e ∷ es) s = elim (step e s) [ none ↦ none | some s' ↦ run es s' ]

-- The doc that the program gets at the end of the file.
unfoldable pub doc_of : Option Text → DoctextStatus → Option Text
doc_of candidate already_processed = none
doc_of candidate status = candidate
