-- ===== src/Compiler/ProgramDoc.antt =====
-- Which doc becomes the program's.
use sparsam.Base.{
  ℕ, ◌==◌, if◌then◌else◌, ◌≡◌, refl, ap, ◌∙◌, Text, List, [], ◌∷◌, Option, none, some, Bool, true,
  false, not, any, Bool-cases, inl, inr,
}
use sparsam.Compiler.Doctext.{clean_up_doctext}
use sparsam.Compiler.DocStatus.{
  DoctextStatus, invalid, still_candidate, already_processed, absolutely_sure, no_program_doctext,
  DocState, clear_doctext, reset_program_doctext_info, declared, declare_valid_program_doctext,
  status_after_doc, set_doc, candidate_after, Event, doctext_read, header, node_documented,
  doctext_dropped, step, run, doc_of,
}

pub is_header : Event → Bool
is_header header = true
is_header e = false

-- A node takes the doc of the line `n` before a header comes, and no header comes after it; the last
-- doc stands at `m`.
pub is_claimed : ℕ → ℕ → List Event → Bool
is_claimed n m [] = false
is_claimed n m (header ∷ es) = false
is_claimed n m (node_documented ∷ es) =
    let later = is_claimed n m es in if n == m then not (any is_header es) else later
is_claimed n m (doctext_read raw k ∷ es) = is_claimed n k es
is_claimed n m (doctext_dropped ∷ es) = is_claimed n m es

-- The program's doc: the first one, where no header stands before it and no node takes it. The
-- outer `none` is a crash.
pub program_doc : List Event → Option (Option Text)
program_doc [] = some none
program_doc (header ∷ es) = some none
program_doc (node_documented ∷ es) = program_doc es
program_doc (doctext_dropped ∷ es) = program_doc es
program_doc (doctext_read raw n ∷ es) = elim (clean_up_doctext raw) [
  | none ↦ none
  | some d ↦ some (if is_claimed n n es then none else some d)
]

-- What a run leaves, at the end of the file.
abbrev pub outcome : Option DocState → Option (Option Text)
outcome none = none
outcome (some s) = some (doc_of s.candidate s.status)

abbrev state : Option Text → ℕ → Option Text → ℕ → DoctextStatus → DocState
state t m c n status = record {
  doctext = t;
  lineno = m;
  candidate = c;
  program_lineno = n;
  status = status;
}

-- set_doc changes no status but that of a candidate.
no_program-after_doc : (b : Bool) → status_after_doc b no_program_doctext ≡ no_program_doctext
unfolding status_after_doc
no_program-after_doc true = refl
no_program-after_doc false = refl

sure-after_doc : (b : Bool) → status_after_doc b absolutely_sure ≡ absolutely_sure
unfolding status_after_doc
sure-after_doc true = refl
sure-after_doc false = refl

processed-after_doc : (b : Bool) → status_after_doc b already_processed ≡ already_processed
unfolding status_after_doc
processed-after_doc true = refl
processed-after_doc false = refl

invalid-after_doc : (b : Bool) → status_after_doc b invalid ≡ invalid
unfolding status_after_doc
invalid-after_doc true = refl
invalid-after_doc false = refl

-- The program keeps its candidate, if there is one, once a second header has come,
kept :
    (es : List Event) (t : Option Text) (m : ℕ) (c : Option Text) (n : ℕ)
    → outcome (run es (state t m c n no_program_doctext)) ≡ some c
unfolding run step candidate_after set_doc clear_doctext declare_valid_program_doctext declared
    doc_of
kept [] t m c n = refl
kept (doctext_read raw k ∷ es) t m none n = kept es (clean_up_doctext raw) k none n
kept (doctext_read raw k ∷ es) t m (some d) n = kept es (clean_up_doctext raw) k (some d) n
kept (header ∷ es) t m none n = kept es t m none n
kept (header ∷ es) t m (some d) n = kept es t m (some d) n
kept (node_documented ∷ es) t m c n =
    ap (λ st. outcome (run es (state t m c n st))) (no_program-after_doc (n == m)) ∙ kept es t m c n
kept (doctext_dropped ∷ es) t m c n = kept es none m c n

-- and once the first one has come behind it.
kept_sure :
    (es : List Event) (t : Option Text) (m : ℕ) (d : Text) (n : ℕ)
    → outcome (run es (state t m (some d) n absolutely_sure)) ≡ some (some d)
unfolding run step candidate_after set_doc clear_doctext declare_valid_program_doctext declared
    doc_of
kept_sure [] t m d n = refl
kept_sure (doctext_read raw k ∷ es) t m d n = kept_sure es (clean_up_doctext raw) k d n
kept_sure (header ∷ es) t m d n = kept es t m (some d) n
kept_sure (node_documented ∷ es) t m d n =
    ap (λ st. outcome (run es (state t m (some d) n st))) (sure-after_doc (n == m))
    ∙ kept_sure es t m d n
kept_sure (doctext_dropped ∷ es) t m d n = kept_sure es none m d n

-- A node that took the doc keeps it, unless a header comes.
taken :
    (es : List Event) (t : Option Text) (m : ℕ) (d : Text) (n : ℕ)
    → outcome (run es (state t m (some d) n already_processed))
      ≡ some (if not (any is_header es) then none else some d)
unfolding run step candidate_after set_doc clear_doctext declare_valid_program_doctext declared
    doc_of is_header
taken [] t m d n = refl
taken (doctext_read raw k ∷ es) t m d n = taken es (clean_up_doctext raw) k d n
taken (header ∷ es) t m d n = kept es t m (some d) n
taken (node_documented ∷ es) t m d n =
    ap (λ st. outcome (run es (state t m (some d) n st))) (processed-after_doc (n == m))
    ∙ taken es t m d n
taken (doctext_dropped ∷ es) t m d n = taken es none m d n

candidate :
    (es : List Event) (t : Option Text) (m : ℕ) (d : Text) (n : ℕ)
    → outcome (run es (state t m (some d) n still_candidate))
      ≡ some (if is_claimed n m es then none else some d)
unfolding run step candidate_after set_doc clear_doctext declare_valid_program_doctext declared
    doc_of is_claimed status_after_doc
candidate [] t m d n = refl
candidate (doctext_read raw k ∷ es) t m d n = candidate es (clean_up_doctext raw) k d n
candidate (header ∷ es) t m d n = kept_sure es t m d n
candidate (node_documented ∷ es) t m d n = elim (Bool-cases (n == m)) [
  | inl same ↦ rw same (taken es t m d n)
  | inr other ↦ rw other (candidate es t m d n)
]
candidate (doctext_dropped ∷ es) t m d n = candidate es none m d n

-- The first doc, by what the lexer makes of it.
abbrev first : Option Text → ℕ → List Event → Option (Option Text)
first c n es = elim c [ none ↦ none | some d ↦ some (if is_claimed n n es then none else some d) ]

first_read :
    (c : Option Text) (k : ℕ) (es : List Event) (t : Option Text) (m n : ℕ)
    → outcome (elim (candidate_after c k none invalid (state t m none n invalid)) [
      | none ↦ none
      | some s ↦ run es s
    ])
      ≡ first c k es
unfolding candidate_after
first_read none k es t m n = refl
first_read (some d) k es t m n = candidate es (some d) k d k

fresh :
    (es : List Event) (t : Option Text) (m n : ℕ)
    → outcome (run es (state t m none n invalid)) ≡ program_doc es
unfolding run step candidate_after set_doc clear_doctext declare_valid_program_doctext declared
    doc_of program_doc
fresh [] t m n = refl
fresh (doctext_read raw k ∷ es) t m n = first_read (clean_up_doctext raw) k es t m n
fresh (header ∷ es) t m n = kept es t m none n
fresh (node_documented ∷ es) t m n =
    ap (λ st. outcome (run es (state t m none n st))) (invalid-after_doc (n == m)) ∙ fresh es t m n
fresh (doctext_dropped ∷ es) t m n = fresh es none m n

-- A file whose docs are read from a state that reset_program_doctext_info leaves gives the program
-- the first of them: unless a header stands before it, or a node that comes before any header takes
-- the doc of its line and no header follows. The run crashes exactly where the first doc has nothing
-- in it and stands before every header.
pub run-program_doc :
    (es : List Event) (s : DocState)
    → outcome (run es (reset_program_doctext_info s)) ≡ program_doc es
unfolding reset_program_doctext_info
run-program_doc es s = fresh es s.doctext s.lineno 0
