-- ===== src/Observability/SequenceStore.antt =====
-- include/bist/observability/sequence_store.hpp: the last session and sequence number on disk.
pub mod Line
pub mod Saved
use ouchservice.Prelude.{
  ℕ, zero, suc, ◌+◌, ◌-◌, ◌*◌, ◌%◌, ◌^◌, Bool, true, false, not, ◌&&◌, ◌||◌, List, [], ◌∷◌, ◌++◌,
  Option, none, some, if◌then◌else◌, ◌==◌, ltb, leb, codes, String,
}
use ouchservice.Prelude.Decimal.{print_padded, read_digits, skip_spaces, is_digit}
use ouchservice.Core.Types.{Error, ErrorCategory, make_error, Result, ok, err}
use ouchservice.Ouch.Session.State.{first_or_zero, rest_of}
use ouchservice.Ouch.Session.Timers.{since}

-- What the file system answers to a save: the temporary file cannot be opened, or is written in part
-- only, or cannot be renamed, each with the text that the errors carry; or all goes well.
pub data SaveReply : Type 0 where
  cannot_open : List ℕ → SaveReply
  cannot_write : List ℕ → SaveReply
  cannot_rename : List ℕ → SaveReply
  renamed : SaveReply

-- `SequenceStore`, with the two files, the coming answers of the file system, the readings of the clock,
-- and the text of the exception that `std::stoull` throws.
pub record SequenceStore : Type 0 where
  pub file : Option (List ℕ)
  pub tmp : Option (List ℕ)
  pub tmp_name : List ℕ
  pub unreadable : Option (List ℕ)
  pub what : List ℕ
  pub replies : List SaveReply
  pub clock : List ℕ
  pub last_saved_seq : ℕ
  pub last_save_ns : ℕ

-- `std::getline`: up to the end of the line.
unfoldable pub first_line : List ℕ → List ℕ
first_line [] = []
first_line (c ∷ cs) = if c == 10 then [] else c ∷ first_line cs

-- `line.find(':')`, with the texts before and behind it.
unfoldable pub split_colon : List ℕ → Option (List ℕ × List ℕ)
split_colon [] = none
split_colon (c ∷ cs) =
    let rest = split_colon cs in
    if c == b':' then some ([], cs) else elim rest [ none ↦ none | some p ↦ some (c ∷ p.0, p.1) ]

-- `std::stoull`: nothing where it throws, since there is no digit or the number is too large.
unfoldable pub unsigned_digits : List ℕ → Option ℕ
unsigned_digits [] = none
unsigned_digits (c ∷ cs) =
    if is_digit c && ltb (read_digits 0 (c ∷ cs)) (2 ^ 64)
    then some (read_digits 0 (c ∷ cs))
    else none

abbrev pub negated : Option ℕ → Option ℕ
negated none = none
negated (some v) = some ((2 ^ 64 - v) % 2 ^ 64)

unfoldable pub signed_digits : List ℕ → Option ℕ
unfolding unsigned_digits
signed_digits [] = none
signed_digits (c ∷ cs) =
    if c == b'-'
    then negated (unsigned_digits cs)
    else if c == b'+'
    then unsigned_digits cs
    else unsigned_digits (c ∷ cs)

unfoldable pub stoull : List ℕ → Option ℕ
unfolding signed_digits
stoull text = signed_digits (skip_spaces text)

-- A result with the two output parameters.
abbrev pub Loaded : Type 0
Loaded = Result (Unit {0}) × List ℕ × ℕ

unfoldable pub load_number : List ℕ → List ℕ → Option ℕ → Loaded
load_number what session none = (
  err (record {
    category = ErrorCategory.validation;
    detail = "sequence file malformed: ";
    appended = what;
  }),
  session,
  0,
)
load_number what session (some seq) = (ok tt, session, seq)

unfoldable pub load_line : List ℕ → Option (List ℕ × List ℕ) → Loaded
unfolding stoull load_number
load_line what none =
    (err (make_error ErrorCategory.validation "sequence file malformed (missing ':')"), [], 0)
load_line what (some (session, number)) = load_number what session (stoull number)

unfoldable pub load_file : List ℕ → Option (List ℕ) → List ℕ → Loaded
unfolding load_line first_line split_colon
load_file what (some reason) text =
    (err (record { category = ErrorCategory.io; detail = "open "; appended = reason }), [], 0)
load_file what none text = load_line what (split_colon (first_line text))

unfoldable pub load_from : List ℕ → Option (List ℕ) → Option (List ℕ) → Loaded
unfolding load_file
load_from what unreadable none = (ok tt, [], 0)
load_from what unreadable (some text) = load_file what unreadable text

unfoldable pub load : SequenceStore → Loaded
unfolding load_from
load s = load_from s.what s.unreadable s.file

-- `f << session << ':' << seq << '\n'`
unfoldable pub line_of : List ℕ → ℕ → List ℕ
line_of session seq = session ++ (b':' ∷ (print_padded 1 seq ++ (10 ∷ [])))

abbrev pub io_error : String → List ℕ → Result (Unit {0})
io_error detail appended =
    err (record { category = ErrorCategory.io; detail = detail; appended = appended })

-- The reply to this save; when the list is at its end, all goes well.
abbrev pub reply : List SaveReply → SaveReply
reply [] = SaveReply.renamed
reply (a ∷ as') = a

abbrev pub later : List SaveReply → List SaveReply
later [] = []
later (a ∷ as') = as'

unfoldable pub save_with :
    SaveReply → List ℕ → ℕ → SequenceStore → Result (Unit {0}) × SequenceStore
unfolding line_of
save_with (SaveReply.cannot_open reason) session seq s =
    (io_error "open " (s.tmp_name ++ codes ": " ++ reason), s)
save_with (SaveReply.cannot_write part) session seq s =
    (io_error "write " (s.tmp_name ++ codes " failed"), record s { tmp = some part })
save_with (SaveReply.cannot_rename reason) session seq s = (
  io_error "rename " (s.tmp_name ++ codes " -> " ++ reason),
  record s { tmp = some (line_of session seq) },
)
save_with SaveReply.renamed session seq s = (
  ok tt,
  record s {
    file = some (line_of session seq);
    tmp = none;
    last_saved_seq = seq;
    last_save_ns = first_or_zero s.clock;
    clock = rest_of s.clock;
  },
)

unfoldable pub save : List ℕ → ℕ → SequenceStore → Result (Unit {0}) × SequenceStore
unfolding save_with
save session seq s =
    save_with (reply s.replies) session seq (record s { replies = later s.replies })

abbrev pub seq_due : ℕ → ℕ → SequenceStore → Bool
seq_due seq min_seq_delta s = leb min_seq_delta (since seq s.last_saved_seq)

abbrev pub time_due : ℕ → SequenceStore → Bool
time_due min_interval_ms s =
    s.last_save_ns == 0
    || leb (min_interval_ms * 1_000_000) (since (first_or_zero s.clock) s.last_save_ns)

unfoldable pub save_if_due : List ℕ → ℕ → ℕ → ℕ → SequenceStore → Result (Unit {0}) × SequenceStore
unfolding save
save_if_due session seq min_seq_delta min_interval_ms s =
    let s' : SequenceStore = record s { clock = rest_of s.clock } in
    if seq == s.last_saved_seq
    then (ok tt, s)
    else if not (seq_due seq min_seq_delta s) && not (time_due min_interval_ms s)
    then (ok tt, s')
    else save session seq s'

unfoldable pub flush : List ℕ → ℕ → SequenceStore → Result (Unit {0}) × SequenceStore
unfolding save
flush session seq s = if seq == s.last_saved_seq then (ok tt, s) else save session seq s
