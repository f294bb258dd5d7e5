-- ===== src/Observability/SequenceStore/Saved.antt =====
-- What a save puts on disk, and when there is one.
use ouchservice.Prelude.{
  ℕ, ◌<◌, ◌≤◌, ◌^◌, ◌≡◌, ◌≢◌, refl, true, false, List, none, some, ◌==◌, All, arith, ap, ◌∙◌,
  if◌then◌else◌, Bool, not, ◌&&◌, ◌⊎◌, inl, inr, ==_iff,
}
use ouchservice.Core.Types.{Result, ok}
use ouchservice.Ouch.Session.State.{rest_of}
use ouchservice.Ouch.Session.Timers.{since}
use ouchservice.Observability.SequenceStore.{
  SequenceStore, SaveReply, load, load_from, load_file, load_line, load_number, line_of, save,
  save_with, reply, later, save_if_due, seq_due, time_due,
}
use ouchservice.Observability.SequenceStore.Line.{IsPlain, split_colon-line_of, stoull-print_padded}

load_file-line_of :
    (what session : List ℕ) (seq : ℕ)
    → All IsPlain session
    → seq < 2 ^ 64
    → load_file what none (line_of session seq) ≡ (ok tt, session, seq)
unfolding load_file load_line load_number
load_file-line_of what session seq plain fits =
    ap (load_line what) (split_colon-line_of session seq plain)
    ∙ ap (load_number what session) (stoull-print_padded seq fits)

-- The file holds the line of a session and a number, and can be read.
abbrev pub Holds : List ℕ → ℕ → SequenceStore → Type 0
Holds session seq s =
    (s.file ≡ some (line_of session seq))
    × (s.unreadable ≡ none)
    × All IsPlain session
    × (seq < 2 ^ 64)

load-Holds :
    (session : List ℕ) (seq : ℕ) (s : SequenceStore)
    → Holds session seq s
    → load s ≡ (ok tt, session, seq)
unfolding load
load-Holds session seq s (on_disk, readable, plain, fits) =
    ap (load_from s.what s.unreadable) on_disk
    ∙ ap (λ u. load_file s.what u (line_of session seq)) readable
    ∙ load_file-line_of s.what session seq plain fits

save_with-load :
    (a : SaveReply) (old session : List ℕ) (old_seq seq : ℕ) (s : SequenceStore)
    → Holds old old_seq s
    → All IsPlain session
    → seq < 2 ^ 64
    → let (result, s') = save_with a session seq s in
      ((result ≡ ok tt) × (load s' ≡ (ok tt, session, seq)))
      ⊎ ((result ≢ ok tt) × (load s' ≡ (ok tt, old, old_seq)))
unfolding save_with
save_with-load (SaveReply.cannot_open reason) old session old_seq seq s holds plain fits =
    inr (λ e. ground (arith, e), load-Holds old old_seq s holds)
save_with-load (SaveReply.cannot_write part) old session old_seq seq s holds plain fits =
    inr (λ e. ground (arith, e), load-Holds old old_seq _ holds)
save_with-load (SaveReply.cannot_rename reason) old session old_seq seq s holds plain fits =
    inr (λ e. ground (arith, e), load-Holds old old_seq _ holds)
save_with-load SaveReply.renamed old session old_seq seq s holds plain fits =
    inl (refl, load-Holds session seq _ (refl, holds.1, plain, fits))

-- Wherever a save fails, nothing is lost: if the file holds one session and number, then a save of
-- another (with no colon and no line end in the session, and a number of 64 bits) either succeeds, and
-- the new pair is loaded afterwards, or reports an error, and the old pair is loaded.
pub save-load :
    (old session : List ℕ) (old_seq seq : ℕ) (s : SequenceStore)
    → Holds old old_seq s
    → All IsPlain session
    → seq < 2 ^ 64
    → let (result, s') = save session seq s in
      ((result ≡ ok tt) × (load s' ≡ (ok tt, session, seq)))
      ⊎ ((result ≢ ok tt) × (load s' ≡ (ok tt, old, old_seq)))
unfolding save
save-load old session old_seq seq s holds plain fits =
    save_with-load (reply s.replies) old session old_seq seq
      (record s { replies = later s.replies }) holds plain fits

since_self : (n : ℕ) → since n n ≡ 0
since_self n = omega arith

save-renamed :
    (session : List ℕ) (seq : ℕ) (s : SequenceStore)
    → reply s.replies ≡ SaveReply.renamed
    → (save session seq s).0 ≡ ok tt
unfolding save save_with
save-renamed session seq s e = rw e refl

-- The call succeeds, and a restart would load one of the two sessions, at a number less than `delta`
-- messages behind.
abbrev pub Behind : List ℕ → List ℕ → ℕ → ℕ → Result (Unit {0}) × SequenceStore → Type 0
Behind old session seq delta p =
    (p.0 ≡ ok tt)
    × (name : List ℕ) × (n : ℕ) × ((name ≡ old) ⊎ (name ≡ session))
    × (load p.1 ≡ (ok tt, name, n))
    × (since seq n < delta)

if-Behind :
    (old session : List ℕ) (seq delta : ℕ) (b : Bool) (p q : Result (Unit {0}) × SequenceStore)
    → (b ≡ true → Behind old session seq delta p)
    → (b ≡ false → Behind old session seq delta q)
    → Behind old session seq delta (if b then p else q)
if-Behind old session seq delta true p q hp hq = hp refl
if-Behind old session seq delta false p q hp hq = hq refl

not_due :
    (seq delta : ℕ) (timely : Bool) (s : SequenceStore)
    → (not (seq_due seq delta s) && not timely) ≡ true
    → since seq s.last_saved_seq < delta
not_due seq delta timely s h = ground (arith, h)

save-Behind :
    (old session : List ℕ) (seq delta : ℕ) (s : SequenceStore)
    → Holds old s.last_saved_seq s
    → All IsPlain session
    → seq < 2 ^ 64
    → 1 ≤ delta
    → reply s.replies ≡ SaveReply.renamed
    → Behind old session seq delta (save session seq s)
save-Behind old session seq delta s holds plain fits positive works =
    let success = save-renamed session seq s works in
    elim (save-load old session s.last_saved_seq seq s holds plain fits) [
      | inl (met, loaded) ↦
          (success, session, seq, inr refl, loaded, omega (arith, since_self seq, positive))
      | inr (failed, loaded) ↦ absurd (failed success)
    ]

-- While the file system works, what a restart would load never falls behind by the given number of
-- messages or more, for a number of at least one: if the file holds the number that was saved last, for
-- whatever session, then each call for a number of 64 bits and a session with no colon and no line end
-- succeeds, and the file then loads, for the old or the new session, a number less far behind.
pub save_if_due-Behind :
    (old session : List ℕ) (seq min_seq_delta min_interval_ms : ℕ) (s : SequenceStore)
    → Holds old s.last_saved_seq s
    → All IsPlain session
    → seq < 2 ^ 64
    → 1 ≤ min_seq_delta
    → reply s.replies ≡ SaveReply.renamed
    → Behind old session seq min_seq_delta (save_if_due session seq min_seq_delta min_interval_ms s)
unfolding save_if_due
save_if_due-Behind old session seq delta interval s holds plain fits positive works =
    let s' : SequenceStore = record s { clock = rest_of s.clock } in
    let kept : load s ≡ (ok tt, old, s.last_saved_seq) = load-Holds old s.last_saved_seq s holds in
    if-Behind old session seq delta (seq == s.last_saved_seq) _ _
      (λ same.
        let equal : seq ≡ s.last_saved_seq = (==_iff seq s.last_saved_seq).0 same in
        (
          refl,
          old,
          s.last_saved_seq,
          inl refl,
          kept,
          omega (arith, equal, positive, since_self seq),
        ))
      (λ differs.
        if-Behind old session seq delta (not (seq_due seq delta s) && not (time_due interval s)) _ _
          (λ skipped. (
            refl,
            old,
            s.last_saved_seq,
            inl refl,
            load-Holds old s.last_saved_seq s' holds,
            not_due seq delta (time_due interval s) s skipped,
          ))
          (λ due. save-Behind old session seq delta s' holds plain fits positive works))
