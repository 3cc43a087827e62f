-- ===== src/Store/File/Atomic.antt =====
-- The file store never shows a half-written checkpoint.
use mathlib.Core.Option
use mathlib.Core.List.{append-nil}
use determa_state_python.Prelude.{
  ℕ, ◌≡◌, refl, sym, ap, ◌∙◌, ◌⊎◌, inl, inr, List, [], ◌++◌, Option, none, some, take, append-take,
}
use determa_state_python.Store.File.{
  Disk, Call, mkstemp, fdopen, write, flush, fsync, close, replace_call, open_directory,
  fsync_directory, close_directory, unlink_call, How, returns, raises, killed, Answer, at_once,
  passes_by, pass, write_candidate, make_temporary, replace_file, unlink, unchanged, write_stream,
  sync_directory, commit_candidate,
}
use determa_state_python.Store.File.Ends.{
  Ends, Ends-go_on, Ends-end_with, Ends-handle, Ends-at_once, Ends-everywhere, Ends-imp,
}

module _ {Byte : Type 0} where
  module _ (answers : Call → Answer) (candidate : List Byte) (old : Option (List Byte)) where
    -- The checkpoint file is as it was.
    abbrev Untouched : Disk Byte → Type 0
    Untouched d = d.checkpoint ≡ old

    -- The temporary file is empty, and nothing is pending.
    record Empty (d : Disk Byte) : Type 0 where
      untouched : Untouched d
      empty : d.temporary ≡ some []
      none_pending : d.pending ≡ []

    -- The temporary file and what is pending make up the candidate.
    record Partial (d : Disk Byte) : Type 0 where
      untouched : Untouched d
      written : List Byte
      holds : d.temporary ≡ some written
      rest : written ++ d.pending ≡ candidate

    -- The temporary file holds the candidate.
    record Written (d : Disk Byte) : Type 0 where
      untouched : Untouched d
      holds : d.temporary ≡ some candidate
      none_pending : d.pending ≡ []

    record Replaced (d : Disk Byte) : Type 0 where
      stored : d.checkpoint ≡ some candidate
      renamed : d.temporary ≡ none

    -- The checkpoint file holds what it held, or the whole candidate.
    abbrev pub Settled : Disk Byte → Type 0
    Settled d = (d.checkpoint ≡ old) ⊎ (d.checkpoint ≡ some candidate)

    write-Ends :
        (a : Answer) (d : Disk Byte)
        → Empty d
        → Ends Partial Untouched Untouched (write_candidate a candidate d)
    write-Ends a d e =
        Ends-imp Partial Partial Partial Untouched Partial Untouched (write_candidate a candidate d)
          (λ x p. p) (λ x p. p.untouched) (λ x p. p.untouched)
          (Ends-everywhere Partial a.how
            (pass a.progress (record d { pending = d.pending ++ candidate }))
            (record {
              untouched = e.untouched;
              written = take a.progress (d.pending ++ candidate);
              holds = ap (Option.map (λ w. w ++ take a.progress (d.pending ++ candidate))) e.empty;
              rest =
                  append-take a.progress (d.pending ++ candidate)
                  ∙ ap (λ p. p ++ candidate) e.none_pending;
            }))

    passes-Ends :
        (h : How) (n : ℕ) (d : Disk Byte)
        → Partial d
        → Ends Written Untouched Untouched (passes_by h n d)
    passes-Ends returns n d p = record {
      untouched = p.untouched;
      holds = ap (Option.map (λ w. w ++ d.pending)) p.holds ∙ ap some p.rest;
      none_pending = refl;
    }
    passes-Ends raises n d p = p.untouched
    passes-Ends killed n d p = p.untouched

    -- Closing the stream leaves the checkpoint file alone.
    close-Untouched :
        (h : How) (n : ℕ) (d : Disk Byte)
        → Untouched d
        → Ends Untouched Untouched Untouched (passes_by h n d)
    close-Untouched returns n d p = p
    close-Untouched raises n d p = p
    close-Untouched killed n d p = p

    Written-Partial : (d : Disk Byte) → Written d → Partial d
    Written-Partial d w = record {
      untouched = w.untouched;
      written = candidate;
      holds = w.holds;
      rest = ap (λ p. candidate ++ p) w.none_pending ∙ append-nil candidate;
    }

    unchanged-Ends :
        (P X : Disk Byte → Type 0) (a : Answer) (d : Disk Byte)
        → ((e : Disk Byte) → P e → X e)
        → P d
        → Ends P X X (at_once a unchanged d)
    unchanged-Ends P X a d f p =
        Ends-at_once P X X a.how a.progress unchanged d (λ e. p) (λ e. f d p) (f d p) (f d p)

    write_stream-Ends :
        (d : Disk Byte)
        → Empty d
        → Ends Written Untouched Untouched (write_stream answers candidate d)
    unfolding write_stream
    write_stream-Ends d e =
        Ends-go_on Written Untouched Untouched Empty _ _
          (unchanged-Ends Empty Untouched (answers fdopen) d (λ x p. p.untouched) e)
          (λ d1 e1.
            Ends-end_with Written Untouched Untouched Written Untouched _ _
              (Ends-go_on Written Untouched Untouched Partial _ _ (write-Ends (answers write) d1 e1)
                (λ d2 e2.
                  Ends-go_on Written Untouched Untouched Written _ _
                    (passes-Ends (answers flush).how (answers flush).progress d2 e2)
                    (λ d3 e3.
                      unchanged-Ends Written Untouched (answers fsync) d3 (λ x p. p.untouched) e3)))
              (λ d4 e4.
                passes-Ends (answers close).how (answers close).progress d4 (Written-Partial d4 e4))
              (λ d4 e4. close-Untouched (answers close).how (answers close).progress d4 e4))

    replace-Ends :
        (a : Answer) (d : Disk Byte)
        → Written d
        → Ends Replaced Settled Settled (at_once a replace_file d)
    replace-Ends a d w =
        Ends-at_once Replaced Settled Settled a.how a.progress replace_file d (λ e. replaced)
          (λ e. inl w.untouched) (inl w.untouched) (inr replaced.stored)
      where
        replaced : Replaced (replace_file d)
        replaced = unfold replace_file in rw w.holds (record { stored = refl; renamed = refl })

    sync_directory-Ends :
        (d : Disk Byte)
        → Replaced d
        → Ends Replaced Settled Settled (sync_directory answers candidate d)
    unfolding sync_directory
    sync_directory-Ends d r =
        Ends-go_on Replaced Settled Settled Replaced _ _ (quiet open_directory d r) (λ d1 r1.
          Ends-end_with Replaced Settled Settled Replaced Settled _ _ (quiet fsync_directory d1 r1)
            (λ d2 r2. quiet close_directory d2 r2)
            (λ d2 r2. unchanged-Ends Settled Settled (answers close_directory) d2 (λ x p. p) r2))
      where
        quiet :
            (c : Call) (x : Disk Byte)
            → Replaced x
            → Ends Replaced Settled Settled (at_once (answers c) unchanged x)
        quiet c x p = unchanged-Ends Replaced Settled (answers c) x (λ y q. inr q.stored) p

    -- An exception leaves no temporary file, unless removing it fails too.
    abbrev pub Cleaned : Disk Byte → Type 0
    Cleaned d = Settled d × ((answers unlink_call).how ≡ returns → d.temporary ≡ none)

    commit_candidate-Ends :
        (d : Disk Byte)
        → d.checkpoint ≡ old
        → d.temporary ≡ none
        → Ends Replaced Cleaned Settled (commit_candidate answers candidate d)
    unfolding commit_candidate
    commit_candidate-Ends d same no_temporary =
        Ends-go_on Replaced Cleaned Settled Empty _ _
          (Ends-at_once Empty Cleaned Settled (answers mkstemp).how (answers mkstemp).progress
            make_temporary d (λ e. record { untouched = same; empty = refl; none_pending = refl })
            (λ e. (inl same, λ u. no_temporary)) (inl same) (inl same))
          (λ d1 e1.
            Ends-handle Replaced Cleaned Settled Settled _ _
              (Ends-go_on Replaced Settled Settled Written _ _
                (Ends-imp Written Written Untouched Settled Untouched Settled _ (λ x p. p)
                  (λ x p. inl p) (λ x p. inl p) (write_stream-Ends d1 e1))
                (λ d2 w.
                  Ends-go_on Replaced Settled Settled Replaced _ _
                    (replace-Ends (answers replace_call) d2 w) sync_directory-Ends))
              (λ d3 s.
                Ends-at_once Cleaned Cleaned Settled (answers unlink_call).how
                  (answers unlink_call).progress unlink d3 (λ e. (s, λ u. refl))
                  (λ e. (s, λ u. absurd (returns_raises (sym u ∙ e)))) s s))
      where
        returns_raises : returns ≡ raises → ⊥
        returns_raises q = absurd (cc)

    Ends-Settled : (out : How × Disk Byte) → Ends Replaced Cleaned Settled out → Settled out.1
    Ends-Settled (returns, d) h = inr h.stored
    Ends-Settled (raises, d) h = h.0
    Ends-Settled (killed, d) h = h

    Ends-Replaced :
        (out : How × Disk Byte)
        → Ends Replaced Cleaned Settled out
        → out.0 ≡ returns
        → (out.1.checkpoint ≡ some candidate) × (out.1.temporary ≡ none)
    Ends-Replaced (returns, d) h p = (h.stored, h.renamed)
    Ends-Replaced (raises, d) h p = absurd (cc)
    Ends-Replaced (killed, d) h p = absurd (cc)

    Ends-Cleaned :
        (out : How × Disk Byte)
        → Ends Replaced Cleaned Settled out
        → out.0 ≡ raises
        → (answers unlink_call).how ≡ returns
        → out.1.temporary ≡ none
    Ends-Cleaned (returns, d) h p u = absurd (cc)
    Ends-Cleaned (raises, d) h p u = h.1 u
    Ends-Cleaned (killed, d) h p u = absurd (cc)

-- Let no temporary file be there. However each call of the operating system ends and however much of the
-- candidate the stream passes on at a time, the checkpoint file holds, when `commit` returns, when an
-- exception leaves it and when the process is killed in any of its calls, the bytes it held before or all
-- bytes of the candidate. If `commit` returns, it holds the candidate, and no temporary file is left; if an
-- exception leaves it, no temporary file is left unless removing it failed.
pub commit_candidate_lem :
    {Byte : Type 0} (answers : Call → Answer) (candidate : List Byte) (disk : Disk Byte)
    → disk.temporary ≡ none
    → Settled answers candidate disk.checkpoint (commit_candidate answers candidate disk).1
      × ((commit_candidate answers candidate disk).0 ≡ returns
          → ((commit_candidate answers candidate disk).1.checkpoint ≡ some candidate)
            × ((commit_candidate answers candidate disk).1.temporary ≡ none))
      × ((commit_candidate answers candidate disk).0 ≡ raises
          → (answers unlink_call).how ≡ returns
          → (commit_candidate answers candidate disk).1.temporary ≡ none)
commit_candidate_lem answers candidate disk h =
    let ends = commit_candidate-Ends answers candidate disk.checkpoint disk refl h in
    (
      Ends-Settled answers candidate disk.checkpoint (commit_candidate answers candidate disk) ends,
      Ends-Replaced answers candidate disk.checkpoint (commit_candidate answers candidate disk)
          ends,
      Ends-Cleaned answers candidate disk.checkpoint (commit_candidate answers candidate disk) ends,
    )
